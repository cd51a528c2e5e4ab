-- ===== src/Learner/Examples.antt =====
-- The examples of a learned pattern: at most five, each once, and no more than the matches.
use alice_text.Prelude.{
  ◌≤◌, ◌≡◌, refl, inl, inr, List, [], ◌∷◌, ◌++◌, Bool, false, length, length-append, arith, ltb,
  ltb→lt, same_list, same_list_iff, Bool-cases, sym, ◌∙◌,
}
use mathlib.Core.Bool.{false≢true}
use alice_text.Learner.Counts.{learn_groups-covered, learn_groups-free}
use alice_text.Bytes.{Bytes, slice}
use alice_text.Columnar.Payload.{PatternType}
use alice_text.Columnar.Matches.{Group, uncovered, any_covered, cover}
use alice_text.Learner.{
  LearnedPattern, PatternDatabase, same_type, new_pattern, contains, add_example, add_entry,
  add_match, learn_groups, found_groups, pattern_types, learn, empty_database,
}

same_list_comm : (s t : Bytes) → same_list s t ≡ false → same_list t s ≡ false
same_list_comm s t h = elim (Bool-cases (same_list t s)) [
  | inr f ↦ f
  | inl e ↦ absurd (false≢true (sym h ∙ (same_list_iff s t).1 (sym ((same_list_iff t s).0 e))))
]

abbrev pub AllDistinct : List Bytes → Type 0
AllDistinct [] = Unit
AllDistinct (e ∷ es) = (contains es e ≡ false) × AllDistinct es

contains-snoc :
    (es : List Bytes) (s e : Bytes)
    → contains es e ≡ false
    → same_list s e ≡ false
    → contains (es ++ s ∷ []) e ≡ false
unfolding contains
contains-snoc [] s e h n = rw n refl
contains-snoc (x ∷ es) s e h n = elim (Bool-cases (same_list x e)) [
  | inl t ↦ absurd (false≢true (sym h ∙ rw t))
  | inr f ↦ rw f (contains-snoc es s e (rw f at h) n)
]

AllDistinct-snoc :
    (es : List Bytes) (s : Bytes)
    → AllDistinct es
    → contains es s ≡ false
    → AllDistinct (es ++ s ∷ [])
unfolding contains
AllDistinct-snoc [] s d h = (refl, tt)
AllDistinct-snoc (x ∷ es) s d h = elim (Bool-cases (same_list x s)) [
  | inl t ↦ absurd (false≢true (sym h ∙ rw t))
  | inr f ↦ (contains-snoc es s x d.0 (same_list_comm x s f), AllDistinct-snoc es s d.1 (rw f at h))
]

pub record IsPattern (p : LearnedPattern) : Type 0 where
  pub at_most_five : length p.examples ≤ 5
  pub at_most_count : length p.examples ≤ p.count
  pub distinct : AllDistinct p.examples

new_pattern-IsPattern : (t : PatternType) → IsPattern (new_pattern t)
unfolding new_pattern
new_pattern-IsPattern t = record {
  at_most_five = omega arith;
  at_most_count = omega arith;
  distinct = tt;
}

add_example-IsPattern : (s : Bytes) (p : LearnedPattern) → IsPattern p → IsPattern (add_example s p)
unfolding add_example
add_example-IsPattern s p h = elim (Bool-cases (ltb (length p.examples) 5)) [
  | inr f ↦ rw f (record {
    at_most_five = h.at_most_five;
    at_most_count = omega (arith, h.at_most_count);
    distinct = h.distinct;
  })
  | inl t ↦ elim (Bool-cases (contains p.examples s)) [
    | inl c ↦
        rw (t, c)
          (record {
            at_most_five = h.at_most_five;
            at_most_count = omega (arith, h.at_most_count);
            distinct = h.distinct;
          })
    | inr c ↦
        rw (t, c)
          (record {
            at_most_five =
                omega (arith, length-append p.examples (s ∷ []), ltb→lt (length p.examples) 5 t);
            at_most_count = omega (arith, length-append p.examples (s ∷ []), h.at_most_count);
            distinct = AllDistinct-snoc p.examples s h.distinct c;
          })
  ]
]

abbrev pub ArePatterns : List (PatternType × LearnedPattern) → Type 0
ArePatterns [] = Unit
ArePatterns ((t, p) ∷ rest) = IsPattern p × ArePatterns rest

add_entry-ArePatterns :
    (t : PatternType) (s : Bytes) (ps : List (PatternType × LearnedPattern))
    → ArePatterns ps
    → ArePatterns (add_entry t s ps)
unfolding add_entry
add_entry-ArePatterns t s [] h =
    (add_example-IsPattern s (new_pattern t) (new_pattern-IsPattern t), tt)
add_entry-ArePatterns t s ((u, p) ∷ rest) h = elim (Bool-cases (same_type u t)) [
  | inl e ↦ rw e (add_example-IsPattern s p h.0, h.1)
  | inr e ↦ rw e (h.0, add_entry-ArePatterns t s rest h.1)
]

learn_groups-ArePatterns :
    (whole : Bytes) (covered : List Bool) (gs : List Group) (db : PatternDatabase)
    → ArePatterns db.patterns
    → ArePatterns (learn_groups whole covered gs db).patterns
learn_groups-ArePatterns whole covered [] db h = unfold learn_groups in h
learn_groups-ArePatterns whole covered (g ∷ gs) db h =
    elim (Bool-cases (any_covered g.start g.end covered)) [
      | inl e ↦
          rw (learn_groups-covered whole covered g gs db e)
            (learn_groups-ArePatterns whole covered gs db h)
      | inr e ↦ rw (learn_groups-free whole covered g gs db e) (
          learn_groups-ArePatterns whole (cover g.start g.end covered) gs
            (add_match g.pattern_type (slice g.start g.end whole) db)
            (unfold add_match in
              add_entry-ArePatterns g.pattern_type (slice g.start g.end whole) db.patterns h))
    ]

-- Every pattern that `learn` returns has at most five examples, no more than its count, and no
-- example twice.
pub learn-ArePatterns :
    (find_iter : PatternType → Bytes → List Group) (whole : Bytes)
    → ArePatterns (learn find_iter whole).patterns
unfolding learn
learn-ArePatterns find_iter whole =
    learn_groups-ArePatterns whole (uncovered (length whole))
      (found_groups find_iter whole pattern_types) empty_database tt
