-- ===== src/Learner/Counts.antt =====
-- What `learn` counts, and the examples it keeps.
use alice_text.Prelude.{
  ℕ, ◌+◌, ◌≡◌, refl, inl, inr, List, [], ◌∷◌, Option, none, some, Bool, true, false, arith,
  Bool-cases, ◌++◌,
}
use alice_text.Bytes.{Bytes, slice}
use mathlib.Core.Path.{subst}
use mathlib.Core.List.{append-nil}
use alice_text.Learner.{
  priority, found_groups, pattern_types, learn, empty_database, learn_groups, add_match,
  PatternDatabase, LearnedPattern, same_type, new_pattern, add_example, lookup, add_entry, map,
  length,
}
use alice_text.Columnar.Payload.{
  PatternType, timestamp, date, time, ipv4, ipv6, uuid, log_level, path, url, number, hex, email,
}
use alice_text.Columnar.Matches.{Group, claim, free_group, cover, any_covered, uncovered}
use alice_text.Columnar.Matches.Order.{claim-none, claim-some}

-- The count of a type; a type without a pattern has none.
abbrev pub count_of : Option LearnedPattern → ℕ
count_of none = 0
count_of (some p) = p.count

abbrev pub one_if : Bool → ℕ
one_if true = 1
one_if false = 0

-- How many of the groups have the type.
pub occurrences : PatternType → List Group → ℕ
occurrences u [] = 0
occurrences u (g ∷ gs) = one_if (same_type g.pattern_type u) + occurrences u gs

same_type-join :
    (v t u : PatternType) → same_type v t ≡ true → same_type v u ≡ true → same_type t u ≡ true
unfolding same_type
same_type-join v t u e f = ground arith

same_type-apart :
    (v t u : PatternType) → same_type v t ≡ true → same_type v u ≡ false → same_type t u ≡ false
unfolding same_type
same_type-apart v t u e f = ground arith

same_type-other :
    (v t u : PatternType) → same_type v t ≡ false → same_type v u ≡ true → same_type t u ≡ false
unfolding same_type
same_type-other v t u e f = ground arith

count-add_entry :
    (t u : PatternType) (s : Bytes) (ps : List (PatternType × LearnedPattern))
    → count_of (lookup u (add_entry t s ps)) ≡ one_if (same_type t u) + count_of (lookup u ps)
unfolding lookup add_entry add_example new_pattern
count-add_entry t u s [] = elim (Bool-cases (same_type t u)) [
  | inl e ↦ rw e (omega arith)
  | inr e ↦ rw e (omega arith)
]
count-add_entry t u s ((v, p) ∷ rest) = elim (Bool-cases (same_type v t)) [
  | inl e ↦ elim (Bool-cases (same_type v u)) [
    | inl f ↦ rw (e, f, same_type-join v t u e f) (omega arith)
    | inr f ↦ rw (e, f, same_type-apart v t u e f) (omega arith)
  ]
  | inr e ↦ elim (Bool-cases (same_type v u)) [
    | inl f ↦ rw (e, f, same_type-other v t u e f) (omega arith)
    | inr f ↦ rw (e, f) (count-add_entry t u s rest)
  ]
]

-- The groups that `learn` takes: those that are free when their turn comes.
pub taken : List Bool → List Group → List Group
taken covered gs = claim covered (map (λ g. g ∷ []) gs)

taken-covered :
    (covered : List Bool) (g : Group) (gs : List Group)
    → any_covered g.start g.end covered ≡ true
    → taken covered (g ∷ gs) ≡ taken covered gs
unfolding taken
taken-covered covered g gs e =
    claim-none covered (g ∷ []) (map (λ g. g ∷ []) gs) (unfold free_group in rw e)

taken-free :
    (covered : List Bool) (g : Group) (gs : List Group)
    → any_covered g.start g.end covered ≡ false
    → taken covered (g ∷ gs) ≡ g ∷ taken (cover g.start g.end covered) gs
unfolding taken
taken-free covered g gs e =
    claim-some covered (g ∷ []) (map (λ g. g ∷ []) gs) g (unfold free_group in rw e)

pub learn_groups-covered :
    (whole : Bytes) (covered : List Bool) (g : Group) (gs : List Group) (db : PatternDatabase)
    → any_covered g.start g.end covered ≡ true
    → learn_groups whole covered (g ∷ gs) db ≡ learn_groups whole covered gs db
unfolding learn_groups
learn_groups-covered whole covered g gs db e = rw (e, learn_groups) refl

pub learn_groups-free :
    (whole : Bytes) (covered : List Bool) (g : Group) (gs : List Group) (db : PatternDatabase)
    → any_covered g.start g.end covered ≡ false
    → learn_groups whole covered (g ∷ gs) db
      ≡ learn_groups whole
          (cover g.start g.end covered)
          gs
          (add_match g.pattern_type (slice g.start g.end whole) db)
unfolding learn_groups
learn_groups-free whole covered g gs db e = rw (e, learn_groups) refl

count-add_match :
    (t u : PatternType) (s : Bytes) (db : PatternDatabase)
    → (count_of (lookup u (add_match t s db).patterns)
        ≡ one_if (same_type t u) + count_of (lookup u db.patterns))
      × ((add_match t s db).total_matches ≡ db.total_matches + 1)
unfolding add_match
count-add_match t u s db = (count-add_entry t u s db.patterns, refl)

occurrences-cons :
    (u : PatternType) (g : Group) (gs : List Group)
    → occurrences u (g ∷ gs) ≡ one_if (same_type g.pattern_type u) + occurrences u gs
unfolding occurrences
occurrences-cons u g gs = refl

-- What a database counts, for a type and in all.
abbrev pub Counts : PatternDatabase → PatternType → ℕ → ℕ → Type 0
Counts db u n total = (count_of (lookup u db.patterns) ≡ n) × (db.total_matches ≡ total)

learn_groups-Counts :
    (whole : Bytes) (covered : List Bool) (gs : List Group) (db : PatternDatabase) (u : PatternType)
    → Counts
        (learn_groups whole covered gs db)
        u
        (occurrences u (taken covered gs) + count_of (lookup u db.patterns))
        (length (taken covered gs) + db.total_matches)
learn_groups-Counts whole covered [] db u =
    unfold learn_groups occurrences taken claim in (omega arith, omega arith)
learn_groups-Counts whole covered (g ∷ gs) db u =
    elim (Bool-cases (any_covered g.start g.end covered)) [
      | inl e ↦
          rw (learn_groups-covered whole covered g gs db e, taken-covered covered g gs e)
            (learn_groups-Counts whole covered gs db u)
      | inr e ↦
          rw (learn_groups-free whole covered g gs db e, taken-free covered g gs e)
            (let next = add_match g.pattern_type (slice g.start g.end whole) db in
              let (counts, totals) =
                learn_groups-Counts whole (cover g.start g.end covered) gs next u in
              let (count, total) =
                count-add_match g.pattern_type u (slice g.start g.end whole) db in
              let occ = occurrences-cons u g (taken (cover g.start g.end covered) gs) in
              (omega arith, omega arith))
    ]

-- What the expressions find, from the type of the highest priority to that of the lowest.
abbrev pub candidates : (PatternType → Bytes → List Group) → Bytes → List Group
candidates find_iter whole =
    find_iter timestamp whole
    ++ (find_iter uuid whole
        ++ (find_iter email whole
            ++ (find_iter url whole
                ++ (find_iter ipv6 whole
                    ++ (find_iter ipv4 whole
                        ++ (find_iter date whole
                            ++ (find_iter time whole
                                ++ (find_iter path whole
                                    ++ (find_iter hex whole
                                        ++ (find_iter log_level whole
                                            ++ find_iter number whole))))))))))

found_groups-candidates :
    (find_iter : PatternType → Bytes → List Group) (whole : Bytes)
    → found_groups find_iter whole pattern_types ≡ candidates find_iter whole
unfolding found_groups pattern_types priority
found_groups-candidates find_iter whole = rw (append-nil (find_iter number whole)) refl

-- What `learn` returns counts, for each type, the groups of that type among those that were free
-- when their turn came, from all that the expressions find: of timestamps first, then of UUIDs,
-- e-mail addresses, URLs, addresses of version 6 and 4, dates, times, paths, hexadecimal numbers,
-- log levels and numbers. In all it counts the number of these groups.
pub learn-Counts :
    (find_iter : PatternType → Bytes → List Group) (whole : Bytes) (u : PatternType)
    → (let gs = taken (uncovered (length whole)) (candidates find_iter whole) in
        Counts (learn find_iter whole) u (occurrences u gs) (length gs))
unfolding learn
learn-Counts find_iter whole u =
    let gs = found_groups find_iter whole pattern_types in
    let (counts, totals) =
      learn_groups-Counts whole (uncovered (length whole)) gs empty_database u in
    subst
      (λ found.
        let claimed = taken (uncovered (length whole)) found in
        Counts (learn find_iter whole) u (occurrences u claimed) (length claimed))
      (found_groups-candidates find_iter whole)
      (unfold learn lookup in omega arith, unfold learn in omega arith)
