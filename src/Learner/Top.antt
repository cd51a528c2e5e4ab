-- ===== src/Learner/Top.antt =====
-- `PatternDatabase::top_patterns`, and the conversions to JSON. The order in which the map gives its
-- patterns is that of the list.
use Prim.Native.Nat.{min}
use alice_text.Prelude.{
  zero, suc, length-take, ℕ, ◌≤◌, List, [], ◌∷◌, Option, leb, arith, take, Bool-cases,
  if◌then◌else◌, inl, leb→le, inr, leb→gt, ◌≡◌, ap, ◌∙◌, refl,
}
use alice_text.Bytes.{Bytes}
use alice_text.Error.{Result, json_error, or_error}
use alice_text.Columnar.Payload.{PatternType}
use alice_text.Learner.{LearnedPattern, PatternDatabase, length}

-- `sort_by(|a, b| b.1.count.cmp(&a.1.count))`, which is stable.
unfoldable pub insert_pattern :
    PatternType × LearnedPattern
    → List (PatternType × LearnedPattern)
    → List (PatternType × LearnedPattern)
insert_pattern p [] = p ∷ []
insert_pattern p (q ∷ qs) =
    let rest = insert_pattern p qs in if leb q.1.count p.1.count then p ∷ q ∷ qs else q ∷ rest

unfoldable pub sort_patterns :
    List (PatternType × LearnedPattern) → List (PatternType × LearnedPattern)
unfolding insert_pattern
sort_patterns [] = []
sort_patterns (p ∷ ps) = insert_pattern p (sort_patterns ps)

unfoldable pub top_patterns : PatternDatabase → ℕ → List (PatternType × LearnedPattern)
unfolding sort_patterns
top_patterns db n = take n (sort_patterns db.patterns)

-- `serde_json`; a failure is `none`.
pub record Json : Type 0 where
  pub to_vec : PatternDatabase → Option Bytes
  pub from_slice : Bytes → Option PatternDatabase

unfoldable pub to_bytes : Json → PatternDatabase → Result Bytes
to_bytes json db = or_error (json.to_vec db) json_error

unfoldable pub from_bytes : Json → Bytes → Result PatternDatabase
from_bytes json bytes = or_error (json.from_slice bytes) json_error

-- The counts descend, from the bound on.
abbrev pub IsDescending : ℕ → List (PatternType × LearnedPattern) → Type 0
IsDescending bound [] = Unit
IsDescending bound (p ∷ ps) = (p.1.count ≤ bound) × IsDescending p.1.count ps

insert_pattern-IsDescending :
    (p : PatternType × LearnedPattern) (ps : List (PatternType × LearnedPattern)) {bound : ℕ}
    → p.1.count ≤ bound
    → IsDescending bound ps
    → IsDescending bound (insert_pattern p ps)
unfolding insert_pattern
insert_pattern-IsDescending p [] l h = (l, tt)
insert_pattern-IsDescending p (q ∷ qs) l h = elim (Bool-cases (leb q.1.count p.1.count)) [
  | inl e ↦ rw e (l, (leb→le q.1.count p.1.count e, h.1))
  | inr e ↦
      rw e (h.0, insert_pattern-IsDescending p qs (omega (arith, leb→gt q.1.count p.1.count e)) h.1)
]

-- The counts are at most the bound.
abbrev pub AreBelow : ℕ → List (PatternType × LearnedPattern) → Type 0
AreBelow bound [] = Unit
AreBelow bound (p ∷ ps) = (p.1.count ≤ bound) × AreBelow bound ps

sort_patterns-IsDescending :
    (bound : ℕ) (ps : List (PatternType × LearnedPattern))
    → AreBelow bound ps
    → IsDescending bound (sort_patterns ps)
unfolding sort_patterns
sort_patterns-IsDescending bound [] h = tt
sort_patterns-IsDescending bound (p ∷ ps) h =
    insert_pattern-IsDescending p (sort_patterns ps) h.0 (sort_patterns-IsDescending bound ps h.1)

length-insert_pattern :
    (p : PatternType × LearnedPattern) (ps : List (PatternType × LearnedPattern))
    → length (insert_pattern p ps) ≡ suc (length ps)
unfolding insert_pattern
length-insert_pattern p [] = refl
length-insert_pattern p (q ∷ qs) = elim (Bool-cases (leb q.1.count p.1.count)) [
  | inl e ↦ rw e refl
  | inr e ↦ rw e (ap suc (length-insert_pattern p qs))
]

length-sort_patterns :
    (ps : List (PatternType × LearnedPattern)) → length (sort_patterns ps) ≡ length ps
unfolding sort_patterns
length-sort_patterns [] = refl
length-sort_patterns (p ∷ ps) =
    length-insert_pattern p (sort_patterns ps) ∙ ap suc (length-sort_patterns ps)

take-IsDescending :
    (n : ℕ) (bound : ℕ) (ps : List (PatternType × LearnedPattern))
    → IsDescending bound ps
    → IsDescending bound (take n ps)
take-IsDescending zero bound ps h = tt
take-IsDescending (suc n) bound [] h = tt
take-IsDescending (suc n) bound (p ∷ ps) h = (h.0, take-IsDescending n p.1.count ps h.1)

-- As many patterns as were asked for, or all there are, with descending counts.
pub top_patterns-IsDescending :
    (db : PatternDatabase) (n bound : ℕ)
    → AreBelow bound db.patterns
    → IsDescending bound (top_patterns db n)
      × (length (top_patterns db n) ≡ min n (length db.patterns))
unfolding top_patterns
top_patterns-IsDescending db n bound h = (
  take-IsDescending n bound (sort_patterns db.patterns)
      (sort_patterns-IsDescending bound db.patterns h),
  length-take n (sort_patterns db.patterns) ∙ ap (min n) (length-sort_patterns db.patterns),
)
