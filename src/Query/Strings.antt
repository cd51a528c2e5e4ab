-- ===== src/Query/Strings.antt =====
-- What the operators on strings say.
use alice_text.Prelude.{
  ◌<◌, [], ◌∷◌, ◌++◌, Bool, true, false, inl, inr, ◌⊎◌, ◌≡◌, ◌↔◌, arith, same_list→eq,
  same_list_refl, Bool-cases, ◌||◌, refl, same_list, ap, ◌≢◌, not, ◌==◌, ==_iff,
}
use alice_text.Bytes.{Bytes}
use alice_text.Query.{
  Op, test_string, op_eq, op_ne, op_lt, op_le, op_gt, op_ge, op_contains, op_starts_with,
  op_ends_with,
}
use alice_text.Query.Text.{lt_bytes, starts_with, ends_with, contains}

-- The order of strings: the first byte that differs decides, and a part comes before the whole.
abbrev pub Precedes : Bytes → Bytes → Type 0
Precedes [] [] = ⊥
Precedes [] (b ∷ t) = Unit
Precedes (a ∷ s) [] = ⊥
Precedes (a ∷ s) (b ∷ t) = (a < b) ⊎ ((a ≡ b) × Precedes s t)

lt_bytes_iff : (s t : Bytes) → (lt_bytes s t ≡ true) ↔ Precedes s t
unfolding lt_bytes
lt_bytes_iff [] [] = ground arith
lt_bytes_iff [] (b ∷ t) = ground arith
lt_bytes_iff (a ∷ s) [] = ground arith
lt_bytes_iff (a ∷ s) (b ∷ t) = ground (arith, lt_bytes_iff s t)

-- The string begins with the other, ends with it, or has it somewhere.
abbrev pub Begins : Bytes → Bytes → Type 0
Begins s t = (rest : Bytes) × (s ≡ t ++ rest)

abbrev pub Ends : Bytes → Bytes → Type 0
Ends s t = (before : Bytes) × (s ≡ before ++ t)

abbrev pub Has : Bytes → Bytes → Type 0
Has s t = (before : Bytes) × (after : Bytes) × (s ≡ before ++ (t ++ after))

pub starts_with-Begins : (s t : Bytes) → starts_with s t ≡ true → Begins s t
unfolding starts_with
starts_with-Begins s [] h = (s, refl)
starts_with-Begins [] (b ∷ t) h = cc
starts_with-Begins (a ∷ s) (b ∷ t) h = elim (Bool-cases (a == b)) [
  | inl same ↦
      let (rest, e) = starts_with-Begins s t (rw same at h) in
      (rest, rw ((==_iff a b).0 same) (ap (◌∷◌ b) e))
  | inr other ↦ cc
]

Begins-starts_with : (t rest : Bytes) → starts_with (t ++ rest) t ≡ true
unfolding starts_with
Begins-starts_with [] [] = refl
Begins-starts_with [] (a ∷ rest) = refl
Begins-starts_with (b ∷ t) rest = ground (arith, Begins-starts_with t rest)

or_true : (b : Bool) → (b || true) ≡ true
or_true true = refl
or_true false = refl

ends_with-Ends : (s t : Bytes) → ends_with s t ≡ true → Ends s t
unfolding ends_with
ends_with-Ends [] t h = ([], same_list→eq [] t h)
ends_with-Ends (a ∷ s) t h = elim (Bool-cases (same_list (a ∷ s) t)) [
  | inl e ↦ ([], same_list→eq (a ∷ s) t e)
  | inr e ↦ let (before, q) = ends_with-Ends s t (rw e at h) in (a ∷ before, ap (◌∷◌ a) q)
]

Ends-ends_with : (before t : Bytes) → ends_with (before ++ t) t ≡ true
unfolding ends_with
Ends-ends_with [] [] = same_list_refl []
Ends-ends_with [] (b ∷ t) = rw (same_list_refl (b ∷ t)) refl
Ends-ends_with (a ∷ before) t =
    rw (Ends-ends_with before t) (or_true (same_list (a ∷ before ++ t) t))

contains-Has : (s t : Bytes) → contains s t ≡ true → Has s t
unfolding contains
contains-Has [] t h = let (rest, q) = starts_with-Begins [] t h in ([], rest, q)
contains-Has (a ∷ s) t h = elim (Bool-cases (starts_with (a ∷ s) t)) [
  | inl e ↦ let (rest, q) = starts_with-Begins (a ∷ s) t e in ([], rest, q)
  | inr e ↦
      let (before, after, q) = contains-Has s t (rw e at h) in (a ∷ before, after, ap (◌∷◌ a) q)
]

contains_here : (s t : Bytes) → starts_with s t ≡ true → contains s t ≡ true
unfolding contains
contains_here [] t h = h
contains_here (a ∷ s) t h = rw h refl

Has-contains : (before t after : Bytes) → contains (before ++ (t ++ after)) t ≡ true
unfolding contains
Has-contains [] t after = contains_here (t ++ after) t (Begins-starts_with t after)
Has-contains (a ∷ before) t after =
    rw (Has-contains before t after) (or_true (starts_with (a ∷ before ++ (t ++ after)) t))

-- What an operator says of two strings.
abbrev pub Relates : Op → Bytes → Bytes → Type 0
Relates op_eq v target = v ≡ target
Relates op_ne v target = v ≢ target
Relates op_lt v target = Precedes v target
Relates op_le v target = ¬ (Precedes target v)
Relates op_gt v target = Precedes target v
Relates op_ge v target = ¬ (Precedes v target)
Relates op_contains v target = Has v target
Relates op_starts_with v target = Begins v target
Relates op_ends_with v target = Ends v target

not_iff : (b : Bool) {P : Type 0} → (b ≡ true) ↔ P → (not b ≡ true) ↔ (¬ P)
not_iff true h = (λ e. cc, λ n. absurd (n (h.0 refl)))
not_iff false h = (λ e p. cc (h.1 p), λ n. refl)

same_list_iff : (s t : Bytes) → (same_list s t ≡ true) ↔ (s ≡ t)
same_list_iff s t = (same_list→eq s t, λ e. rw e (same_list_refl t))

pub test_string_iff :
    (op : Op) (v target : Bytes) → (test_string op v target ≡ true) ↔ Relates op v target
unfolding test_string
test_string_iff op_eq v target = same_list_iff v target
test_string_iff op_ne v target = not_iff (same_list v target) (same_list_iff v target)
test_string_iff op_lt v target = lt_bytes_iff v target
test_string_iff op_le v target = not_iff (lt_bytes target v) (lt_bytes_iff target v)
test_string_iff op_gt v target = lt_bytes_iff target v
test_string_iff op_ge v target = not_iff (lt_bytes v target) (lt_bytes_iff v target)
test_string_iff op_contains v target =
    (contains-Has v target, λ (before, after, e). rw e (Has-contains before target after))
test_string_iff op_starts_with v target =
    (starts_with-Begins v target, λ (rest, e). rw e (Begins-starts_with target rest))
test_string_iff op_ends_with v target =
    (ends_with-Ends v target, λ (before, e). rw e (Ends-ends_with before target))
