-- ===== src/Query/Scan.antt =====
-- A scan gives the indices of the values that pass its test, each once and in their order.
use alice_text.Prelude.{
  ℕ, zero, suc, ◌+◌, ◌≤◌, List, [], ◌∷◌, some, Bool, ◌≡◌, arith, get_elem?, Bool-cases, ◌↔◌, ◌⊎◌,
  true, inl, inr, ap, refl, ◌∙◌,
}
use mathlib.Core.Option.{some-injective}
use mathlib.Core.Path.{subst}
use alice_text.Query.{scan_from}

-- The index is in the list.
abbrev pub Occurs : ℕ → List ℕ → Type 0
Occurs k [] = ⊥
Occurs k (i ∷ is) = (k ≡ i) ⊎ Occurs k is

-- The list ascends, each number being at least the bound.
abbrev pub IsAscending : ℕ → List ℕ → Type 0
IsAscending bound [] = Unit
IsAscending bound (i ∷ is) = (bound ≤ i) × IsAscending (suc i) is

IsAscending-weaken : {a b : ℕ} (is : List ℕ) → a ≤ b → IsAscending b is → IsAscending a is
IsAscending-weaken [] l h = tt
IsAscending-weaken (i ∷ is) l h = (omega (arith, h.0), h.1)

module _ {A : Type 0} (test : A → Bool) where
  -- The value at the index passes the test.
  abbrev pub Passes : List A → ℕ → Type 0
  Passes values k = (v : A) × (get_elem? values k ≡ some v) × (test v ≡ true)

  scan_from-IsAscending : (i : ℕ) (values : List A) → IsAscending i (scan_from i test values)
  unfolding scan_from
  scan_from-IsAscending i [] = tt
  scan_from-IsAscending i (v ∷ vs) =
      let rest = scan_from-IsAscending (suc i) vs in
      elim (Bool-cases (test v)) [
        | inl e ↦ rw e (omega arith, rest)
        | inr e ↦ rw e (IsAscending-weaken (scan_from (suc i) test vs) (omega arith) rest)
      ]

  scan_from_sound :
      (i : ℕ) (values : List A) (k : ℕ)
      → Occurs k (scan_from i test values)
      → (j : ℕ) × (k ≡ i + j) × Passes values j
  unfolding scan_from
  scan_from_sound i [] k h = absurd h
  scan_from_sound i (v ∷ vs) k h = elim (Bool-cases (test v)) [
    | inl e ↦ elim (rw e at h) [
      | inl here ↦ (0, omega arith, (v, refl, e))
      | inr there ↦ let (j, q, r) = scan_from_sound (suc i) vs k there in (suc j, omega arith, r)
    ]
    | inr e ↦ let (j, q, r) = scan_from_sound (suc i) vs k (rw e at h) in (suc j, omega arith, r)
  ]

  scan_from_complete :
      (i : ℕ) (values : List A) (j k : ℕ)
      → k ≡ i + j
      → Passes values j
      → Occurs k (scan_from i test values)
  unfolding scan_from
  scan_from_complete i [] j k q h = cc
  scan_from_complete i (v ∷ vs) zero k q (w, e, t) =
      rw (ap test (some-injective v w e) ∙ t) (inl (omega arith))
  scan_from_complete i (v ∷ vs) (suc j) k q h =
      let rest = scan_from_complete (suc i) vs j k (omega arith) h in
      elim (Bool-cases (test v)) [ inl e ↦ rw e (inr rest) | inr e ↦ rw e rest ]

  -- The indices of a scan ascend, and an index is among them exactly when there is a value at it
  -- that passes the test.
  pub scan_from-exact :
      (values : List A)
      → IsAscending 0 (scan_from 0 test values)
        × ((k : ℕ) → Occurs k (scan_from 0 test values) ↔ Passes values k)
  scan_from-exact values = (
    scan_from-IsAscending 0 values,
    λ k. (
      λ h. let (j, q, r) = scan_from_sound 0 values k h in subst (Passes values) (omega arith) r,
      λ h. scan_from_complete 0 values k k (omega arith) h,
    ),
  )
