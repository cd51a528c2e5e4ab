-- ===== src/Columnar/Matches/Order.antt =====
-- The matches of a text stand in order and do not overlap.
use alice_text.Prelude.{
  ℕ, zero, suc, ◌<◌, ◌≤◌, ◌≡◌, refl, sym, ◌⊎◌, inl, inr, List, [], ◌∷◌, Bool, true, false, length,
  arith, ap, ◌∙◌,
}
use mathlib.Core.Bool.{false≢true}
use mathlib.Core.Option.{some-injective, none-ne-some}
use alice_text.Prelude.{Option-cases, Bool-cases, none, some}
use alice_text.Prelude.{sym}
use alice_text.Columnar.Matches.{any_covered, cover, uncovered, Group, free_group, claim}

-- A free stretch of a covered list was free before.
any_covered-cover :
    (s e a b : ℕ) (cs : List Bool)
    → any_covered s e (cover a b cs) ≡ false
    → any_covered s e cs ≡ false
unfolding any_covered cover
any_covered-cover s e a b [] h = h
any_covered-cover s zero a b (c ∷ cs) h = refl
any_covered-cover s (suc e) a zero (c ∷ cs) h = h
any_covered-cover zero (suc e) zero (suc b) (c ∷ cs) h = absurd (false≢true (sym h))
any_covered-cover zero (suc e) (suc a) (suc b) (false ∷ cs) h = any_covered-cover zero e a b cs h
any_covered-cover zero (suc e) (suc a) (suc b) (true ∷ cs) h = h
any_covered-cover (suc s) (suc e) zero (suc b) (c ∷ cs) h = any_covered-cover s e zero b cs h
any_covered-cover (suc s) (suc e) (suc a) (suc b) (c ∷ cs) h = any_covered-cover s e a b cs h

-- It does not meet the stretch that was covered.
apart_of_free :
    (s e a b : ℕ) (cs : List Bool)
    → any_covered s e (cover a b cs) ≡ false
    → s < e
    → a < b
    → b ≤ length cs
    → (b ≤ s) ⊎ (e ≤ a)
unfolding any_covered cover
apart_of_free s e a b [] h lt lt' le = inl (omega arith)
apart_of_free s zero a b (c ∷ cs) h lt lt' le = inr (omega arith)
apart_of_free s (suc e) a zero (c ∷ cs) h lt lt' le = inl (omega arith)
apart_of_free zero (suc e) zero (suc b) (c ∷ cs) h lt lt' le = absurd (false≢true (sym h))
apart_of_free zero (suc e) (suc a) (suc b) (true ∷ cs) h lt lt' le = absurd (false≢true (sym h))
apart_of_free zero (suc zero) (suc a) (suc b) (false ∷ cs) h lt lt' le = inr (omega arith)
apart_of_free zero (suc (suc e)) (suc a) (suc b) (false ∷ cs) h lt lt' le =
    elim (apart_of_free zero (suc e) a b cs h (omega arith) (omega arith) (omega arith)) [
      | inl l ↦ inl (omega arith)
      | inr r ↦ inr (omega arith)
    ]
apart_of_free (suc s) (suc e) zero (suc zero) (c ∷ cs) h lt lt' le = inl (omega arith)
apart_of_free (suc s) (suc e) zero (suc (suc b)) (c ∷ cs) h lt lt' le =
    elim (apart_of_free s e zero (suc b) cs h (omega arith) (omega arith) (omega arith)) [
      | inl l ↦ inl (omega arith)
      | inr r ↦ inr (omega arith)
    ]
apart_of_free (suc s) (suc e) (suc a) (suc b) (c ∷ cs) h lt lt' le =
    elim (apart_of_free s e a b cs h (omega arith) (omega arith) (omega arith)) [
      | inl l ↦ inl (omega arith)
      | inr r ↦ inr (omega arith)
    ]

length-cover : (a b : ℕ) (cs : List Bool) → length (cover a b cs) ≡ length cs
unfolding cover
length-cover a b [] = refl
length-cover a zero (c ∷ cs) = refl
length-cover zero (suc b) (c ∷ cs) = ap suc (length-cover zero b cs)
length-cover (suc a) (suc b) (c ∷ cs) = ap suc (length-cover a b cs)

pub length-uncovered : (n : ℕ) → length (uncovered n) ≡ n
unfolding uncovered
length-uncovered zero = refl
length-uncovered (suc n) = ap suc (length-uncovered n)

-- What the regular expression promises: a group is a non-empty stretch of the text.
abbrev pub IsInside : ℕ → Group → Type 0
IsInside n g = (g.start < g.end) × (g.end ≤ n)

abbrev pub AllInside : ℕ → List Group → Type 0
AllInside n [] = Unit
AllInside n (g ∷ gs) = IsInside n g × AllInside n gs

abbrev pub CapturesInside : ℕ → List (List Group) → Type 0
CapturesInside n [] = Unit
CapturesInside n (caps ∷ rest) = AllInside n caps × CapturesInside n rest

free_group_lem :
    (covered : List Bool) (gs : List Group) (g : Group) (n : ℕ)
    → AllInside n gs
    → free_group covered gs ≡ some g
    → IsInside n g × (any_covered g.start g.end covered ≡ false)
unfolding free_group
free_group_lem covered [] g n h e = absurd (none-ne-some g e)
free_group_lem covered (k ∷ gs) g n h e = elim (Bool-cases (any_covered k.start k.end covered)) [
  | inl t ↦ free_group_lem covered gs g n h.1 (rw t at e)
  | inr f ↦ let same = some-injective k g (rw f at e) in rw (sym same) (h.0, f)
]

-- Free groups, none of which meets another.
abbrev pub Free : ℕ → List Bool → List Group → Type 0
Free n covered [] = Unit
Free n covered (g ∷ gs) =
    IsInside n g × (any_covered g.start g.end covered ≡ false) × Free n covered gs

abbrev pub Apart : ℕ → ℕ → List Group → Type 0
Apart s e [] = Unit
Apart s e (g ∷ gs) = ((e ≤ g.start) ⊎ (g.end ≤ s)) × Apart s e gs

abbrev pub Disjoint : List Group → Type 0
Disjoint [] = Unit
Disjoint (g ∷ gs) = Apart g.start g.end gs × Disjoint gs

Free-cover :
    (n a b : ℕ) (covered : List Bool) (gs : List Group)
    → a < b
    → b ≤ length covered
    → Free n (cover a b covered) gs
    → Free n covered gs × Apart a b gs
Free-cover n a b covered [] lt le h = (tt, tt)
Free-cover n a b covered (g ∷ gs) lt le h =
    let (free, apart) = Free-cover n a b covered gs lt le h.2 in
    (
      (h.0, any_covered-cover g.start g.end a b covered h.1, free),
      (apart_of_free g.start g.end a b covered h.1 h.0.0 lt le, apart),
    )

pub claim-none :
    (covered : List Bool) (caps : List Group) (rest : List (List Group))
    → free_group covered caps ≡ none
    → claim covered (caps ∷ rest) ≡ claim covered rest
unfolding claim
claim-none covered caps rest e = rw (e, claim) refl

pub claim-some :
    (covered : List Bool) (caps : List Group) (rest : List (List Group)) (g : Group)
    → free_group covered caps ≡ some g
    → claim covered (caps ∷ rest) ≡ g ∷ claim (cover g.start g.end covered) rest
unfolding claim
claim-some covered caps rest g e = rw (e, claim) refl

pub claim_lem :
    (n : ℕ) (covered : List Bool) (caps : List (List Group))
    → CapturesInside n caps
    → length covered ≡ n
    → Free n covered (claim covered caps) × Disjoint (claim covered caps)
unfolding claim
claim_lem n covered [] h l = (tt, tt)
claim_lem n covered (caps ∷ rest) h l = elim (Option-cases (free_group covered caps)) [
  | inl e ↦ rw (claim-none covered caps rest e) (claim_lem n covered rest h.1 l)
  | inr (g, e) ↦
      let (inside, free) = free_group_lem covered caps g n h.0 e in
      let (free', disjoint) =
        claim_lem n (cover g.start g.end covered) rest h.1
          (length-cover g.start g.end covered ∙ l) in
      let (free'', apart) =
        Free-cover n g.start g.end covered (claim (cover g.start g.end covered) rest) inside.0
          (omega arith) free' in
      rw (claim-some covered caps rest g e) ((inside, free, free''), (apart, disjoint))
]
