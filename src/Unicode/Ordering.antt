-- ===== src/Unicode/Ordering.antt =====
-- `canonical_order`: what it returns is a rearrangement in canonical order, and a text in canonical
-- order comes back unchanged.
use alice_text.Prelude.{
  ℕ, ◌≤◌, ◌≡◌, refl, ◌⊎◌, inl, inr, List, [], ◌∷◌, ◌++◌, false, ltb, ◌==◌, arith, Bool-cases,
  ==_iff,
}
use mathlib.Core.List.{Perm, perm_middle}
use mathlib.Core.List.Perm
use alice_text.Unicode.{combining_class, unwind, sift, order_loop, canonical_order}

-- `b` may follow `a`: it is a starter, or its class is not less.
abbrev pub Follows : ℕ → ℕ → Type 0
Follows a b = (combining_class b ≡ 0) ⊎ (combining_class a ≤ combining_class b)

abbrev pub IsOrdered : List ℕ → Type 0
IsOrdered [] = Unit
IsOrdered (a ∷ []) = Unit
IsOrdered (a ∷ b ∷ cs) = Follows a b × IsOrdered (b ∷ cs)

-- The same of a text that stands reversed.
abbrev IsOrderedBack : List ℕ → Type 0
IsOrderedBack [] = Unit
IsOrderedBack (b ∷ []) = Unit
IsOrderedBack (b ∷ a ∷ cs) = Follows a b × IsOrderedBack (a ∷ cs)

-- The text in front may be followed by the rest.
abbrev Joins : List ℕ → List ℕ → Type 0
Joins [] rest = Unit
Joins (a ∷ done) [] = Unit
Joins (a ∷ done) (b ∷ rest) = Follows a b

IsOrdered-cons :
    (c : ℕ) (rest : List ℕ) → IsOrdered rest → Joins (c ∷ []) rest → IsOrdered (c ∷ rest)
IsOrdered-cons c [] h j = tt
IsOrdered-cons c (b ∷ rest) h j = (j, h)

unwind-IsOrdered :
    (done rest : List ℕ)
    → IsOrderedBack done
    → IsOrdered rest
    → Joins done rest
    → IsOrdered (unwind done rest)
unfolding unwind
unwind-IsOrdered [] rest hd hr j = hr
unwind-IsOrdered (c ∷ []) rest hd hr j = IsOrdered-cons c rest hr j
unwind-IsOrdered (c ∷ a ∷ done) rest hd hr j =
    unwind-IsOrdered (a ∷ done) (c ∷ rest) hd.1 (IsOrdered-cons c rest hr j) hd.0

sift-IsOrderedBack_under :
    (b c : ℕ) (done : List ℕ)
    → IsOrderedBack (b ∷ done)
    → Follows c b
    → IsOrderedBack (b ∷ sift c done)
unfolding sift
sift-IsOrderedBack_under b c [] h f = (f, tt)
sift-IsOrderedBack_under b c (a ∷ done) (g, h) f =
    elim (Bool-cases (ltb (combining_class c) (combining_class a))) [
      | inl less ↦ rw less (g, sift-IsOrderedBack_under a c done h (inr (ground arith)))
      | inr more ↦ rw more (f, (inr (ground arith), h))
    ]

sift-IsOrderedBack : (c : ℕ) (done : List ℕ) → IsOrderedBack done → IsOrderedBack (sift c done)
unfolding sift
sift-IsOrderedBack c [] h = tt
sift-IsOrderedBack c (a ∷ done) h =
    elim (Bool-cases (ltb (combining_class c) (combining_class a))) [
      | inl less ↦ rw less (sift-IsOrderedBack_under a c done h (inr (ground arith)))
      | inr more ↦ rw more (inr (ground arith), h)
    ]

starter-IsOrderedBack :
    (c : ℕ) (done : List ℕ) → combining_class c ≡ 0 → IsOrderedBack done → IsOrderedBack (c ∷ done)
starter-IsOrderedBack c [] e h = tt
starter-IsOrderedBack c (a ∷ done) e h = (inl e, h)

order_loop-IsOrdered : (rest done : List ℕ) → IsOrderedBack done → IsOrdered (order_loop done rest)
unfolding order_loop
order_loop-IsOrdered [] done h = unwind-IsOrdered done [] h tt (joins done)
  where
    joins : (done : List ℕ) → Joins done []
    joins [] = tt
    joins (a ∷ done) = tt
order_loop-IsOrdered (c ∷ rest) done h = elim (Bool-cases (combining_class c == 0)) [
  | inl starter ↦ rw starter (
      order_loop-IsOrdered rest (c ∷ done)
        (starter-IsOrderedBack c done ((==_iff _ 0).0 starter) h))
  | inr mark ↦ rw mark (order_loop-IsOrdered rest (sift c done) (sift-IsOrderedBack c done h))
]

pub canonical_order-IsOrdered : (s : List ℕ) → IsOrdered (canonical_order s)
unfolding canonical_order
canonical_order-IsOrdered [] = tt
canonical_order-IsOrdered (c ∷ cs) = order_loop-IsOrdered cs (c ∷ []) tt

sift_in_place :
    (c : ℕ) (done rest : List ℕ)
    → (combining_class c == 0) ≡ false
    → Joins done (c ∷ rest)
    → sift c done ≡ c ∷ done
unfolding sift
sift_in_place c [] rest e j = refl
sift_in_place c (a ∷ done) rest e j = ground arith

tail-IsOrdered : (c : ℕ) (rest : List ℕ) → IsOrdered (c ∷ rest) → IsOrdered rest
tail-IsOrdered c [] h = tt
tail-IsOrdered c (b ∷ rest) h = h.1

head-Joins : (c : ℕ) (rest done : List ℕ) → IsOrdered (c ∷ rest) → Joins (c ∷ done) rest
head-Joins c [] done h = tt
head-Joins c (b ∷ rest) done h = h.0

order_loop_of_IsOrdered :
    (rest done : List ℕ)
    → IsOrdered rest
    → Joins done rest
    → order_loop done rest ≡ unwind done rest
unfolding order_loop unwind
order_loop_of_IsOrdered [] done h j = refl
order_loop_of_IsOrdered (c ∷ rest) done h j =
    let same =
      order_loop_of_IsOrdered rest (c ∷ done) (tail-IsOrdered c rest h)
        (head-Joins c rest done h) in
    elim (Bool-cases (combining_class c == 0)) [
      | inl starter ↦ rw starter same
      | inr mark ↦ rw (mark, sift_in_place c done rest mark j) same
    ]

pub canonical_order_of_IsOrdered : (s : List ℕ) → IsOrdered s → canonical_order s ≡ s
unfolding canonical_order unwind
canonical_order_of_IsOrdered [] h = refl
canonical_order_of_IsOrdered (c ∷ cs) h =
    order_loop_of_IsOrdered cs (c ∷ []) (tail-IsOrdered c cs h) (head-Joins c cs [] h)

-- A property of every character is kept.
module _ (P : ℕ → Type 0) where
  abbrev pub All : List ℕ → Type 0
  All [] = Unit
  All (c ∷ cs) = P c × All cs

  unwind-All : (done rest : List ℕ) → All done → All rest → All (unwind done rest)
  unfolding unwind
  unwind-All [] rest hd hr = hr
  unwind-All (c ∷ done) rest hd hr = unwind-All done (c ∷ rest) hd.1 (hd.0, hr)

  sift-All : (c : ℕ) (done : List ℕ) → P c → All done → All (sift c done)
  unfolding sift
  sift-All c [] hc hd = (hc, tt)
  sift-All c (a ∷ done) hc hd = elim (Bool-cases (ltb (combining_class c) (combining_class a))) [
    | inl less ↦ rw less (hd.0, sift-All c done hc hd.1)
    | inr more ↦ rw more (hc, hd)
  ]

  order_loop-All : (rest done : List ℕ) → All done → All rest → All (order_loop done rest)
  unfolding order_loop
  order_loop-All [] done hd hr = unwind-All done [] hd tt
  order_loop-All (c ∷ rest) done hd hr = elim (Bool-cases (combining_class c == 0)) [
    | inl starter ↦ rw starter (order_loop-All rest (c ∷ done) (hr.0, hd) hr.1)
    | inr mark ↦ rw mark (order_loop-All rest (sift c done) (sift-All c done hr.0 hd) hr.1)
  ]

  pub canonical_order-All : (s : List ℕ) → All s → All (canonical_order s)
  unfolding canonical_order
  canonical_order-All [] h = tt
  canonical_order-All (c ∷ cs) h = order_loop-All cs (c ∷ []) (h.0, tt) h.1

unwind-perm : (done rest : List ℕ) → Perm (unwind done rest) (done ++ rest)
unfolding unwind
unwind-perm [] rest = Perm.refl rest
unwind-perm (c ∷ done) rest = Perm.trans (unwind-perm done (c ∷ rest)) (perm_middle done rest)

sift-perm : (c : ℕ) (done : List ℕ) → Perm (sift c done) (c ∷ done)
unfolding sift
sift-perm c [] = Perm.refl _
sift-perm c (a ∷ done) = elim (Bool-cases (ltb (combining_class c) (combining_class a))) [
  | inl less ↦ rw less (Perm.trans (Perm.cons a (sift-perm c done)) (Perm.swap c a done))
  | inr more ↦ rw more (Perm.refl _)
]

order_loop-perm : (rest done : List ℕ) → Perm (order_loop done rest) (done ++ rest)
unfolding order_loop
order_loop-perm [] done = unwind-perm done []
order_loop-perm (c ∷ rest) done = elim (Bool-cases (combining_class c == 0)) [
  | inl starter ↦
      rw starter (Perm.trans (order_loop-perm rest (c ∷ done)) (Perm.symm (perm_middle done rest)))
  | inr mark ↦ rw mark (
      Perm.trans (order_loop-perm rest (sift c done)) (
        Perm.trans (Perm.append_right rest (sift-perm c done)) (Perm.symm (perm_middle done rest))))
]

-- `canonical_order` loses no character and adds none.
canonical_order-perm : (s : List ℕ) → Perm (canonical_order s) s
unfolding canonical_order
canonical_order-perm [] = Perm.refl []
canonical_order-perm (c ∷ cs) = order_loop-perm cs (c ∷ [])
