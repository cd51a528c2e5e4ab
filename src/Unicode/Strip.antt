-- ===== src/Unicode/Strip.antt =====
-- `strip_accents`, and what the normalisations do to ASCII texts.
use alice_text.Prelude.{
  ℕ, ◌≡◌, refl, ap, ◌∙◌, inl, inr, List, [], ◌∷◌, none, true, false, ◌==◌, ==_iff, arith,
  Bool-cases,
}
use alice_text.Unicode.{
  combining_class, decompose_char, decompose, canonical_order, order_loop, unwind, sift, to_nfd,
  try_compose, compose_loop, to_nfc, is_ascii_only, drop_combining, strip_accents,
}
use alice_text.Unicode.Ordering.{All, IsOrdered}
use alice_text.Unicode.Normal.{IsWhole, to_nfd_shape, to_nfd_of_shape, to_nfd-to_nfc}

drop_combining-unwind :
    (done rest : List ℕ)
    → drop_combining (unwind done rest) ≡ unwind (drop_combining done) (drop_combining rest)
unfolding unwind drop_combining
drop_combining-unwind [] rest = refl
drop_combining-unwind (c ∷ done) rest = elim (Bool-cases (combining_class c == 0)) [
  | inl starter ↦ rw (drop_combining-unwind done (c ∷ rest)) (rw starter)
  | inr mark ↦ rw (drop_combining-unwind done (c ∷ rest)) (rw mark)
]

drop_combining-sift :
    (c : ℕ) (done : List ℕ)
    → (combining_class c == 0) ≡ false
    → drop_combining (sift c done) ≡ drop_combining done
unfolding sift drop_combining
drop_combining-sift c [] h = rw h
drop_combining-sift c (a ∷ done) h = ground (arith, drop_combining-sift c done)

drop_combining-order_loop :
    (rest done : List ℕ)
    → drop_combining (order_loop done rest) ≡ unwind (drop_combining done) (drop_combining rest)
unfolding order_loop drop_combining
drop_combining-order_loop [] done = drop_combining-unwind done []
drop_combining-order_loop (c ∷ rest) done = elim (Bool-cases (combining_class c == 0)) [
  | inl starter ↦
      rw starter (drop_combining-order_loop rest (c ∷ done) ∙ rw starter (unfold unwind in refl))
  | inr mark ↦ rw mark (
      drop_combining-order_loop rest (sift c done)
      ∙ ap (λ d. unwind d (drop_combining rest)) (drop_combining-sift c done mark))
]

drop_combining-canonical_order :
    (s : List ℕ) → drop_combining (canonical_order s) ≡ drop_combining s
unfolding canonical_order drop_combining unwind
drop_combining-canonical_order [] = refl
drop_combining-canonical_order (c ∷ cs) = ground (arith, drop_combining-order_loop cs (c ∷ []))

-- Stripping keeps the base characters of the decomposed text in their order: the canonical ordering
-- of the marks plays no part.
pub strip_accents_lem : (s : List ℕ) → strip_accents s ≡ drop_combining (decompose s)
unfolding strip_accents to_nfd
strip_accents_lem s = drop_combining-canonical_order (decompose s)

abbrev pub IsPlain : ℕ → Type 0
IsPlain c = IsWhole c × (combining_class c ≡ 0)

drop_combining-All : (s : List ℕ) → All IsWhole s → All IsPlain (drop_combining s)
unfolding drop_combining
drop_combining-All [] h = tt
drop_combining-All (c ∷ cs) h = elim (Bool-cases (combining_class c == 0)) [
  | inl starter ↦ rw starter ((h.0, (==_iff _ 0).0 starter), drop_combining-All cs h.1)
  | inr mark ↦ rw mark (drop_combining-All cs h.1)
]

-- No character of a stripped text decomposes, and none is a combining character.
pub strip_accents-IsPlain : (s : List ℕ) → All IsPlain (strip_accents s)
unfolding strip_accents
strip_accents-IsPlain s = drop_combining-All (to_nfd s) (to_nfd_shape s).0

plain-IsOrdered : (s : List ℕ) → All IsPlain s → IsOrdered s
plain-IsOrdered [] h = tt
plain-IsOrdered (a ∷ []) h = tt
plain-IsOrdered (a ∷ b ∷ s) h = (inl h.1.0.1, plain-IsOrdered (b ∷ s) h.1)

plain-IsWhole : (s : List ℕ) → All IsPlain s → All IsWhole s
plain-IsWhole [] h = tt
plain-IsWhole (a ∷ s) h = (h.0.0, plain-IsWhole s h.1)

drop_combining_plain : (s : List ℕ) → All IsPlain s → drop_combining s ≡ s
unfolding drop_combining
drop_combining_plain [] h = refl
drop_combining_plain (c ∷ cs) h =
    rw ((==_iff _ 0).1 h.0.1) (ap (◌∷◌ c) (drop_combining_plain cs h.1))

compose_loop_plain : (s : List ℕ) → All IsPlain s → compose_loop s ≡ s
unfolding compose_loop
compose_loop_plain [] h = refl
compose_loop_plain (a ∷ []) h = refl
compose_loop_plain (a ∷ b ∷ s) h =
    rw (alone a b h.1.0.1, compose_loop) (ap (◌∷◌ a) (compose_loop_plain (b ∷ s) h.1))
  where
    alone : (a b : ℕ) → combining_class b ≡ 0 → try_compose a b ≡ none
    alone a b e = unfold try_compose in ground arith

-- All three transformations leave a plain text as it is.
pub plain_unchanged :
    (s : List ℕ) → All IsPlain s → (to_nfd s ≡ s) × (to_nfc s ≡ s) × (strip_accents s ≡ s)
unfolding to_nfc strip_accents
plain_unchanged s h =
    let same = to_nfd_of_shape s (plain-IsWhole s h) (plain-IsOrdered s h) in
    (
      same,
      ap compose_loop same ∙ compose_loop_plain s h,
      ap drop_combining same ∙ drop_combining_plain s h,
    )

ascii-IsPlain : (s : List ℕ) → is_ascii_only s ≡ true → All IsPlain s
unfolding is_ascii_only
ascii-IsPlain [] h = tt
ascii-IsPlain (c ∷ cs) h = (
  (unfold decompose_char in ground arith, unfold combining_class in ground arith),
  ascii-IsPlain cs (ground arith),
)

-- A text that `is_ascii_only` accepts needs no normalisation.
pub ascii_unchanged :
    (s : List ℕ) → is_ascii_only s ≡ true → (to_nfd s ≡ s) × (to_nfc s ≡ s) × (strip_accents s ≡ s)
ascii_unchanged s h = plain_unchanged s (ascii-IsPlain s h)

-- Stripping twice is stripping once, and normalising first makes no difference.
pub strip_accents_stable :
    (s : List ℕ)
    → (strip_accents (strip_accents s) ≡ strip_accents s)
      × (strip_accents (to_nfc s) ≡ strip_accents s)
unfolding strip_accents
strip_accents_stable s = (
  (plain_unchanged (strip_accents s) (strip_accents-IsPlain s)).2,
  ap drop_combining (to_nfd-to_nfc s),
)
