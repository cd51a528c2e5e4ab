-- ===== src/Unicode/Normal.antt =====
-- The normal forms: `to_nfd`, `to_nfc`, `is_normalized` and `strip_accents`.
use alice_text.Prelude.{
  ℕ, ◌≡◌, refl, sym, ap, ◌∙◌, inl, inr, ◌↔◌, List, [], ◌∷◌, Option, none, some, true, arith,
  Option-cases, same_list_iff,
}
use alice_text.Unicode.{
  NormForm, nfd, nfc, decompose_char, decompose, canonical_order, to_nfd, try_compose, compose_loop,
  to_nfc, is_normalized, pushed,
}
use alice_text.Unicode.Facts.{IsEntry, decompose_char-IsEntry, compose_pair-IsEntry}
use alice_text.Unicode.Ordering.{
  All, IsOrdered, canonical_order-IsOrdered, canonical_order_of_IsOrdered, canonical_order-All,
}

abbrev pub IsWhole : ℕ → Type 0
IsWhole c = decompose_char c ≡ none

pushed-IsWhole :
    (c : ℕ) (rest : List ℕ) (o : Option (ℕ × ℕ))
    → decompose_char c ≡ o
    → All IsWhole rest
    → All IsWhole (pushed o c rest)
unfolding pushed
pushed-IsWhole c rest none e h = (e, h)
pushed-IsWhole c rest (some (b, m)) e h =
    let parts = decompose_char-IsEntry c b m e in (parts.base_whole, (parts.mark_whole, h))

decompose-IsWhole : (s : List ℕ) → All IsWhole (decompose s)
unfolding decompose
decompose-IsWhole [] = tt
decompose-IsWhole (c ∷ cs) =
    pushed-IsWhole c (decompose cs) (decompose_char c) refl (decompose-IsWhole cs)

decompose_of_whole : (s : List ℕ) → All IsWhole s → decompose s ≡ s
unfolding decompose pushed
decompose_of_whole [] h = refl
decompose_of_whole (c ∷ cs) h = rw (h.0, decompose_of_whole cs h.1)

-- The result of `to_nfd` holds no character that decomposes, and its combining characters stand in
-- canonical order.
pub to_nfd_shape : (s : List ℕ) → All IsWhole (to_nfd s) × IsOrdered (to_nfd s)
unfolding to_nfd
to_nfd_shape s = (
  canonical_order-All IsWhole (decompose s) (decompose-IsWhole s),
  canonical_order-IsOrdered (decompose s),
)

-- A text of that shape is its own decomposition.
pub to_nfd_of_shape : (s : List ℕ) → All IsWhole s → IsOrdered s → to_nfd s ≡ s
unfolding to_nfd
to_nfd_of_shape s whole ordered =
    ap canonical_order (decompose_of_whole s whole) ∙ canonical_order_of_IsOrdered s ordered

-- A composition that is found decomposes into the two characters.
try_compose-IsEntry : (a b c : ℕ) → try_compose a b ≡ some c → IsEntry c a b
unfolding try_compose
try_compose-IsEntry a b c e = compose_pair-IsEntry a b c (ground arith)

decompose-compose_loop : (s : List ℕ) → All IsWhole s → decompose (compose_loop s) ≡ s
unfolding decompose compose_loop pushed
decompose-compose_loop [] h = refl
decompose-compose_loop (a ∷ []) h = rw (h.0)
decompose-compose_loop (a ∷ b ∷ rest) h = elim (Option-cases (try_compose a b)) [
  | inl apart ↦ rw (apart, compose_loop, h.0) (ap (◌∷◌ a) (decompose-compose_loop (b ∷ rest) h.1))
  | inr (c, joined) ↦
      rw (joined, compose_loop, (try_compose-IsEntry a b c joined).decomposes)
        (ap (λ r. a ∷ b ∷ r) (decompose-compose_loop rest h.1.1))
]

-- Composing does not change the decomposition of a text.
pub to_nfd-to_nfc : (s : List ℕ) → to_nfd (to_nfc s) ≡ to_nfd s
unfolding to_nfd to_nfc
to_nfd-to_nfc s =
    ap canonical_order (decompose-compose_loop (to_nfd s) (to_nfd_shape s).0)
    ∙ canonical_order_of_IsOrdered (to_nfd s) (to_nfd_shape s).1

-- `to_nfd` and `to_nfc` change nothing that they have made, and composing after either is the same.
pub to_nfd-to_nfd : (s : List ℕ) → to_nfd (to_nfd s) ≡ to_nfd s
to_nfd-to_nfd s = to_nfd_of_shape (to_nfd s) (to_nfd_shape s).0 (to_nfd_shape s).1

pub to_nfc-to_nfc : (s : List ℕ) → to_nfc (to_nfc s) ≡ to_nfc s
unfolding to_nfc
to_nfc-to_nfc s = ap compose_loop (to_nfd-to_nfc s)

pub to_nfc-to_nfd : (s : List ℕ) → to_nfc (to_nfd s) ≡ to_nfc s
unfolding to_nfc
to_nfc-to_nfd s = ap compose_loop (to_nfd-to_nfd s)

-- Two texts have the same composed form exactly when they have the same decomposed form.
pub same_normal_forms : (s t : List ℕ) → (to_nfc s ≡ to_nfc t) ↔ (to_nfd s ≡ to_nfd t)
same_normal_forms s t = (
  (λ e. sym (to_nfd-to_nfc s) ∙ ap to_nfd e ∙ to_nfd-to_nfc t),
  (λ e. sym (to_nfc-to_nfd s) ∙ ap to_nfc e ∙ to_nfc-to_nfd t),
)

abbrev pub normalize : NormForm → List ℕ → List ℕ
normalize nfd = to_nfd
normalize nfc = to_nfc

-- `is_normalized` accepts exactly the results of the normalisation to that form.
pub is_normalized_iff :
    (s : List ℕ) (form : NormForm)
    → (is_normalized s form ≡ true) ↔ ((t : List ℕ) × (s ≡ normalize form t))
unfolding is_normalized
is_normalized_iff s nfd = (
  (λ h. (s, (same_list_iff s (to_nfd s)).0 h)),
  (λ p. (same_list_iff s (to_nfd s)).1 (rw p.1 (sym (to_nfd-to_nfd p.0)))),
)
is_normalized_iff s nfc = (
  (λ h. (s, (same_list_iff s (to_nfc s)).0 h)),
  (λ p. (same_list_iff s (to_nfc s)).1 (rw p.1 (sym (to_nfc-to_nfc p.0)))),
)
