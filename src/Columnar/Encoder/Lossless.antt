-- ===== src/Columnar/Encoder/Lossless.antt =====
-- When a text comes back from its columns as it was.
use alice_text.Prelude.{
  ℕ, zero, suc, ◌+◌, ◌-◌, ◌^◌, ◌≤◌, ◌≡◌, refl, ap, sym, ◌∙◌, inl, inr, List, [], ◌∷◌, some, length,
  take, drop, map, arith, length-map,
}
use alice_text.Bytes.{Bytes, slice}
use alice_text.Columnar.Foreign.{Foreign}
use alice_text.Columnar.Skeleton.{skeleton_of, parse_skeleton, restore_tokens}
use alice_text.Columnar.Skeleton.RoundTrip.{IsPlain, Splits, Values, restore_tokens-parse_skeleton}
use alice_text.Columnar.Matches.{
  Group, TunedMatch, span, skeleton_with, extract_skeleton, find_matches,
}
use alice_text.Columnar.Matches.Order.{CapturesInside}
use alice_text.Columnar.Matches.Sorted.{InOrder, find_matches-InOrder}
use alice_text.Columnar.Payload.{ColumnarPayload, new, add_match, get_value, restore}
use alice_text.Columnar.Payload.Within.{new-Within}
use alice_text.Columnar.Payload.Shown.{shown}
use alice_text.Columnar.Payload.Values.{
  Ready, SteadyMatch, add_match-Ready, get_value-Kept, get_value-add_match,
}
use alice_text.Columnar.Payload.Tokens.{add_match-tokens}
use mathlib.Core.Option.{none-ne-some}
use alice_text.Columnar.Encoder.{add_matches, encode, decode}

IsPlain-take : (n : ℕ) (s : Bytes) → IsPlain s → IsPlain (take n s)
IsPlain-take zero s h = tt
IsPlain-take (suc n) [] h = tt
IsPlain-take (suc n) (c ∷ s) h = (h.0, IsPlain-take n s h.1)

IsPlain-drop : (n : ℕ) (s : Bytes) → IsPlain s → IsPlain (drop n s)
IsPlain-drop zero s h = h
IsPlain-drop (suc n) [] h = tt
IsPlain-drop (suc n) (c ∷ s) h = IsPlain-drop n s h.1

Splits-InOrder :
    (whole : Bytes) (last_end : ℕ) (ms : List TunedMatch)
    → IsPlain whole
    → InOrder whole last_end ms
    → Splits whole last_end (map span ms)
Splits-InOrder whole last_end [] h o = IsPlain-drop last_end whole h
Splits-InOrder whole last_end (m ∷ ms) h o = (
  IsPlain-take (m.start - last_end) (drop last_end whole) (IsPlain-drop last_end whole h),
  o.0,
  omega arith,
  Splits-InOrder whole m.end ms h o.2,
)

module _ (foreign : Foreign) where
  -- Each match is shown as its own text by the payload it is added to, and a timestamp leaves the
  -- offset of the earlier ones alone.
  abbrev pub Lossless : ColumnarPayload foreign → List TunedMatch → Type 0
  Lossless p [] = Unit
  Lossless p (m ∷ ms) =
      (shown foreign m.pattern_type m.matched_text p ≡ some m.matched_text)
      × SteadyMatch foreign m.pattern_type m.matched_text p
      × Lossless (add_match foreign m.pattern_type m.matched_text p) ms

  -- A value that could be read stays through all later matches.
  get_value-add_matches :
      (n i : ℕ) (p : ColumnarPayload foreign) (ms : List TunedMatch) (v : Bytes)
      → Ready foreign n p
      → Lossless p ms
      → get_value foreign p i ≡ some v
      → get_value foreign (add_matches foreign p ms) i ≡ some v
  unfolding add_matches
  get_value-add_matches n i p [] v r l e = e
  get_value-add_matches n i p (m ∷ ms) v r l e =
      get_value-add_matches (suc n) i (add_match foreign m.pattern_type m.matched_text p) ms v
        (add_match-Ready foreign n m.pattern_type m.matched_text p r) l.2
        (elim (get_value-Kept foreign n i m.pattern_type m.matched_text p r l.1) [
          | inl absent ↦ absurd (none-ne-some v (sym absent ∙ e))
          | inr kept ↦ sym kept ∙ e
        ])

  Values-add_matches :
      (whole : Bytes) (last_end n : ℕ) (p : ColumnarPayload foreign) (ms : List TunedMatch)
      → Ready foreign n p
      → Lossless p ms
      → InOrder whole last_end ms
      → n + length ms ≤ 2 ^ 32
      → Values (get_value foreign (add_matches foreign p ms)) whole n (map span ms)
  unfolding add_matches
  Values-add_matches whole last_end n p [] r l o fits = tt
  Values-add_matches whole last_end n p (m ∷ ms) r l o fits =
      let next = add_match foreign m.pattern_type m.matched_text p in
      let ready = add_match-Ready foreign n m.pattern_type m.matched_text p r in
      (
        get_value-add_matches (suc n) n next ms (slice m.start m.end whole) ready l.2 (
            get_value-add_match foreign n m.pattern_type m.matched_text p r (omega arith)
            ∙ l.0
            ∙ ap some o.1.2),
        Values-add_matches whole m.end (suc n) next ms ready l.2 o.2 (omega arith),
      )

  skeleton_tokens-add_matches :
      (p : ColumnarPayload foreign) (ms : List TunedMatch)
      → (add_matches foreign p ms).skeleton_tokens ≡ p.skeleton_tokens
  unfolding add_matches
  skeleton_tokens-add_matches p [] = refl
  skeleton_tokens-add_matches p (m ∷ ms) =
      skeleton_tokens-add_matches (add_match foreign m.pattern_type m.matched_text p) ms
      ∙ add_match-tokens foreign m.matched_text p m.pattern_type

  pub new-Ready : (skeleton : Bytes) → Ready foreign 0 (new foreign skeleton)
  unfolding new
  new-Ready skeleton = record {
    map_length = refl;
    within = new-Within foreign skeleton;
    column = refl;
    base = inl refl;
  }

  skeleton_with-spans :
      (whole : Bytes) (ms : List TunedMatch)
      → skeleton_with whole ms ≡ skeleton_of whole (map span ms)
  unfolding skeleton_with skeleton_of
  skeleton_with-spans whole [] = refl
  skeleton_with-spans whole (m ∷ ms) = refl

  restore-tokens :
      (p : ColumnarPayload foreign)
      → restore foreign p ≡ restore_tokens (get_value foreign p) p.skeleton_tokens
  unfolding restore get_value
  restore-tokens p = refl

  restore-add_matches :
      (whole : Bytes) (ms : List TunedMatch)
      → IsPlain whole
      → InOrder whole 0 ms
      → Lossless (new foreign (skeleton_with whole ms)) ms
      → length ms ≤ 2 ^ 32
      → restore foreign (add_matches foreign (new foreign (skeleton_with whole ms)) ms) ≡ whole
  unfolding new
  restore-add_matches whole ms plain o l fits =
      let start = new foreign (skeleton_with whole ms) in
      let end = add_matches foreign start ms in
      restore-tokens end
      ∙ ap (restore_tokens (get_value foreign end))
          (skeleton_tokens-add_matches start ms ∙ ap parse_skeleton (skeleton_with-spans whole ms))
      ∙ restore_tokens-parse_skeleton (get_value foreign end) whole (map span ms)
          (Splits-InOrder whole 0 ms plain o)
          (Values-add_matches whole 0 0 start ms (new-Ready (skeleton_with whole ms)) l o
            (omega arith))
          (omega (arith, length-map ms span))

  -- Let a text have no opening brace and up to 2^32 matches, each a stretch of the text that its
  -- column shows as it was, with one offset for all its timestamps. Then decoding what the text is
  -- encoded to gives the text back.
  pub decode-encode :
      (captures_iter : Bytes → List (List Group)) (whole : Bytes)
      → IsPlain whole
      → CapturesInside (length whole) (captures_iter whole)
      → (let ms = find_matches captures_iter whole in
          Lossless (new foreign (skeleton_with whole ms)) ms)
      → length (find_matches captures_iter whole) ≤ 2 ^ 32
      → decode foreign (encode foreign captures_iter whole) ≡ whole
  unfolding decode encode extract_skeleton
  decode-encode captures_iter whole plain inside l fits =
      restore-add_matches whole (find_matches captures_iter whole) plain
        (find_matches-InOrder captures_iter whole inside) l fits
