-- ===== src/Columnar/Encoder.antt =====
-- `ColumnarEncoder`: encoding a text and decoding a payload.
pub mod Lossless
pub mod Lost
use alice_text.Prelude.{List, [], ◌∷◌}
use alice_text.Bytes.{Bytes}
use alice_text.Columnar.Foreign.{Foreign}
use alice_text.Columnar.Matches.{Group, TunedMatch, extract_skeleton}
use alice_text.Columnar.Payload.{ColumnarPayload, new, add_match, restore}

module _ (foreign : Foreign) where
  -- The loop of `encode`.
  unfoldable pub add_matches : ColumnarPayload foreign → List TunedMatch → ColumnarPayload foreign
  add_matches payload [] = payload
  add_matches payload (m ∷ ms) =
      add_matches (add_match foreign m.pattern_type m.matched_text payload) ms

  unfoldable pub encode : (Bytes → List (List Group)) → Bytes → ColumnarPayload foreign
  unfolding add_matches
  encode captures_iter whole =
      let (skeleton, matches) = extract_skeleton captures_iter whole in
      add_matches (new foreign skeleton) matches

  unfoldable pub decode : ColumnarPayload foreign → Bytes
  decode payload = restore foreign payload
