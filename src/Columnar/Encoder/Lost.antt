-- ===== src/Columnar/Encoder/Lost.antt =====
-- Texts that do not come back: those with an empty pair of braces.
use alice_text.Prelude.{◌≡◌, refl, ap, ◌∙◌, List, [], ◌++◌, none, ◌∷◌}
use alice_text.Bytes.{Bytes}
use alice_text.Columnar.Foreign.{Foreign}
use alice_text.Columnar.Skeleton.{restore_tokens, parse_skeleton}
use alice_text.Columnar.Skeleton.RoundTrip.{IsPlain}
use alice_text.Columnar.Skeleton.Collisions.{empty_braces, parse_skeleton-empty_braces}
use alice_text.Columnar.Matches.{Group, extract_skeleton, find_matches, claim, sort, skeleton_with}
use alice_text.Columnar.Payload.{new, restore}
use alice_text.Columnar.Encoder.{add_matches, encode, decode}

find_matches-none :
    (captures_iter : Bytes → List (List Group)) (whole : Bytes)
    → captures_iter whole ≡ []
    → find_matches captures_iter whole ≡ []
unfolding find_matches claim sort
find_matches-none captures_iter whole e = rw e refl

module _ (foreign : Foreign) where
  encode-none :
      (captures_iter : Bytes → List (List Group)) (whole : Bytes)
      → captures_iter whole ≡ []
      → encode foreign captures_iter whole ≡ new foreign whole
  unfolding encode extract_skeleton skeleton_with add_matches
  encode-none captures_iter whole e = rw (find_matches-none captures_iter whole e) refl

  restore-new :
      (whole : Bytes)
      → restore foreign (new foreign whole) ≡ restore_tokens (λ _. none) (parse_skeleton whole)
  unfolding restore new
  restore-new whole = refl

  -- Let a text without matches have an empty pair of braces between two parts without opening
  -- braces. Then decoding what the text is encoded to gives the text without the closing brace.
  pub decode-encode-empty_braces :
      (captures_iter : Bytes → List (List Group)) (s t : Bytes)
      → IsPlain s
      → IsPlain t
      → captures_iter (s ++ (empty_braces ++ t)) ≡ []
      → decode foreign (encode foreign captures_iter (s ++ (empty_braces ++ t)))
        ≡ (s ++ b'{' ∷ []) ++ t
  unfolding decode
  decode-encode-empty_braces captures_iter s t plain plain' e =
      let whole = s ++ (empty_braces ++ t) in
      ap (restore foreign) (encode-none captures_iter whole e)
      ∙ restore-new whole
      ∙ parse_skeleton-empty_braces (λ _. none) s t plain plain'
