-- ===== src/Columnar/Skeleton/Collisions.antt =====
-- Braces of the text itself: what the skeleton makes of an empty pair.
use alice_text.Prelude.{ℕ, ◌≡◌, refl, ap, ◌∙◌, List, [], ◌∷◌, ◌++◌, Option}
use mathlib.Core.List.{foldl, foldl-append}
use alice_text.Bytes.{Bytes}
use alice_text.Decimal.{parse_u32}
use alice_text.Columnar.Skeleton.{
  SkeletonToken, Scan, outside, scan_char, end_digits, close_mode, finished, start, parse_skeleton,
  restore_tokens,
}
use alice_text.Columnar.Skeleton.RoundTrip.{IsPlain, at, scan_plain, restore_tokens-flush}

-- `{}`
abbrev pub empty_braces : Bytes
empty_braces = b'{' ∷ b'}' ∷ []

-- The closing brace is consumed, and the opening one is text.
scan_empty_braces :
    (ts : List SkeletonToken) (cur t : Bytes)
    → foldl scan_char (at ts cur outside) (empty_braces ++ t)
      ≡ foldl scan_char (at ts (cur ++ b'{' ∷ []) outside) t
unfolding scan_char end_digits parse_u32
scan_empty_braces ts cur t = refl

module _ (value : ℕ → Option Bytes) where
  abbrev restored : Scan → Bytes
  restored s = restore_tokens value (finished (close_mode s.mode s))

  -- Between parts without opening braces, an empty pair of braces keeps only the first.
  pub parse_skeleton-empty_braces :
      (s t : Bytes)
      → IsPlain s
      → IsPlain t
      → restore_tokens value (parse_skeleton (s ++ (empty_braces ++ t))) ≡ (s ++ b'{' ∷ []) ++ t
  unfolding parse_skeleton close_mode restore_tokens
  parse_skeleton-empty_braces s t plain plain' =
      ap restored (
        foldl-append scan_char start s (empty_braces ++ t)
        ∙ ap (λ r. foldl scan_char r (empty_braces ++ t)) (scan_plain [] [] s plain)
        ∙ scan_empty_braces [] s t
        ∙ scan_plain [] (s ++ b'{' ∷ []) t plain')
      ∙ restore_tokens-flush value [] ((s ++ b'{' ∷ []) ++ t)
