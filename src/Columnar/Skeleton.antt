-- ===== src/Columnar/Skeleton.antt =====
-- The skeleton: `parse_skeleton`, and the part of `extract_skeleton` that writes it.
pub mod RoundTrip
pub mod Collisions
use alice_text.Prelude.{
  ℕ, zero, suc, ◌+◌, ◌-◌, List, [], ◌∷◌, ◌++◌, Option, none, some, ◌==◌, if◌then◌else◌, Bool, drop,
}
use mathlib.Core.List.{foldl}
use alice_text.Bytes.{Bytes, slice}
use alice_text.Decimal.{is_ascii_digit, to_decimal, parse_u32}

pub data SkeletonToken : Type 0 where
  text : Bytes → SkeletonToken
  ref : ℕ → SkeletonToken

-- Where the loop of `parse_skeleton` stands: between characters, or after a brace and the digits
-- that follow it.
pub data Mode : Type 0 where
  outside : Mode
  inside : Bytes → Mode

pub record Scan : Type 0 where
  pub tokens : List SkeletonToken
  pub current_text : Bytes
  pub mode : Mode

-- The accumulated text becomes a token, unless it is empty.
unfoldable pub flush : List SkeletonToken → Bytes → List SkeletonToken
flush tokens [] = tokens
flush tokens (c ∷ cs) = tokens ++ text (c ∷ cs) ∷ []

-- What follows the inner loop: a reference, or the brace and the digits as text.
unfoldable pub end_digits : Scan → Bytes → Scan
unfolding flush
end_digits s num_str = elim (parse_u32 num_str) [
  | some idx ↦ record {
    tokens = flush s.tokens s.current_text ++ ref idx ∷ [];
    current_text = [];
    mode = outside;
  }
  | none ↦ record s { current_text = s.current_text ++ b'{' ∷ num_str; mode = outside }
]

unfoldable pub scan_outside : Scan → ℕ → Scan
scan_outside s c =
    if c == b'{'
    then record s { mode = inside [] }
    else record s { current_text = s.current_text ++ c ∷ []; mode = outside }

-- A closing brace is consumed; a character that is no digit is left to the outer loop.
unfoldable pub scan_inside : Scan → Bytes → ℕ → Scan
unfolding end_digits scan_outside
scan_inside s num_str c =
    if c == b'}'
    then end_digits s num_str
    else if is_ascii_digit c
    then record s { mode = inside (num_str ++ c ∷ []) }
    else scan_outside (end_digits s num_str) c

scan_mode : Mode → Scan → ℕ → Scan
scan_mode outside s c = scan_outside s c
scan_mode (inside num_str) s c = scan_inside s num_str c

unfoldable pub scan_char : Scan → ℕ → Scan
unfolding scan_mode scan_inside scan_outside
scan_char s c = scan_mode s.mode s c

close_mode : Mode → Scan → Scan
close_mode outside s = s
close_mode (inside num_str) s = end_digits s num_str

abbrev pub start : Scan
start = record { tokens = []; current_text = []; mode = outside }

abbrev finished : Scan → List SkeletonToken
finished s = flush s.tokens s.current_text

unfoldable pub parse_skeleton : Bytes → List SkeletonToken
unfolding scan_char close_mode end_digits
parse_skeleton skeleton = let s = foldl scan_char start skeleton in finished (close_mode s.mode s)

-- A match of the pattern learner, by its byte positions in the text.
pub record Span : Type 0 where
  pub start : ℕ
  pub end : ℕ

-- `{i}`
unfoldable pub placeholder : ℕ → Bytes
placeholder i = b'{' ∷ (to_decimal i ++ b'}' ∷ [])

-- The loop of `extract_skeleton`; what is left after the last match is added behind it.
unfoldable pub skeleton_from : Bytes → ℕ → ℕ → List Span → Bytes
unfolding placeholder
skeleton_from whole i last_end [] = drop last_end whole
skeleton_from whole i last_end (m ∷ ms) =
    slice last_end m.start whole ++ (placeholder i ++ skeleton_from whole (suc i) m.end ms)

unfoldable pub skeleton_of : Bytes → List Span → Bytes
unfolding skeleton_from
skeleton_of whole matches = skeleton_from whole 0 0 matches

-- `restore`: the texts, and for each reference its value or nothing.
unfoldable pub value_or_nothing : Option Bytes → Bytes
value_or_nothing none = []
value_or_nothing (some value) = value

unfoldable pub restore_tokens : (ℕ → Option Bytes) → List SkeletonToken → Bytes
unfolding value_or_nothing
restore_tokens value [] = []
restore_tokens value (text t ∷ rest) = t ++ restore_tokens value rest
restore_tokens value (ref idx ∷ rest) = value_or_nothing (value idx) ++ restore_tokens value rest
