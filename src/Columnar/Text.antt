-- ===== src/Columnar/Text.antt =====
-- The conversions of single values: dates, times and numbers.
use mathlib.Core.Option
use alice_text.Prelude.{
  ℕ, ◌-◌, ◌/◌, ◌%◌, ◌^◌, List, [], ◌∷◌, ◌++◌, Option, none, some, ltb, leb, if◌then◌else◌, length,
  replicate,
}
use alice_text.Prelude.Int.{ℤ, pos, negsuc}
use alice_text.Bytes.{Bytes}
use alice_text.Decimal.{to_decimal}
use alice_text.Columnar.Foreign.{Foreign}

-- `{n:0w}`
unfoldable pub padded : ℕ → ℕ → Bytes
padded w n = let d = to_decimal n in replicate (w - length d) b'0' ++ d

unfoldable pub format_time_from_ms : ℕ → Bytes
unfolding padded
format_time_from_ms ms =
    let total_secs = ms / 1000 in
    let hours = total_secs / 3600 in
    let minutes = total_secs % 3600 / 60 in
    let seconds = total_secs % 60 in
    let millis = ms % 1000 in
    let clock = padded 2 hours ++ b':' ∷ (padded 2 minutes ++ b':' ∷ padded 2 seconds) in
    if ltb 0 millis then clock ++ b'.' ∷ padded 3 millis else clock

-- The first format of the list that parses to an accepted number.
find_number : (ℕ → Option ℤ) → (ℤ → Option ℕ) → List ℕ → Option ℕ
find_number parse accept [] = none
find_number parse accept (idx ∷ rest) = elim (Option.bind (parse idx) accept) [
  | some n ↦ some n
  | none ↦ find_number parse accept rest
]

-- Days before the epoch are refused; `days as u32`.
accept_days : ℤ → Option ℕ
accept_days (pos n) = some (n % 2 ^ 32)
accept_days (negsuc n) = none

accept_ms : ℤ → Option ℕ
accept_ms (pos n) = if leb n 86_400_000 then some n else none
accept_ms (negsuc n) = none

module _ (foreign : Foreign) where
  open foreign use {Float, is_integral, i64_to_string, f64_to_string, date_parse, time_parse}

  unfoldable pub format_number : Float → Bytes
  format_number n = if is_integral n then i64_to_string n else f64_to_string n

  -- Four formats.
  unfoldable pub parse_date_to_days : Bytes → Option ℕ
  unfolding find_number accept_days
  parse_date_to_days s = find_number (λ idx. date_parse idx s) accept_days (0 ∷ 1 ∷ 2 ∷ 3 ∷ [])

  -- Three formats.
  unfoldable pub parse_time_to_ms : Bytes → Option ℕ
  unfolding find_number accept_ms
  parse_time_to_ms s = find_number (λ idx. time_parse idx s) accept_ms (0 ∷ 1 ∷ 2 ∷ [])
