-- ===== src/Decimal.antt =====
-- Decimal numerals as the standard library writes and reads them: `to_string` of an unsigned
-- integer and `parse::<u32>` of a string of ASCII digits, over byte strings.
pub mod Laws
use alice_text.Prelude.{
  ℕ, zero, suc, ◌+◌, ◌-◌, ◌*◌, ◌/◌, ◌%◌, ◌^◌, List, [], ◌∷◌, ◌++◌, Option, none, some, ltb, leb,
  if◌then◌else◌, Bool, ◌&&◌,
}

abbrev pub is_ascii_digit : ℕ → Bool
is_ascii_digit c = leb b'0' c && leb c b'9'

-- The digits of `n`, with fuel; `suc n` is enough.
digits : ℕ → ℕ → List ℕ
digits zero n = []
digits (suc fuel) n =
    let front = digits fuel (n / 10) in
    if ltb n 10 then (b'0' + n) ∷ [] else front ++ (b'0' + n % 10) ∷ []

unfoldable pub to_decimal : ℕ → List ℕ
unfolding digits
to_decimal n = digits (suc n) n

-- Overflow is an error.
read_digits : ℕ → List ℕ → Option ℕ
read_digits acc [] = some acc
read_digits acc (c ∷ cs) =
    let next = acc * 10 + (c - b'0') in
    let rest = read_digits next cs in if ltb next (2 ^ 32) then rest else none

-- So is an empty string.
unfoldable pub parse_u32 : List ℕ → Option ℕ
unfolding read_digits
parse_u32 [] = none
parse_u32 (c ∷ cs) = read_digits 0 (c ∷ cs)
