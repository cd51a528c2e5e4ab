-- ===== src/Columnar/Uuid.antt =====
-- `parse_uuid` and `format_uuid`: 128-bit numbers as 32 hexadecimal digits.
pub mod RoundTrip
use alice_text.Prelude.{
  ℕ, zero, suc, ◌+◌, ◌-◌, ◌*◌, ◌/◌, ◌%◌, ◌^◌, List, [], ◌∷◌, ◌++◌, Option, none, some, Bool, ltb,
  leb, ◌==◌, ◌&&◌, ◌||◌, if◌then◌else◌, length,
}
use alice_text.Bytes.{Bytes, slice}

abbrev between : ℕ → ℕ → ℕ → Bool
between lo hi c = leb lo c && leb c hi

unfoldable pub is_ascii_hexdigit : ℕ → Bool
is_ascii_hexdigit c = between b'0' b'9' c || between b'a' b'f' c || between b'A' b'F' c

-- The value of a hexadecimal digit.
unfoldable pub hex_value : ℕ → ℕ
hex_value c =
    if between b'0' b'9' c then c - b'0' else if between b'a' b'f' c then c - 87 else c - 55

-- `chars().filter(is_ascii_hexdigit)`
unfoldable pub hex_only : Bytes → Bytes
unfolding is_ascii_hexdigit
hex_only [] = []
hex_only (c ∷ cs) = let rest = hex_only cs in if is_ascii_hexdigit c then c ∷ rest else rest

-- `u128::from_str_radix(_, 16)` of 32 digits, which cannot overflow.
unfoldable pub from_hex : ℕ → Bytes → ℕ
unfolding hex_value
from_hex acc [] = acc
from_hex acc (c ∷ cs) = from_hex (acc * 16 + hex_value c) cs

unfoldable pub parse_uuid : Bytes → Option ℕ
parse_uuid s = let hex = hex_only s in if length hex == 32 then some (from_hex 0 hex) else none

unfoldable pub hex_digit : ℕ → ℕ
hex_digit d = if ltb d 10 then b'0' + d else 87 + d

-- `format!("{n:0wx}")`, for a number of at most `w` digits.
unfoldable pub to_hex : ℕ → ℕ → Bytes
unfolding hex_digit
to_hex zero n = []
to_hex (suc w) n = to_hex w (n / 16) ++ hex_digit (n % 16) ∷ []

abbrev dash : Bytes → Bytes
dash s = b'-' ∷ s

unfoldable pub dashed : Bytes → Bytes
dashed hex =
    slice 0 8 hex
    ++ dash (
        slice 8 12 hex
        ++ dash (slice 12 16 hex ++ dash (slice 16 20 hex ++ dash (slice 20 32 hex))))

unfoldable pub format_uuid : ℕ → Bytes
format_uuid uuid = dashed (to_hex 32 uuid)
