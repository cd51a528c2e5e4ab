-- ===== src/Bytes.antt =====
-- Bytes: little-endian integers and slices, as `to_le_bytes`, `from_le_bytes` and `&bytes[i..j]`.
pub mod Laws
use alice_text.Prelude.{
  ℕ, zero, suc, ◌+◌, ◌-◌, ◌*◌, ◌/◌, ◌%◌, ◌<◌, List, [], ◌∷◌, take, drop, get_or, Bool, true, false,
  ◌==◌, ◌&&◌,
}

abbrev pub Bytes : Type 0
Bytes = List ℕ

abbrev pub IsByte : ℕ → Type 0
IsByte b = b < 256

abbrev pub AreBytes : Bytes → Type 0
AreBytes [] = Unit
AreBytes (b ∷ bs) = IsByte b × AreBytes bs

-- `n.to_le_bytes()` of an integer of `w` bytes.
unfoldable pub to_le : ℕ → ℕ → Bytes
to_le zero n = []
to_le (suc w) n = n % 256 ∷ to_le w (n / 256)

unfoldable pub from_le : Bytes → ℕ
from_le [] = 0
from_le (b ∷ bs) = b + 256 * from_le bs

-- `&bs[i..j]`, where the source has checked the length.
abbrev pub slice : ℕ → ℕ → Bytes → Bytes
slice i j bs = take (j - i) (drop i bs)

-- `bs[i]`, where the source has checked the length.
abbrev pub byte_at : ℕ → Bytes → ℕ
byte_at i bs = get_or bs i 0
