-- ===== src/Bytes/Laws.antt =====
-- The integers come back from their bytes, and bytes from their integer.
use alice_text.Prelude.{ℕ, zero, suc, ◌/◌, ◌^◌, ◌<◌, [], ◌∷◌, ◌≡◌, refl, ap, ◌∙◌, arith, length}
use mathlib.Core.Path.{ap₂}
use native.Mathlib.Nat.{pow-suc}
use alice_text.Bytes.{Bytes, AreBytes, to_le, from_le}

pub from_le-to_le : (w n : ℕ) → n < 256 ^ w → from_le (to_le w n) ≡ n
unfolding from_le to_le
from_le-to_le zero n h = omega arith
from_le-to_le (suc w) n h = omega (arith, from_le-to_le w (n / 256) (omega (arith, pow-suc 256 w)))

pub to_le-from_le : (bs : Bytes) → AreBytes bs → to_le (length bs) (from_le bs) ≡ bs
unfolding from_le to_le
to_le-from_le [] h = refl
to_le-from_le (b ∷ bs) h =
    ap₂ ◌∷◌ (omega (arith, h.0))
      (ap (to_le (length bs)) (omega (arith, h.0)) ∙ to_le-from_le bs h.1)

pub length-to_le : (w n : ℕ) → length (to_le w n) ≡ w
unfolding to_le
length-to_le zero n = refl
length-to_le (suc w) n = ap suc (length-to_le w (n / 256))

pub to_le-AreBytes : (w n : ℕ) → AreBytes (to_le w n)
unfolding to_le
to_le-AreBytes zero n = tt
to_le-AreBytes (suc w) n = (omega arith, to_le-AreBytes w (n / 256))

pub from_le-lt : (bs : Bytes) → AreBytes bs → from_le bs < 256 ^ length bs
unfolding from_le
from_le-lt [] h = omega arith
from_le-lt (b ∷ bs) h = omega (arith, h.0, from_le-lt bs h.1, pow-suc 256 (length bs))
