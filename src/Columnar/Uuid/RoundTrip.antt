-- ===== src/Columnar/Uuid/RoundTrip.antt =====
-- A UUID is read back from its text.
use alice_text.Prelude.{
  ℕ, zero, suc, ◌+◌, ◌-◌, ◌*◌, ◌/◌, ◌%◌, ◌^◌, ◌<◌, ◌≡◌, refl, ap, ◌∙◌, [], ◌∷◌, ◌++◌, some, true,
  length, length-append, take, drop, arith, slice-append-drop, take_all, length-drop,
}
use mathlib.Core.Path.{ap₂}
use native.Mathlib.Nat.{pow-suc}
use alice_text.Bytes.{Bytes, slice}
use alice_text.Columnar.Uuid.{
  is_ascii_hexdigit, hex_value, hex_only, from_hex, parse_uuid, hex_digit, to_hex, dashed,
  format_uuid,
}

abbrev AreHex : Bytes → Type 0
AreHex [] = Unit
AreHex (c ∷ cs) = (is_ascii_hexdigit c ≡ true) × AreHex cs

AreHex-append : (s t : Bytes) → AreHex s → AreHex t → AreHex (s ++ t)
AreHex-append [] t hs ht = ht
AreHex-append (c ∷ s) t hs ht = (hs.0, AreHex-append s t hs.1 ht)

AreHex-take : (n : ℕ) (s : Bytes) → AreHex s → AreHex (take n s)
AreHex-take zero s h = tt
AreHex-take (suc n) [] h = tt
AreHex-take (suc n) (c ∷ s) h = (h.0, AreHex-take n s h.1)

AreHex-drop : (n : ℕ) (s : Bytes) → AreHex s → AreHex (drop n s)
AreHex-drop zero s h = h
AreHex-drop (suc n) [] h = tt
AreHex-drop (suc n) (c ∷ s) h = AreHex-drop n s h.1

hex_only-AreHex : (s : Bytes) → AreHex s → hex_only s ≡ s
unfolding hex_only
hex_only-AreHex [] h = refl
hex_only-AreHex (c ∷ s) h = rw (h.0) (ap (◌∷◌ c) (hex_only-AreHex s h.1))

hex_only-append : (s t : Bytes) → hex_only (s ++ t) ≡ hex_only s ++ hex_only t
unfolding hex_only
hex_only-append [] t = refl
hex_only-append (c ∷ s) t = ground (arith, hex_only-append s t)

before_dash :
    (i j : ℕ) (s rest : Bytes)
    → AreHex s
    → hex_only (slice i j s ++ b'-' ∷ rest) ≡ slice i j s ++ hex_only rest
before_dash i j s rest h =
    hex_only-append (slice i j s) (b'-' ∷ rest)
    ∙ ap₂ ◌++◌ (hex_only-AreHex (slice i j s) (AreHex-take (j - i) _ (AreHex-drop i s h)))
        (unfold hex_only is_ascii_hexdigit in refl)

-- The dashes are dropped again.
hex_only-dashed : (s : Bytes) → AreHex s → length s ≡ 32 → hex_only (dashed s) ≡ s
unfolding dashed
hex_only-dashed s h e =
    before_dash 0 8 s _ h
    ∙ ap (λ r. slice 0 8 s ++ r) (before_dash 8 12 s _ h)
    ∙ ap (λ r. slice 0 8 s ++ (slice 8 12 s ++ r)) (before_dash 12 16 s _ h)
    ∙ ap (λ r. slice 0 8 s ++ (slice 8 12 s ++ (slice 12 16 s ++ r))) (before_dash 16 20 s _ h)
    ∙ ap (λ r. slice 0 8 s ++ (slice 8 12 s ++ (slice 12 16 s ++ (slice 16 20 s ++ r))))
        (hex_only-AreHex _ (AreHex-take 12 _ (AreHex-drop 20 s h))
          ∙ take_all 12 (drop 20 s) (omega (arith, length-drop 20 s)))
    ∙ ap (λ r. slice 0 8 s ++ (slice 8 12 s ++ (slice 12 16 s ++ r)))
        (slice-append-drop 16 20 s (omega arith))
    ∙ ap (λ r. slice 0 8 s ++ (slice 8 12 s ++ r)) (slice-append-drop 12 16 s (omega arith))
    ∙ ap (λ r. slice 0 8 s ++ r) (slice-append-drop 8 12 s (omega arith))
    ∙ slice-append-drop 0 8 s (omega arith)

digit-hex : (d : ℕ) → d < 16 → is_ascii_hexdigit (hex_digit d) ≡ true
unfolding is_ascii_hexdigit hex_digit
digit-hex d h = ground arith

value-digit : (d : ℕ) → d < 16 → hex_value (hex_digit d) ≡ d
unfolding hex_value hex_digit
value-digit d h = ground arith

to_hex-AreHex : (w n : ℕ) → AreHex (to_hex w n)
unfolding to_hex
to_hex-AreHex zero n = tt
to_hex-AreHex (suc w) n =
    AreHex-append (to_hex w (n / 16)) _ (to_hex-AreHex w (n / 16))
      (digit-hex (n % 16) (omega arith), tt)

length-to_hex : (w n : ℕ) → length (to_hex w n) ≡ w
unfolding to_hex
length-to_hex zero n = refl
length-to_hex (suc w) n =
    omega
      (arith, length-append (to_hex w (n / 16)) (hex_digit (n % 16) ∷ []), length-to_hex w (n / 16))

from_hex-append : (acc : ℕ) (s t : Bytes) → from_hex acc (s ++ t) ≡ from_hex (from_hex acc s) t
unfolding from_hex
from_hex-append acc [] t = refl
from_hex-append acc (c ∷ s) t = from_hex-append (acc * 16 + hex_value c) s t

from_hex-to_hex : (w n : ℕ) → n < 16 ^ w → from_hex 0 (to_hex w n) ≡ n
unfolding to_hex from_hex
from_hex-to_hex zero n h = omega arith
from_hex-to_hex (suc w) n h =
    from_hex-append 0 (to_hex w (n / 16)) (hex_digit (n % 16) ∷ [])
    ∙ omega (
      arith,
      from_hex-to_hex w (n / 16) (omega (arith, pow-suc 16 w)),
      value-digit (n % 16) (omega arith),
    )

parse_uuid_of :
    (s hex : Bytes) → hex_only s ≡ hex → length hex ≡ 32 → parse_uuid s ≡ some (from_hex 0 hex)
unfolding parse_uuid
parse_uuid_of s hex e l = rw (e, l)

-- `parse_uuid` reads back every 128-bit number from the text that `format_uuid` writes.
pub parse_uuid-format_uuid : (n : ℕ) → n < 2 ^ 128 → parse_uuid (format_uuid n) ≡ some n
unfolding format_uuid
parse_uuid-format_uuid n h =
    parse_uuid_of (dashed (to_hex 32 n)) (to_hex 32 n)
      (hex_only-dashed (to_hex 32 n) (to_hex-AreHex 32 n) (length-to_hex 32 n)) (length-to_hex 32 n)
    ∙ ap some (from_hex-to_hex 32 n h)
