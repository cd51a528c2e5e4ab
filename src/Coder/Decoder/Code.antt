-- ===== src/Coder/Decoder/Code.antt =====
-- The code of the decoder stays in its interval, whatever the input is. The subtractions of the
-- source are between such numbers, and a value that is looked up is below the total.
use alice_text.Prelude.{ℕ, zero, suc, ◌≡◌, ◌≢◌, ◌≤◌, ◌<◌, ◌+◌, ◌*◌, ◌-◌, refl, arith, inl, ◌/◌, inr}
use native.Mathlib.Nat.{div-lt_iff_lt-mul, le-div_iff_mul-le, mul-le-mul_right}
use alice_text.Coder.Stream.{nth, bit-le}
use alice_text.Coder.Encoder.Packing.{bytes_bits}
use alice_text.Coder.Decoder.{shift_in, read_bit, ArithmeticDecoder, scale, normalize_from}
use alice_text.Coder.Decoder.Reads.{position, read_bit-Reads}
use alice_text.Coder.Interval.{
  stable-or, branch-InBranch, IsEnough-zero, IsEnough-suc, scaled-IsInterval, Branch, lower, upper,
  middle, stable, branch, InBranch, IsInterval, offset, scaled_low, scaled_high, IsEnough,
  lookup_value, narrow_low, narrow_high,
}
use alice_text.Coder.Decoder.Rounds.{normalize_from-stable, normalize_from-round}

abbrev pub IsInside : ℕ → ℕ → ℕ → Type 0
IsInside low high code = (low ≤ code) × (code ≤ high)

pub record IsValid (d : ArithmeticDecoder) : Type 0 where
  pub small : d.bit_pos < 8
  pub interval : IsInterval d.low d.high
  pub inside : IsInside d.low d.high d.code

scaled-IsInside :
    (b : Branch) (low high code v : ℕ)
    → b ≢ stable
    → InBranch b low high
    → v ≤ 1
    → IsInside low high code
    → IsInside (scaled_low low b) (scaled_high high b) ((code - offset b) * 2 + v)
unfolding offset
scaled-IsInside lower low high code v n h small i = (omega arith, omega arith)
scaled-IsInside upper low high code v n h small i = (omega arith, omega arith)
scaled-IsInside middle low high code v n h small i = (omega arith, omega arith)
scaled-IsInside stable low high code v n h small i = absurd (n refl)

scale-IsValid :
    (b : Branch) (d : ArithmeticDecoder)
    → b ≢ stable
    → InBranch b d.low d.high
    → IsValid d
    → IsValid (scale b d)
      × ((scale b d).low ≡ scaled_low d.low b)
      × ((scale b d).high ≡ scaled_high d.high b)
unfolding scale shift_in
scale-IsValid b d n h valid =
    let next = record d {
      low = scaled_low d.low b;
      high = scaled_high d.high b;
      code = d.code - offset b;
    } in
    let reads = read_bit-Reads next valid.small in
    let inside =
      scaled-IsInside b d.low d.high d.code (read_bit next).0 n h
        (omega (arith, reads.value, bit-le (nth (position next) (bytes_bits next.input))))
        valid.inside in
    let interval = (scaled-IsInterval b d.low d.high h n valid.interval).0 in
    (
      record {
        small = reads.small;
        interval = (
          omega (arith, reads.low, reads.high, interval),
          omega (arith, reads.low, reads.high, interval),
        );
        inside = (
          omega (arith, reads.low, reads.high, inside),
          omega (arith, reads.low, reads.high, inside),
        );
      },
      reads.low,
      reads.high,
    )

-- The loop settles before its fuel ends, at a decoder that is valid still; more fuel changes nothing.
pub normalize_from-IsValid :
    (fuel more : ℕ) (d : ArithmeticDecoder)
    → fuel ≤ more
    → IsValid d
    → IsEnough fuel d.low d.high
    → IsValid (normalize_from fuel d)
      × (branch (normalize_from fuel d).low (normalize_from fuel d).high ≡ stable)
      × (normalize_from more d ≡ normalize_from fuel d)
normalize_from-IsValid zero more d le valid enough =
    let h = IsEnough-zero d.low d.high _ (branch-InBranch d.low d.high) valid.interval enough in
    rw (normalize_from-stable zero d h, normalize_from-stable more d h) (valid, h, refl)
normalize_from-IsValid (suc fuel) zero d le valid enough = absurd (omega arith)
normalize_from-IsValid (suc fuel) (suc more) d le valid enough =
    let b = branch d.low d.high in
    let inside = branch-InBranch d.low d.high in
    elim (stable-or b) [
      | inl h ↦
          rw (normalize_from-stable (suc fuel) d h, normalize_from-stable (suc more) d h)
            (valid, h, refl)
      | inr n ↦
          let (next, low, high) = scale-IsValid b d n inside valid in
          let rest = IsEnough-suc fuel d.low d.high b inside n valid.interval enough in
          rw (normalize_from-round fuel d b refl n, normalize_from-round more d b refl n)
            (normalize_from-IsValid fuel more (scale b d) (omega arith) next (rw (low, high) rest))
    ]

-- The range of the value has the code in its interval.
pub narrow-IsInside :
    (low high sl sh t code : ℕ)
    → 0 < t
    → IsInside low high code
    → sl ≤ lookup_value low high code t
    → lookup_value low high code t < sh
    → IsInside (narrow_low low high sl t) (narrow_high low high sh t) code
unfolding narrow_low narrow_high lookup_value
narrow-IsInside low high sl sh t code positive i above below =
    let r = high - low + 1 in
    let c = code - low in
    let width : 0 < r = omega arith in
    let product : t ≤ (c + 1) * t = grind arith in
    let low_product = (le-div_iff_mul-le {k = r} {x = sl} {y = (c + 1) * t - 1} width).0 above in
    let high_product = (div-lt_iff_lt-mul {k = r} {x = (c + 1) * t - 1} {y = sh} width).0 below in
    let first : r * sl / t < c + 1 =
      (div-lt_iff_lt-mul {k = t} {x = r * sl} {y = c + 1} positive).1 (grind arith) in
    let last : c + 1 ≤ r * sh / t =
      (le-div_iff_mul-le {k = t} {x = c + 1} {y = r * sh} positive).1 (grind arith) in
    (omega arith, omega arith)

-- A value that is looked up is below the total.
pub lookup_value-lt :
    (low high code t : ℕ) → 0 < t → IsInside low high code → lookup_value low high code t < t
unfolding lookup_value
lookup_value-lt low high code t positive i =
    let r = high - low + 1 in
    let width : 0 < r = omega arith in
    let product : (code - low + 1) * t ≤ r * t =
      mul-le-mul_right {m = code - low + 1} {n = r} t (omega arith) in
    (div-lt_iff_lt-mul {k = r} {x = (code - low + 1) * t - 1} {y = t} width).1 (grind arith)
