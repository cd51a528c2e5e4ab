-- ===== src/Coder/Interval.antt =====
-- The interval that encoder and decoder keep: how a symbol narrows it, and the test and the
-- doubling of a round of `normalize`.
use alice_text.Prelude.{
  ℕ, ◌+◌, ◌-◌, ◌*◌, ◌/◌, ◌<◌, ◌≤◌, ◌≡◌, refl, leb, ltb, ◌&&◌, if◌then◌else◌, arith, ◌⊎◌, Bool-cases,
  ◌≢◌, inl, ltb→lt, inr, leb→le, ltb→ge, leb→gt, suc, ◌^◌, ap,
}
use native.Mathlib.Nat.{
  pow-suc, div-lt_iff_lt-mul, mul-le-mul_right, lt-div-mul-add, div-le_of_le-mul, mul-le-mul_left,
  div-mul-le_self, le-div_iff_mul-le,
}
use alice_text.Coder.{whole, half, quarter, three_quarters}

-- The new bounds of a symbol with the range from `sym_low` to `sym_high`. The products are taken
-- in 128 bits, and the quotients fit into 64.
unfoldable pub narrow_low : ℕ → ℕ → ℕ → ℕ → ℕ
narrow_low low high sym_low total = low + (high - low + 1) * sym_low / total

unfoldable pub narrow_high : ℕ → ℕ → ℕ → ℕ → ℕ
narrow_high low high sym_high total = low + (high - low + 1) * sym_high / total - 1

-- The branches of a round.
pub data Branch : Type 0 where
  lower upper middle stable : Branch

unfoldable pub branch : ℕ → ℕ → Branch
branch low high =
    if ltb high half
    then lower
    else if leb half low
    then upper
    else if leb quarter low && ltb high three_quarters
    then middle
    else stable

-- What is subtracted before the doubling.
unfoldable pub offset : Branch → ℕ
offset lower = 0
offset upper = half
offset middle = quarter
offset stable = 0

abbrev pub scaled_low : ℕ → Branch → ℕ
scaled_low low b = (low - offset b) * 2

abbrev pub scaled_high : ℕ → Branch → ℕ
scaled_high high b = (high - offset b) * 2 + 1

-- A proper interval, with room for `total` symbols.
abbrev pub IsInterval : ℕ → ℕ → Type 0
IsInterval low high = (low ≤ high) × (high < whole)

-- What a branch says of the interval.
abbrev pub InBranch : Branch → ℕ → ℕ → Type 0
InBranch lower low high = high < half
InBranch upper low high = half ≤ low
InBranch middle low high = (quarter ≤ low) × (high < three_quarters) × (low < half) × (half ≤ high)
InBranch stable low high =
    (half ≤ high) × (low < half) × ((low < quarter) ⊎ (three_quarters ≤ high))

pub branch-InBranch : (low high : ℕ) → InBranch (branch low high) low high
unfolding branch
branch-InBranch low high = elim (Bool-cases (ltb high half)) [
  | inl a ↦ rw a (ltb→lt high half a)
  | inr a ↦ elim (Bool-cases (leb half low)) [
    | inl b ↦ rw (a, b) (leb→le half low b)
    | inr b ↦ elim (Bool-cases (leb quarter low)) [
      | inr c ↦ rw (a, b, c) (ltb→ge high half a, leb→gt half low b, inl (leb→gt quarter low c))
      | inl c ↦ elim (Bool-cases (ltb high three_quarters)) [
        | inl d ↦
            rw (a, b, c, d)
              (
                leb→le quarter low c,
                ltb→lt high three_quarters d,
                leb→gt half low b,
                ltb→ge high half a,
              )
        | inr d ↦
            rw (a, b, c, d)
              (ltb→ge high half a, leb→gt half low b, inr (ltb→ge high three_quarters d))
      ]
    ]
  ]
]

-- A round keeps the interval proper and doubles its width.
pub scaled-IsInterval :
    (b : Branch) (low high : ℕ)
    → InBranch b low high
    → b ≢ stable
    → IsInterval low high
    → IsInterval (scaled_low low b) (scaled_high high b)
      × (scaled_high high b + 1 - scaled_low low b ≡ 2 * (high + 1 - low))
unfolding offset
scaled-IsInterval lower low high h n i = (omega arith, omega arith)
scaled-IsInterval upper low high h n i = (omega arith, omega arith)
scaled-IsInterval middle low high h n i = (omega arith, omega arith)
scaled-IsInterval stable low high h n i = absurd (n refl)

-- A stable interval has more than a quarter.
pub stable-width :
    (low high : ℕ) → InBranch stable low high → IsInterval low high → quarter < high + 1 - low
stable-width low high (h, l, inl q) i = omega arith
stable-width low high (h, l, inr q) i = omega arith

-- Enough fuel for the rounds: each doubles the width, and an interval wider than a half is stable.
abbrev pub IsEnough : ℕ → ℕ → ℕ → Type 0
IsEnough fuel low high = half < (high + 1 - low) * 2 ^ fuel

pub IsEnough-zero :
    (low high : ℕ) (b : Branch)
    → InBranch b low high
    → IsInterval low high
    → IsEnough 0 low high
    → b ≡ stable
IsEnough-zero low high lower h i f = absurd (omega arith)
IsEnough-zero low high upper h i f = absurd (omega arith)
IsEnough-zero low high middle h i f = absurd (omega arith)
IsEnough-zero low high stable h i f = refl

pub IsEnough-suc :
    (fuel low high : ℕ) (b : Branch)
    → InBranch b low high
    → b ≢ stable
    → IsInterval low high
    → IsEnough (suc fuel) low high
    → IsEnough fuel (scaled_low low b) (scaled_high high b)
IsEnough-suc fuel low high b h n i f =
    let (next, width) = scaled-IsInterval b low high h n i in
    let doubled : (scaled_high high b + 1 - scaled_low low b) * 2 ^ fuel
        ≡ 2 * (high + 1 - low) * 2 ^ fuel =
      ap (λ (w : ℕ). w * 2 ^ fuel) width in
    let product : (high + 1 - low) * 2 ^ suc fuel ≡ (high + 1 - low) * (2 ^ fuel * 2) =
      ap (λ (t : ℕ). (high + 1 - low) * t) (pow-suc 2 fuel) in
    omega (arith, doubled, product)

-- A proper interval of any width has enough with 32.
pub IsEnough-start : (low high : ℕ) → IsInterval low high → IsEnough 32 low high
IsEnough-start low high i = omega arith

-- What a model promises of a symbol: a range that is not empty, and no more symbols than a quarter.
pub record IsShare (sym_low sym_high total : ℕ) : Type 0 where
  pub nonempty : sym_low < sym_high
  pub inside : sym_high ≤ total
  pub few : total ≤ quarter

-- The two quotients, for an interval of the width `r`.
pub quotients :
    (r sl sh t : ℕ) → IsShare sl sh t → quarter < r → (r * sl / t < r * sh / t) × (r * sh / t ≤ r)
quotients r sl sh t i wide =
    let positive : 0 < t = omega (arith, i.nonempty, i.inside) in
    let product : r * sl + r ≤ r * sh =
      grind (arith, mul-le-mul_left {m = suc sl} {n = sh} r i.nonempty) in
    let upper_product : r * sh ≤ t * r =
      grind (arith, mul-le-mul_left {m = sh} {n = t} r i.inside) in
    let below : r * sl / t * t ≤ r * sl = div-mul-le_self (r * sl) t in
    let next : (r * sl / t + 1) * t ≤ r * sh = grind (arith, i.few) in
    (
      omega (arith, (le-div_iff_mul-le {k = t} {x = r * sl / t + 1} {y = r * sh} positive).1 next),
      div-le_of_le-mul t upper_product,
    )

-- The narrowed interval is proper and lies in the old one.
pub narrow-inside :
    (low high sl sh t : ℕ)
    → IsInterval low high
    → quarter < high + 1 - low
    → IsShare sl sh t
    → (low ≤ narrow_low low high sl t)
      × (narrow_low low high sl t ≤ narrow_high low high sh t)
      × (narrow_high low high sh t ≤ high)
unfolding narrow_low narrow_high
narrow-inside low high sl sh t i wide share =
    let (apart, inside) = quotients (high - low + 1) sl sh t share (omega arith) in
    (omega arith, omega arith, omega arith)

-- The value that the decoder looks up.
unfoldable pub lookup_value : ℕ → ℕ → ℕ → ℕ → ℕ
lookup_value low high code total = ((code - low + 1) * total - 1) / (high - low + 1)

-- A code in the narrowed interval is looked up in the range of the symbol.
pub lookup_value-inside :
    (low high sl sh t code : ℕ)
    → 0 < t
    → narrow_low low high sl t ≤ code
    → code ≤ narrow_high low high sh t
    → low < low + (high - low + 1) * sh / t
    → (sl ≤ lookup_value low high code t) × (lookup_value low high code t < sh)
unfolding narrow_low narrow_high lookup_value
lookup_value-inside low high sl sh t code positive above below some_room =
    let r = high - low + 1 in
    let c = code - low in
    let width : 0 < r = omega arith in
    let first : r * sl < r * sl / t * t + t = lt-div-mul-add {a = r * sl} {b = t} positive in
    let step : (r * sl / t + 1) * t ≤ (c + 1) * t =
      mul-le-mul_right {m = r * sl / t + 1} {n = c + 1} t (omega arith) in
    let last : (c + 1) * t ≤ r * sh / t * t =
      mul-le-mul_right {m = c + 1} {n = r * sh / t} t (omega arith) in
    let bound : r * sh / t * t ≤ r * sh = div-mul-le_self (r * sh) t in
    let low_product : sl * r ≤ (c + 1) * t - 1 = grind arith in
    let high_product : (c + 1) * t - 1 < sh * r = grind arith in
    (
      (le-div_iff_mul-le {k = r} {x = sl} {y = (c + 1) * t - 1} width).1 low_product,
      (div-lt_iff_lt-mul {k = r} {x = (c + 1) * t - 1} {y = sh} width).1 high_product,
    )

pub stable-or : (b : Branch) → (b ≡ stable) ⊎ (b ≢ stable)
stable-or lower = inr (λ e. cc e)
stable-or upper = inr (λ e. cc e)
stable-or middle = inr (λ e. cc e)
stable-or stable = inl refl

-- No two branches hold of a proper interval.
pub branch_unique :
    (b : Branch) (low high : ℕ) → low ≤ high → InBranch b low high → branch low high ≡ b
unfolding branch
branch_unique lower low high i h = ground arith
branch_unique upper low high i h = ground arith
branch_unique middle low high i h = ground arith
branch_unique stable low high i h = ground arith
