-- ===== src/Coder/Stream.antt =====
-- The bits of a run. A run is what encoder and decoder go through together: rounds of `normalize`
-- and narrowings by symbols. The bits it gives, without pending ones, are a number in the interval.
use alice_text.Prelude.{
  ℕ, zero, suc, ◌+◌, ◌*◌, ◌/◌, ◌^◌, ◌<◌, ◌≤◌, ◌≡◌, ◌≢◌, refl, sym, ap, ◌∙◌, inl, inr, List, [], ◌∷◌,
  ◌++◌, Bool, true, false, not, ltb, some, replicate, arith, ltb→lt, ltb→ge,
}
use native.Mathlib.Nat.{pow-suc}
use mathlib.Core.List.{append-nil}
use alice_text.Coder.Interval.{
  IsInterval, offset, scaled-IsInterval, narrow-inside, stable-width, narrow_low, narrow_high,
  Branch, lower, upper, middle, stable, InBranch, IsShare, scaled_low, scaled_high,
}
use alice_text.Coder.{quarter}
use alice_text.Coder.Model.{FrequencyModel, get_range}

abbrev pub Bits : Type 0
Bits = List Bool

abbrev pub bit : Bool → ℕ
bit false = 0
bit true = 1

-- The number of the first bits, with zeros behind the last.
abbrev pub number : ℕ → Bits → ℕ
number zero bs = 0
number (suc n) [] = 0
number (suc n) (b ∷ bs) = bit b * 2 ^ n + number n bs

abbrev pub nth : ℕ → Bits → Bool
nth n [] = false
nth zero (b ∷ bs) = b
nth (suc n) (b ∷ bs) = nth n bs

pub number-suc : (n : ℕ) (bs : Bits) → number (suc n) bs ≡ 2 * number n bs + bit (nth n bs)
number-suc zero [] = refl
number-suc zero (false ∷ bs) = refl
number-suc zero (true ∷ bs) = refl
number-suc (suc n) [] = refl
number-suc (suc n) (false ∷ bs) = omega (arith, number-suc n bs)
number-suc (suc n) (true ∷ bs) = omega (arith, number-suc n bs, pow-suc 2 n)

pub bit-le : (b : Bool) → bit b ≤ 1
bit-le false = omega arith
bit-le true = omega arith

pub number-half : (n : ℕ) (bs : Bits) → number n bs ≡ number (suc n) bs / 2
number-half n bs = omega (arith, number-suc n bs, bit-le (nth n bs))

-- A bit with `p` opposite ones behind it; a missing bit is a zero.
abbrev pub stuff : ℕ → Bits → Bits
stuff p [] = false ∷ replicate p true
stuff p (b ∷ bs) = b ∷ (replicate p (not b) ++ bs)

replicate-shift :
    (p : ℕ) (b : Bool) (bs : Bits) → replicate p b ++ b ∷ bs ≡ replicate (suc p) b ++ bs
replicate-shift zero b bs = refl
replicate-shift (suc p) b bs = ap (λ r. b ∷ r) (replicate-shift p b bs)

stuff-stuff : (p : ℕ) (bs : Bits) → stuff p (stuff 1 bs) ≡ stuff (suc p) bs
stuff-stuff p [] = ap (λ r. false ∷ r) (replicate-shift p true [] ∙ append-nil _)
stuff-stuff p (b ∷ bs) = ap (λ r. b ∷ r) (replicate-shift p (not b) bs)

-- One pending bit stands for a quarter, before the doubling.
number-stuff : (bs : Bits) → number 31 (stuff 1 bs) ≡ quarter + number 31 bs / 2
number-stuff [] = refl
number-stuff (false ∷ bs) = omega (arith, number-half 29 bs)
number-stuff (true ∷ bs) = omega (arith, number-half 29 bs)

pub number-lt : (n : ℕ) (bs : Bits) → number n bs < 2 ^ n
number-lt zero bs = omega arith
number-lt (suc n) [] = omega (arith, pow-suc 2 n, number-lt n [])
number-lt (suc n) (false ∷ bs) = omega (arith, pow-suc 2 n, number-lt n bs)
number-lt (suc n) (true ∷ bs) = omega (arith, pow-suc 2 n, number-lt n bs)

-- What the number of the bits after a round says of the number before it.
round-inside :
    (b : Branch) (low high before after : ℕ)
    → b ≢ stable
    → InBranch b low high
    → IsInterval low high
    → before ≡ offset b + after / 2
    → scaled_low low b ≤ after
    → after ≤ scaled_high high b
    → (low ≤ before) × (before ≤ high)
unfolding offset
round-inside lower low high before after n h i e above below = (omega arith, omega arith)
round-inside upper low high before after n h i e above below = (omega arith, omega arith)
round-inside middle low high before after n h i e above below = (omega arith, omega arith)
round-inside stable low high before after n h i e above below = absurd (n refl)

-- The bits of `finish`.
abbrev pub final : Bool → ℕ → Bits → Bits
final true p rest = false ∷ (replicate (suc p) true ++ rest)
final false p rest = true ∷ (replicate (suc p) false ++ rest)

module _ (model : FrequencyModel) where
  pub data Run : List ℕ → ℕ → ℕ → Type 0 where
    done : {low high : ℕ} → InBranch stable low high → Run [] low high
    round :
        {symbols : List ℕ} {low high : ℕ} (b : Branch)
        → b ≢ stable
        → InBranch b low high
        → Run symbols (scaled_low low b) (scaled_high high b)
        → Run symbols low high
    narrow :
        {symbols : List ℕ} {low high : ℕ} (s sl sh : ℕ)
        → get_range model s ≡ some (sl, sh, model.total)
        → IsShare sl sh model.total
        → InBranch stable low high
        → Run symbols (narrow_low low high sl model.total) (narrow_high low high sh model.total)
        → Run (s ∷ symbols) low high

  -- What is output for a round, with `p` bits pending, and the bits pending after it.
  abbrev pub round_bits : Branch → ℕ → (ℕ → Bits) → Bits
  round_bits lower p more = false ∷ (replicate p true ++ more 0)
  round_bits upper p more = true ∷ (replicate p false ++ more 0)
  round_bits middle p more = more (suc p)
  round_bits stable p more = more p

  unfoldable pub emission :
      {symbols : List ℕ} {low high : ℕ} → Run symbols low high → ℕ → Bits → Bits
  emission {low} (done h) p rest = final (ltb low quarter) p rest
  emission (round b n h r) p rest = round_bits b p (λ q. emission r q rest)
  emission (narrow s sl sh e share h r) p rest = emission r p rest

  -- Pending bits are stuffed behind the first bit.
  pub emission-stuff :
      {symbols : List ℕ} {low high : ℕ} (r : Run symbols low high) (p : ℕ) (rest : Bits)
      → emission r p rest ≡ stuff p (emission r 0 rest)
  unfolding emission
  emission-stuff {low} (done h) p rest = final-stuff (ltb low quarter)
    where
      final-stuff : (b : Bool) → final b p rest ≡ stuff p (final b 0 rest)
      final-stuff true = ap (λ r. false ∷ r) (sym (replicate-shift p true rest))
      final-stuff false = ap (λ r. true ∷ r) (sym (replicate-shift p false rest))
  emission-stuff (round lower n h r) p rest = refl
  emission-stuff (round upper n h r) p rest = refl
  emission-stuff (round middle n h r) p rest =
      emission-stuff r (suc p) rest
      ∙ sym (stuff-stuff p (emission r 0 rest))
      ∙ ap (stuff p) (sym (emission-stuff r 1 rest))
  emission-stuff (round stable n h r) p rest = absurd (n refl)
  emission-stuff (narrow s sl sh e share h r) p rest = emission-stuff r p rest

  final-inside :
      (b : Bool) (low high : ℕ) (rest : Bits)
      → InBranch stable low high
      → ltb low quarter ≡ b
      → (low ≤ number 31 (final b 0 rest)) × (number 31 (final b 0 rest) ≤ high)
  final-inside true low high rest (h, l, o) e =
      let small : low < quarter = ltb→lt low quarter e in
      (omega arith, omega (arith, number-lt 29 rest))
  final-inside false low high rest (h, l, inl q) e = absurd (omega (arith, ltb→ge low quarter e))
  final-inside false low high rest (h, l, inr q) e = (omega arith, omega (arith, number-lt 29 rest))

  -- A round takes off what is subtracted, and doubles.
  pub round-number :
      {symbols : List ℕ} {low high : ℕ} (b : Branch)
      → b ≢ stable
      → (r : Run symbols low high) (rest : Bits)
      → number 31 (round_bits b 0 (λ q. emission r q rest))
        ≡ offset b + number 31 (emission r 0 rest) / 2
  unfolding offset
  round-number lower n r rest = omega (arith, number-half 30 (emission r 0 rest))
  round-number upper n r rest = omega (arith, number-half 30 (emission r 0 rest))
  round-number middle n r rest =
      ap (number 31) (emission-stuff r 1 rest) ∙ number-stuff (emission r 0 rest)
  round-number stable n r rest = absurd (n refl)

  -- With no bit pending, the bits of a run are a number in the interval.
  pub emission-inside :
      {symbols : List ℕ} {low high : ℕ} (r : Run symbols low high) (rest : Bits)
      → IsInterval low high
      → (low ≤ number 31 (emission r 0 rest)) × (number 31 (emission r 0 rest) ≤ high)
  unfolding emission
  emission-inside {low} {high} (done h) rest i = final-inside (ltb low quarter) low high rest h refl
  emission-inside {low} {high} (round b n h r) rest i =
      let (next, width) = scaled-IsInterval b low high h n i in
      let (above, below) = emission-inside r rest next in
      round-inside b low high _ (number 31 (emission r 0 rest)) n h i (round-number b n r rest)
        above below
  emission-inside {low} {high} (narrow s sl sh e share h r) rest i =
      let (above, proper, below) =
        narrow-inside low high sl sh model.total i (stable-width low high h i) share in
      let (above', below') = emission-inside r rest (proper, omega (arith, below, i)) in
      (omega (arith, above, above'), omega (arith, below, below'))
