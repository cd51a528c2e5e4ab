-- ===== src/Coder/Decoder/Rounds.antt =====
-- `normalize` of the decoder goes through the rounds of a run, and keeps to its bits.
use mathlib.Core.Path.{ap₂, subst}
use alice_text.Prelude.{zero, refl, ℕ, suc, ◌≡◌, ◌≢◌, ◌+◌, ◌*◌, arith, [], ◌∷◌, ap, ◌-◌, sym, ◌∙◌}
use alice_text.Coder.Model.{FrequencyModel}
use alice_text.Coder.Interval.{
  branch_unique, IsEnough, IsEnough-zero, IsEnough-suc, scaled-IsInterval, branch, IsInterval,
  Branch, lower, upper, middle, stable, InBranch, scaled_low, scaled_high, offset,
}
use alice_text.Coder.Stream.{
  Bits, bit, nth, number, number-suc, number-half, stuff, Run, round, emission, emission-stuff,
  round_bits, round-number, done, narrow,
}
use alice_text.Coder.Decoder.{ArithmeticDecoder, scale, List, normalize_from}
use alice_text.Coder.Decoder.Sees.{Sees, shift_in-Sees}

nth-stuff : (m : ℕ) (bs : Bits) → nth (suc (suc m)) (stuff 1 bs) ≡ nth (suc m) bs
nth-stuff m [] = refl
nth-stuff m (b ∷ bs) = refl

pub normalize_from-stable :
    (fuel : ℕ) (d : ArithmeticDecoder) → branch d.low d.high ≡ stable → normalize_from fuel d ≡ d
unfolding normalize_from
normalize_from-stable zero d h = refl
normalize_from-stable (suc fuel) d h = rw (h, normalize_from) refl

pub normalize_from-round :
    (fuel : ℕ) (d : ArithmeticDecoder) (b : Branch)
    → branch d.low d.high ≡ b
    → b ≢ stable
    → normalize_from (suc fuel) d ≡ normalize_from fuel (scale b d)
unfolding normalize_from
normalize_from-round fuel d lower h n = rw (h, normalize_from) refl
normalize_from-round fuel d upper h n = rw (h, normalize_from) refl
normalize_from-round fuel d middle h n = rw (h, normalize_from) refl
normalize_from-round fuel d stable h n = absurd (n refl)

module _ (model : FrequencyModel) where
  round-nth :
      {symbols : List ℕ} {low high : ℕ} (b : Branch)
      → b ≢ stable
      → (r : Run model symbols low high) (rest : Bits) (m : ℕ)
      → nth (suc (suc m)) (round_bits model b 0 (λ q. emission model r q rest))
        ≡ nth (suc m) (emission model r 0 rest)
  round-nth lower n r rest m = refl
  round-nth upper n r rest m = refl
  round-nth middle n r rest m =
      ap (nth (suc (suc m))) (emission-stuff model r 1 rest) ∙ nth-stuff m (emission model r 0 rest)
  round-nth stable n r rest m = absurd (n refl)

  round-later :
      {symbols : List ℕ} {low high : ℕ} (b : Branch)
      → b ≢ stable
      → (r : Run model symbols low high) (rest : Bits) (k : ℕ)
      → nth (31 + k) (emission model r 0 rest)
        ≡ nth (31 + suc k) (round_bits model b 0 (λ q. emission model r q rest))
  round-later b n r rest k =
      let here : 31 + k ≡ suc (30 + k) = omega arith in
      let there : 31 + suc k ≡ suc (suc (30 + k)) = omega arith in
      ap (λ i. nth i (emission model r 0 rest)) here
      ∙ sym (round-nth b n r rest (30 + k))
      ∙ sym (ap (λ i. nth i (round_bits model b 0 (λ q. emission model r q rest))) there)

  -- The decoder is at the start of a run.
  pub record Follows {symbols : List ℕ} {lo hi : ℕ} (r : Run model symbols lo hi) (rest : Bits)
      (d : ArithmeticDecoder) : Type 0 where
    pub sees : Sees 31 d (emission model r 0 rest)
    pub low : d.low ≡ lo
    pub high : d.high ≡ hi

  scale-Follows :
      {symbols : List ℕ} {low high : ℕ} (b : Branch) (n : b ≢ stable) (h : InBranch b low high)
      (r : Run model symbols (scaled_low low b) (scaled_high high b)) (rest : Bits)
      (d : ArithmeticDecoder)
      → Follows (round b n h r) rest d
      → Follows r rest (scale b d)
  unfolding scale emission
  scale-Follows b n h r rest d f =
      let s' = emission model r 0 rest in
      let before = round-number model b n r rest in
      let code : number 31 s'
          ≡ (d.code - offset b) * 2
            + bit (nth 31 (round_bits model b 0 (λ q. emission model r q rest))) =
        omega (
          arith,
          f.sees.code,
          before,
          number-suc 30 s',
          number-half 30 s',
          ap bit (round-nth b n r rest 29),
        ) in
      let (sees, low, high) =
        shift_in-Sees 31 31
          (record d {
            low = scaled_low d.low b;
            high = scaled_high d.high b;
            code = d.code - offset b;
          })
          _ s' f.sees.small f.sees.ahead code (round-later b n r rest) in
      record {
        sees = sees;
        low = low ∙ ap (λ l. scaled_low l b) f.low;
        high = high ∙ ap (λ l. scaled_high l b) f.high;
      }

  -- The decoder after its rounds, at a run whose interval is stable.
  pub record Settled (symbols : List ℕ) (rest : Bits) (d : ArithmeticDecoder) : Type 0 where
    pub lo : ℕ
    pub hi : ℕ
    pub run : Run model symbols lo hi
    pub follows : Follows run rest d
    pub interval : IsInterval lo hi
    pub settled : InBranch stable lo hi

  normalize_from-here :
      {symbols : List ℕ} {low high : ℕ} (fuel : ℕ) (r : Run model symbols low high) (rest : Bits)
      (d : ArithmeticDecoder)
      → Follows r rest d
      → IsInterval low high
      → InBranch stable low high
      → Settled symbols rest (normalize_from fuel d)
  normalize_from-here {low} {high} fuel r rest d f i h =
      let same : branch d.low d.high ≡ stable =
        ap₂ branch f.low f.high ∙ branch_unique stable low high i.0 h in
      subst (Settled _ rest) (sym (normalize_from-stable fuel d same))
        (record { lo = low; hi = high; run = r; follows = f; interval = i; settled = h })

  -- The rounds of the run are the rounds of the loop, which has fuel enough.
  pub normalize_from-Settled :
      {symbols : List ℕ} {low high : ℕ} (fuel : ℕ) (r : Run model symbols low high) (rest : Bits)
      (d : ArithmeticDecoder)
      → Follows r rest d
      → IsInterval low high
      → IsEnough fuel low high
      → Settled symbols rest (normalize_from fuel d)
  normalize_from-Settled fuel (done h) rest d f i e = normalize_from-here fuel (done h) rest d f i h
  normalize_from-Settled fuel (narrow s sl sh q share h r) rest d f i e =
      normalize_from-here fuel (narrow s sl sh q share h r) rest d f i h
  normalize_from-Settled {low} {high} zero (round b n h r) rest d f i e =
      absurd (n (IsEnough-zero low high b h i e))
  normalize_from-Settled {low} {high} (suc fuel) (round b n h r) rest d f i e =
      let same : branch d.low d.high ≡ b =
        ap₂ branch f.low f.high ∙ branch_unique b low high i.0 h in
      subst (Settled _ rest) (sym (normalize_from-round fuel d b same n)) (
        normalize_from-Settled fuel r rest (scale b d) (scale-Follows b n h r rest d f)
          (scaled-IsInterval b low high h n i).0 (IsEnough-suc fuel low high b h n i e))
