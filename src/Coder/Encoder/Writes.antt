-- ===== src/Coder/Encoder/Writes.antt =====
-- What the encoder writes for the symbols that are left: the bits of a run, with zeros behind them.
use alice_text.Prelude.{
  ℕ, zero, suc, ◌≡◌, refl, List, ◌++◌, ◌≢◌, ◌∙◌, ap, arith, sym, inl, inr, ◌≤◌, ◌+◌, ◌<◌, ◌^◌,
}
use mathlib.Core.Path.{subst, ap₂}
use mathlib.Core.List.{append_assoc}
use alice_text.Bytes.{Bytes}
use alice_text.Coder.Model.{FrequencyModel}
use alice_text.Coder.Stream.{Bits, Run, emission, round, round_bits}
use alice_text.Coder.Encoder.{normalize_from, ArithmeticEncoder, output_branch, scale, suc}
use alice_text.Coder.Interval.{
  stable-or, IsInterval, IsEnough, branch, Branch, lower, upper, middle, stable, InBranch,
  scaled_low, scaled_high, branch-InBranch, IsEnough-zero, scaled-IsInterval, IsEnough-suc,
}
use alice_text.Coder.Encoder.Packing.{bytes_bits, written, IsPacked, output_pending-Puts}

-- The output of a round changes neither bound.
pub output_branch-Bounds :
    (b : Branch) (e : ArithmeticEncoder)
    → b ≢ stable
    → IsPacked e
    → IsPacked (output_branch b e)
      × ((output_branch b e).low ≡ e.low)
      × ((output_branch b e).high ≡ e.high)
unfolding output_branch
output_branch-Bounds lower e n h =
    let puts = (output_pending-Puts 0 1 e h).0 in (puts.packed, puts.low, puts.high)
output_branch-Bounds upper e n h =
    let puts = (output_pending-Puts 1 0 e h).0 in (puts.packed, puts.low, puts.high)
output_branch-Bounds middle e n h = (h, refl, refl)
output_branch-Bounds stable e n h = absurd (n refl)

-- A round leaves at most one more bit pending.
pub pending_bits-output_branch :
    (b : Branch) (e : ArithmeticEncoder)
    → b ≢ stable
    → IsPacked e
    → (output_branch b e).pending_bits ≤ e.pending_bits + 1
unfolding output_branch
pending_bits-output_branch lower e n h = omega (arith, (output_pending-Puts 0 1 e h).1)
pending_bits-output_branch upper e n h = omega (arith, (output_pending-Puts 1 0 e h).1)
pending_bits-output_branch middle e n h = omega arith
pending_bits-output_branch stable e n h = absurd (n refl)

module _ (model : FrequencyModel) where
  -- A run at equal bounds gives the same bits.
  Run-cast :
      (symbols : List ℕ) (low low' high high' : ℕ) (r : Run model symbols low high)
      → low ≡ low'
      → high ≡ high'
      → (r' : Run model symbols low' high') × ((p : ℕ) (rest : Bits)
          → emission model r' p rest ≡ emission model r p rest)
  Run-cast symbols low low' high high' r e f =
      subst
        (λ l.
          (r' : Run model symbols l high') × ((p : ℕ) (rest : Bits)
            → emission model r' p rest ≡ emission model r p rest))
        e
        (subst
          (λ h.
            (r' : Run model symbols low h) × ((p : ℕ) (rest : Bits)
              → emission model r' p rest ≡ emission model r p rest))
          f (r, λ p rest. refl))

  -- The bits of the final bytes, seen from a state of the encoder.
  abbrev pub Writes : List ℕ → ArithmeticEncoder → Bytes → Type 0
  Writes symbols e bytes =
      (r : Run model symbols e.low e.high) × (rest : Bits) × (bytes_bits bytes
        ≡ written e ++ emission model r e.pending_bits rest)

  -- A round puts out its bits.
  output_branch-bits :
      (b : Branch) (e : ArithmeticEncoder) (more : ℕ → Bits)
      → b ≢ stable
      → IsPacked e
      → e.pending_bits + 1 < 2 ^ 32
      → (written (output_branch b e) ++ more (output_branch b e).pending_bits
          ≡ written e ++ round_bits model b e.pending_bits more)
  unfolding output_branch
  output_branch-bits lower e more n h few =
      let (puts, none_left) = output_pending-Puts 0 1 e h in
      ap₂ (λ x q. x ++ more q) puts.bits none_left ∙ append_assoc (written e) _ (more 0)
  output_branch-bits upper e more n h few =
      let (puts, none_left) = output_pending-Puts 1 0 e h in
      ap₂ (λ x q. x ++ more q) puts.bits none_left ∙ append_assoc (written e) _ (more 0)
  output_branch-bits middle e more n h few = ap (λ q. written e ++ more q) (omega arith)
  output_branch-bits stable e more n h few = absurd (n refl)

  -- What is written after a round is written before it, its bits first.
  round-Writes :
      (b : Branch) (e : ArithmeticEncoder) (symbols : List ℕ) (bytes : Bytes)
      → b ≢ stable
      → InBranch b e.low e.high
      → IsPacked e
      → e.pending_bits + 1 < 2 ^ 32
      → Writes symbols (scale b (output_branch b e)) bytes
      → Writes symbols e bytes
  unfolding emission
  round-Writes b e symbols bytes n h packed few (r, rest, bits) =
      let o = output_branch b e in
      let (packed', low, high) = output_branch-Bounds b e n packed in
      let (r', agree) =
        Run-cast symbols _ _ _ _ r (ap (λ l. scaled_low l b) low)
          (ap (λ l. scaled_high l b) high) in
      let same' = output_branch-bits b e (λ q. emission model r' q rest) n packed few in
      (
        round b n h r',
        rest,
        bits ∙ ap (λ x. written o ++ x) (sym (agree o.pending_bits rest)) ∙ same',
      )

-- An encoder between two symbols.
pub record IsReady (e : ArithmeticEncoder) : Type 0 where
  pub packed : IsPacked e
  pub interval : IsInterval e.low e.high
  pub settled : InBranch stable e.low e.high

pub normalize_from-stable :
    (fuel : ℕ) (e : ArithmeticEncoder) → branch e.low e.high ≡ stable → normalize_from fuel e ≡ e
unfolding normalize_from
normalize_from-stable zero e h = refl
normalize_from-stable (suc fuel) e h = rw (h, normalize_from) refl

pub normalize_from-round :
    (fuel : ℕ) (e : ArithmeticEncoder) (b : Branch)
    → branch e.low e.high ≡ b
    → b ≢ stable
    → normalize_from (suc fuel) e ≡ normalize_from fuel (scale b (output_branch b e))
unfolding normalize_from
normalize_from-round fuel e lower h n = rw (h, normalize_from) refl
normalize_from-round fuel e upper h n = rw (h, normalize_from) refl
normalize_from-round fuel e middle h n = rw (h, normalize_from) refl
normalize_from-round fuel e stable h n = absurd (n refl)

-- What some rounds of the loop of `normalize` do of an encoder.
abbrev pub Settles : FrequencyModel → ℕ → ArithmeticEncoder → ArithmeticEncoder → Type 0
Settles model rounds e e' =
    IsReady e'
    × (e'.pending_bits ≤ e.pending_bits + rounds)
    × ((symbols : List ℕ) (bytes : Bytes)
        → Writes model symbols e' bytes
        → Writes model symbols e bytes)

-- The loop settles before its fuel ends, with no more new pending bits than fuel, and what is
-- written behind it is written before it.
pub normalize_from-Settles :
    (model : FrequencyModel) (fuel : ℕ) (e : ArithmeticEncoder)
    → IsPacked e
    → IsInterval e.low e.high
    → IsEnough fuel e.low e.high
    → e.pending_bits + fuel < 2 ^ 32
    → Settles model fuel e (normalize_from fuel e)
normalize_from-Settles model zero e packed interval enough few =
    let inside = branch-InBranch e.low e.high in
    let h = IsEnough-zero e.low e.high _ inside interval enough in
    subst (Settles model 0 e) (sym (normalize_from-stable zero e h)) (
      record {
        packed = packed;
        interval = interval;
        settled = subst (λ b. InBranch b e.low e.high) h inside;
      },
      omega arith,
      λ symbols bytes w. w,
    )
normalize_from-Settles model (suc fuel) e packed interval enough few =
    let b = branch e.low e.high in
    let inside = branch-InBranch e.low e.high in
    elim (stable-or b) [
      | inl h ↦ subst (Settles model (suc fuel) e) (sym (normalize_from-stable (suc fuel) e h)) (
        record {
          packed = packed;
          interval = interval;
          settled = subst (λ b. InBranch b e.low e.high) h inside;
        },
        omega arith,
        λ symbols bytes w. w,
      )
      | inr n ↦
          let o = output_branch b e in
          let (packed', low, high) = output_branch-Bounds b e n packed in
          let next = (scaled-IsInterval b e.low e.high inside n interval).0 in
          let one = pending_bits-output_branch b e n packed in
          let more = IsEnough-suc fuel e.low e.high b inside n interval enough in
          let (ready, pending, writes) =
            normalize_from-Settles model fuel (scale b o) packed'
              (subst (λ i. IsInterval (scaled_low i b) (scaled_high o.high b)) (sym low)
                (subst (λ i. IsInterval (scaled_low e.low b) (scaled_high i b)) (sym high) next))
              (subst (λ i. IsEnough fuel (scaled_low i b) (scaled_high o.high b)) (sym low)
                (subst (λ i. IsEnough fuel (scaled_low e.low b) (scaled_high i b)) (sym high) more))
              (omega (arith, one, few)) in
          subst (Settles model (suc fuel) e) (sym (normalize_from-round fuel e b refl n)) (
            ready,
            omega (arith, one, pending),
            λ symbols bytes w.
                round-Writes model b e symbols bytes n inside packed (omega (arith, few))
                  (writes symbols bytes w),
          )
    ]
