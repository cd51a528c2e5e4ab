-- ===== src/Coder/Fuel.antt =====
-- The loops of `normalize` end: 32 rounds of fuel are enough for every proper interval.
use alice_text.Prelude.{ℕ, zero, suc, ◌≡◌, ◌≤◌, refl, arith, inl, inr}
use alice_text.Coder.Interval.{
  branch, stable, stable-or, branch-InBranch, IsInterval, IsEnough, IsEnough-zero, IsEnough-suc,
  IsEnough-start, scaled-IsInterval,
}
use alice_text.Coder.Encoder
use alice_text.Coder.Decoder
use alice_text.Coder.Encoder.{ArithmeticEncoder, fuel, output_branch}
use alice_text.Coder.Encoder.Packing.{IsPacked}
use alice_text.Coder.Encoder.Writes.{
  normalize_from-stable, normalize_from-round, output_branch-Bounds,
}
use alice_text.Coder.Decoder.{ArithmeticDecoder}
use alice_text.Coder.Decoder.Code.{IsValid, normalize_from-IsValid}

-- The encoder's loop settles, and more fuel changes nothing.
normalize_from-settles :
    (fuel more : ℕ) (e : ArithmeticEncoder)
    → fuel ≤ more
    → IsPacked e
    → IsInterval e.low e.high
    → IsEnough fuel e.low e.high
    → (branch (Encoder.normalize_from fuel e).low (Encoder.normalize_from fuel e).high ≡ stable)
      × (Encoder.normalize_from more e ≡ Encoder.normalize_from fuel e)
normalize_from-settles zero more e le packed interval enough =
    let h = IsEnough-zero e.low e.high _ (branch-InBranch e.low e.high) interval enough in
    rw (normalize_from-stable zero e h, normalize_from-stable more e h) (h, refl)
normalize_from-settles (suc fuel) zero e le packed interval enough = absurd (omega arith)
normalize_from-settles (suc fuel) (suc more) e le packed interval enough =
    let b = branch e.low e.high in
    let inside = branch-InBranch e.low e.high in
    elim (stable-or b) [
      | inl h ↦
          rw (normalize_from-stable (suc fuel) e h, normalize_from-stable (suc more) e h) (h, refl)
      | inr n ↦
          let (packed', low, high) = output_branch-Bounds b e n packed in
          let next = (scaled-IsInterval b e.low e.high inside n interval).0 in
          let rest = IsEnough-suc fuel e.low e.high b inside n interval enough in
          rw (normalize_from-round fuel e b refl n, normalize_from-round more e b refl n)
            (normalize_from-settles fuel more (Encoder.scale b (output_branch b e)) (omega arith)
              packed' (rw (low, high) next) (rw (low, high) rest))
    ]

-- For an encoder whose interval is proper and whose byte is not full, `normalize` ends where no
-- further round is due, and any fuel from 32 on gives the same.
pub normalize-settles :
    (more : ℕ) (e : ArithmeticEncoder)
    → 32 ≤ more
    → IsPacked e
    → IsInterval e.low e.high
    → (branch (Encoder.normalize e).low (Encoder.normalize e).high ≡ stable)
      × (Encoder.normalize_from more e ≡ Encoder.normalize e)
unfolding Encoder.normalize
normalize-settles more e le packed interval =
    normalize_from-settles fuel more e le packed interval (IsEnough-start e.low e.high interval)

-- For a decoder whose code is in its proper interval, `normalize` ends where no further round is
-- due, with the code in the interval, and any fuel from 32 on gives the same.
pub normalize-IsValid :
    (more : ℕ) (d : ArithmeticDecoder)
    → 32 ≤ more
    → IsValid d
    → IsValid (Decoder.normalize d)
      × (branch (Decoder.normalize d).low (Decoder.normalize d).high ≡ stable)
      × (Decoder.normalize_from more d ≡ Decoder.normalize d)
unfolding Decoder.normalize
normalize-IsValid more d le valid =
    normalize_from-IsValid fuel more d le valid (IsEnough-start d.low d.high valid.interval)
