-- ===== src/Coder/Decoder/Sees.antt =====
-- The decoder's code as the number of the first bits of a stream, and its input as what follows.
use alice_text.Prelude.{ℕ, zero, suc, ◌≡◌, refl, ◌+◌, ◌*◌, arith, ◌<◌, ap, ◌-◌, ◌∙◌, sym}
use mathlib.Core.Path.{subst}
use alice_text.Bytes.{Bytes}
use alice_text.Coder.{whole}
use alice_text.Coder.Stream.{Bits, bit, nth, number, number-suc}
use alice_text.Coder.Encoder.Packing.{bytes_bits}
use alice_text.Coder.Decoder.{ArithmeticDecoder, shift_in, shift_many, new}
use alice_text.Coder.Decoder.Reads.{position, read_bit-Reads}

-- The bits of the stream from the place `m` on are those that are left to read.
abbrev pub IsAhead : ℕ → ArithmeticDecoder → Bits → Type 0
IsAhead m d s = (k : ℕ) → nth (m + k) s ≡ nth (position d + k) (bytes_bits d.input)

pub record Sees (m : ℕ) (d : ArithmeticDecoder) (s : Bits) : Type 0 where
  pub small : d.bit_pos < 8
  pub code : d.code ≡ number m s
  pub ahead : IsAhead m d s

-- Shifting a bit in, for a stream `s'` that begins later.
pub shift_in-Sees :
    (m m' : ℕ) (d : ArithmeticDecoder) (s s' : Bits)
    → d.bit_pos < 8
    → IsAhead m d s
    → number m' s' ≡ d.code * 2 + bit (nth m s)
    → ((k : ℕ) → nth (m' + k) s' ≡ nth (m + suc k) s)
    → Sees m' (shift_in d) s' × ((shift_in d).low ≡ d.low) × ((shift_in d).high ≡ d.high)
unfolding shift_in
shift_in-Sees m m' d s s' small ahead code later =
    let reads = read_bit-Reads d small in
    let here : nth m s ≡ nth (position d) (bytes_bits d.input) =
      ap (λ i. nth i s) (omega arith)
      ∙ ahead 0
      ∙ ap (λ i. nth i (bytes_bits d.input)) (omega arith) in
    (
      record {
        small = reads.small;
        code = omega (arith, code, reads.value, ap bit here);
        ahead = λ k. later k ∙ ahead (suc k) ∙ sym (reads.later k);
      },
      reads.low,
      reads.high,
    )

shift_many-Sees :
    (n m : ℕ) (d : ArithmeticDecoder) (s : Bits)
    → Sees m d s
    → Sees (m + n) (shift_many n d) s
      × ((shift_many n d).low ≡ d.low)
      × ((shift_many n d).high ≡ d.high)
unfolding shift_many
shift_many-Sees zero m d s sees = (subst (λ i. Sees i d s) (omega arith) sees, refl, refl)
shift_many-Sees (suc n) m d s sees =
    let place : (k : ℕ) → suc m + k ≡ m + suc k = λ k. omega arith in
    let (sees', low, high) =
      shift_in-Sees m (suc m) d s s sees.small sees.ahead (omega (arith, number-suc m s, sees.code))
        (λ k. ap (λ i. nth i s) (place k)) in
    let (sees'', low', high') = shift_many-Sees n (suc m) (shift_in d) s sees' in
    (
      subst (λ i. Sees i (shift_many n (shift_in d)) s) (omega arith) sees'',
      low' ∙ low,
      high' ∙ high,
    )

-- `new` reads the first 31 bits.
pub new-Sees :
    (bytes : Bytes)
    → Sees 31 (new bytes) (bytes_bits bytes)
      × ((new bytes).low ≡ 0)
      × ((new bytes).high ≡ whole - 1)
unfolding new
new-Sees bytes =
    shift_many-Sees 31 0
      (record { low = 0; high = whole - 1; code = 0; input = bytes; byte_pos = 0; bit_pos = 0 })
      (bytes_bits bytes)
      (record {
        small = omega arith;
        code = refl;
        ahead = λ k. ap (λ i. nth i (bytes_bits bytes)) (omega arith);
      })
