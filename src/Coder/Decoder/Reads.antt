-- ===== src/Coder/Decoder/Reads.antt =====
-- What the decoder reads: the bits of the input in their order, and zeros behind them.
use alice_text.Prelude.{
  [], ◌∷◌, ◌%◌, ◌==◌, ◌<◌, ◌≤◌, ℕ, zero, suc, ◌≡◌, refl, length, get_or, false, ◌*◌, ◌++◌, ◌+◌, ◌/◌,
  ◌^◌, ◌-◌, arith, ap, ◌∙◌, Bool-cases, inl, ==_iff, leb→le, inr, sym, leb→gt,
}
use mathlib.Core.Path.{ap₂}
use alice_text.Bytes.{Bytes}
use alice_text.Coder.Stream.{Bits, bit, nth}
use alice_text.Coder.Encoder.Packing.{odd, digits, bytes_bits}
use alice_text.Coder.Decoder.{◌∷◌, ArithmeticDecoder, next_byte, read_bit, leb}

digit-bit : (m : ℕ) → m < 2 → m ≡ bit (m == 1)
digit-bit zero h = refl
digit-bit (suc zero) h = refl
digit-bit (suc (suc m)) h = absurd (omega arith)

bit-odd : (n : ℕ) → n % 2 ≡ bit (odd n)
bit-odd n = digit-bit (n % 2) (omega arith)

-- A byte as eight bits, the highest first.
nth-digits : (b q : ℕ) (rest : Bits) → q < 8 → nth q (digits 8 b ++ rest) ≡ odd (b / 2 ^ (7 - q))
nth-digits b zero rest h = ap odd (omega arith)
nth-digits b (suc zero) rest h = ap odd (omega arith)
nth-digits b (suc (suc zero)) rest h = ap odd (omega arith)
nth-digits b (suc (suc (suc zero))) rest h = ap odd (omega arith)
nth-digits b (suc (suc (suc (suc zero)))) rest h = ap odd (omega arith)
nth-digits b (suc (suc (suc (suc (suc zero))))) rest h = ap odd (omega arith)
nth-digits b (suc (suc (suc (suc (suc (suc zero)))))) rest h = ap odd (omega arith)
nth-digits b (suc (suc (suc (suc (suc (suc (suc zero))))))) rest h = ap odd (omega arith)
nth-digits b (suc (suc (suc (suc (suc (suc (suc (suc q)))))))) rest h = absurd (omega arith)

nth-bytes_bits :
    (bs : Bytes) (p q : ℕ)
    → q < 8
    → p < length bs
    → nth (p * 8 + q) (bytes_bits bs) ≡ odd (get_or bs p 0 / 2 ^ (7 - q))
nth-bytes_bits [] p q h l = absurd (omega arith)
nth-bytes_bits (b ∷ bs) zero q h l =
    let start : 0 * 8 + q ≡ q = omega arith in
    ap (λ i. nth i (bytes_bits (b ∷ bs))) start ∙ nth-digits b q (bytes_bits bs) h
nth-bytes_bits (b ∷ bs) (suc p) q h l =
    let next : suc p * 8 + q ≡ suc (suc (suc (suc (suc (suc (suc (suc (p * 8 + q)))))))) =
      omega arith in
    ap (λ i. nth i (bytes_bits (b ∷ bs))) next ∙ nth-bytes_bits bs p q h (omega (arith, l))

nth-past : (bs : Bytes) (i : ℕ) → length bs * 8 ≤ i → nth i (bytes_bits bs) ≡ false
nth-past [] i h = refl
nth-past (b ∷ bs) i h =
    let eq : i ≡ suc (suc (suc (suc (suc (suc (suc (suc (i - 8)))))))) = omega (arith, h) in
    ap (λ j. nth j (bytes_bits (b ∷ bs))) eq ∙ nth-past bs (i - 8) (omega (arith, h))

-- The place of the next bit.
abbrev pub position : ArithmeticDecoder → ℕ
position d = d.byte_pos * 8 + d.bit_pos

-- A bit was read, and what is left are the bits behind it.
pub record Reads (d : ArithmeticDecoder) (got : ℕ) (d' : ArithmeticDecoder) : Type 0 where
  pub value : got ≡ bit (nth (position d) (bytes_bits d.input))
  pub small : d'.bit_pos < 8
  pub low : d'.low ≡ d.low
  pub high : d'.high ≡ d.high
  pub code : d'.code ≡ d.code
  pub input : d'.input ≡ d.input
  pub later :
      (k : ℕ)
      → nth (position d' + k) (bytes_bits d'.input) ≡ nth (position d + suc k) (bytes_bits d.input)

next_byte-place :
    (d : ArithmeticDecoder)
    → d.bit_pos ≤ 8
    → ((next_byte d).bit_pos < 8)
      × (position (next_byte d) ≡ position d)
      × ((next_byte d).low ≡ d.low)
      × ((next_byte d).high ≡ d.high)
      × ((next_byte d).code ≡ d.code)
      × ((next_byte d).input ≡ d.input)
unfolding next_byte
next_byte-place d h = elim (Bool-cases (d.bit_pos == 8)) [
  | inl full ↦
      let e = (==_iff d.bit_pos 8).0 full in
      rw full (omega arith, omega (arith, e), refl, refl, refl, refl)
  | inr more ↦ rw more (ground arith, refl, refl, refl, refl, refl)
]

pub read_bit-Reads : (d : ArithmeticDecoder) → d.bit_pos < 8 → Reads d (read_bit d).0 (read_bit d).1
unfolding read_bit
read_bit-Reads d h = elim (Bool-cases (leb (length d.input) d.byte_pos)) [
  | inl past ↦
      let behind = leb→le (length d.input) d.byte_pos past in
      rw past (record {
        value = sym (ap bit (nth-past d.input (position d) (omega (arith, behind))));
        small = h;
        low = refl;
        high = refl;
        code = refl;
        input = refl;
        later = λ k.
            nth-past d.input (position d + k) (omega (arith, behind))
            ∙ sym (nth-past d.input (position d + suc k) (omega (arith, behind)));
      })
  | inr inside ↦
      let before = leb→gt (length d.input) d.byte_pos inside in
      let (small, same, low, high, code, input) =
        next_byte-place (record d { bit_pos = d.bit_pos + 1 }) (omega arith) in
      rw inside (record {
        value = bit-odd _ ∙ ap bit (sym (nth-bytes_bits d.input d.byte_pos d.bit_pos h before));
        small = small;
        low = low;
        high = high;
        code = code;
        input = input;
        later = λ k. ap₂ (λ i bs. nth i (bytes_bits bs)) (omega (arith, same)) input;
      })
]
