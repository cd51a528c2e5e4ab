-- ===== src/Coder/Encoder/Packing.antt =====
-- The output of the encoder as bits: `output_bit` adds one, and `flush` pads with zeros.
use alice_text.Prelude.{
  ℕ, zero, suc, ◌+◌, ◌-◌, ◌*◌, ◌/◌, ◌%◌, ◌^◌, ◌<◌, ◌≤◌, ◌≡◌, refl, sym, ap, ◌∙◌, inl, inr, [], ◌∷◌,
  ◌++◌, Bool, false, ltb, ◌==◌, ==_iff, replicate, arith, Bool-cases, ltb→ge,
}
use native.Mathlib.Nat.{
  pow-suc, pow-le-pow_right, mod-eq_of_lt, mul-lt-mul_of_pos_right, one-le-pow,
}
use mathlib.Core.Path.{ap₂, subst}
use mathlib.Core.List.{append-nil, append_assoc}
use alice_text.Bytes.{Bytes}
use alice_text.Coder.Stream.{Bits}
use alice_text.Coder.Encoder.{
  ArithmeticEncoder, output_bit, push_full, drain, output_pending, flush,
}

abbrev pub odd : ℕ → Bool
odd n = n % 2 == 1

-- The last `w` binary digits.
abbrev pub digits : ℕ → ℕ → Bits
digits zero n = []
digits (suc w) n = digits w (n / 2) ++ odd n ∷ []

abbrev pub bytes_bits : Bytes → Bits
bytes_bits [] = []
bytes_bits (b ∷ bs) = digits 8 b ++ bytes_bits bs

bytes_bits-snoc : (bs : Bytes) (b : ℕ) → bytes_bits (bs ++ b ∷ []) ≡ bytes_bits bs ++ digits 8 b
bytes_bits-snoc [] b = append-nil (digits 8 b)
bytes_bits-snoc (c ∷ bs) b =
    ap (λ r. digits 8 c ++ r) (bytes_bits-snoc bs b)
    ∙ sym (append_assoc (digits 8 c) (bytes_bits bs) (digits 8 b))

-- The bits that were output: those of the full bytes, and those of the byte that is not full.
abbrev pub written : ArithmeticEncoder → Bits
written e = bytes_bits e.output ++ digits e.bits_in_byte e.current_byte

abbrev pub IsPacked : ArithmeticEncoder → Type 0
IsPacked e = (e.bits_in_byte < 8) × (e.current_byte < 2 ^ e.bits_in_byte)

-- What a step that outputs the bits `bs` leaves of the encoder.
pub record Puts (e : ArithmeticEncoder) (bs : Bits) (f : ArithmeticEncoder) : Type 0 where
  pub packed : IsPacked f
  pub bits : written f ≡ written e ++ bs
  pub low : f.low ≡ e.low
  pub high : f.high ≡ e.high

digits-double : (w n b : ℕ) → digits (suc w) (n * 2 + b % 2) ≡ digits w n ++ odd b ∷ []
digits-double w n b =
    ap₂ (λ m c. digits w m ++ c ∷ []) (omega arith) (ap (λ r. r == 1) (omega arith))

push_full-Puts :
    (e : ArithmeticEncoder)
    → e.bits_in_byte ≤ 8
    → e.current_byte < 2 ^ e.bits_in_byte
    → Puts e [] (push_full e) × ((push_full e).pending_bits ≡ e.pending_bits)
unfolding push_full
push_full-Puts e small fits = elim (Bool-cases (e.bits_in_byte == 8)) [
  | inl full ↦
      let eight = (==_iff e.bits_in_byte 8).0 full in
      rw full (
        record {
          packed = (omega arith, omega arith);
          bits =
              append-nil _
              ∙ bytes_bits-snoc e.output e.current_byte
              ∙ ap (λ k. bytes_bits e.output ++ digits k e.current_byte) (sym eight)
              ∙ sym (append-nil _);
          low = refl;
          high = refl;
        },
        refl,
      )
  | inr more ↦ rw more (
    record { packed = (ground arith, fits); bits = sym (append-nil _); low = refl; high = refl },
    refl,
  )
]

pub output_bit-Puts :
    (b : ℕ) (e : ArithmeticEncoder)
    → IsPacked e
    → Puts e (odd b ∷ []) (output_bit b e) × ((output_bit b e).pending_bits ≡ e.pending_bits)
unfolding output_bit
output_bit-Puts b e (small, fits) =
    let room : 2 ^ suc e.bits_in_byte ≤ 256 =
      pow-le-pow_right {n = 2} (omega arith) {i = suc e.bits_in_byte} {j = 8} (omega arith) in
    let exact : (e.current_byte * 2 + b % 2) % 256 ≡ e.current_byte * 2 + b % 2 =
      mod-eq_of_lt (omega (arith, pow-suc 2 e.bits_in_byte)) in
    let next : e.bits_in_byte + 1 ≡ suc e.bits_in_byte = omega arith in
    let longer = record e {
      current_byte = (e.current_byte * 2 + b % 2) % 256;
      bits_in_byte = e.bits_in_byte + 1;
    } in
    let (puts, pending) =
      push_full-Puts longer (omega arith)
        (omega (arith, exact, pow-suc 2 e.bits_in_byte, ap (λ k. 2 ^ k) next)) in
    (
      record {
        packed = puts.packed;
        bits =
            puts.bits
            ∙ append-nil _
            ∙ ap (λ r. bytes_bits e.output ++ r)
                (ap₂ digits next exact ∙ digits-double e.bits_in_byte e.current_byte b)
            ∙ sym (append_assoc (bytes_bits e.output) _ _);
        low = puts.low;
        high = puts.high;
      },
      pending,
    )

Puts-trans :
    (e f g : ArithmeticEncoder) (bs cs : Bits) → Puts e bs f → Puts f cs g → Puts e (bs ++ cs) g
Puts-trans e f g bs cs p q = record {
  packed = q.packed;
  bits = q.bits ∙ ap (λ r. r ++ cs) p.bits ∙ append_assoc (written e) bs cs;
  low = q.low ∙ p.low;
  high = q.high ∙ p.high;
}

drain-Puts :
    (b n : ℕ) (e : ArithmeticEncoder)
    → IsPacked e
    → e.pending_bits ≡ n
    → Puts e (replicate n (odd b)) (drain b n e) × ((drain b n e).pending_bits ≡ 0)
unfolding drain
drain-Puts b zero e h z =
    (record { packed = h; bits = sym (append-nil _); low = refl; high = refl }, z)
drain-Puts b (suc n) e h z =
    let (one, same) = output_bit-Puts b e h in
    let less = record (output_bit b e) { pending_bits = n } in
    let first : Puts e (odd b ∷ []) less = record {
      packed = one.packed;
      bits = one.bits;
      low = one.low;
      high = one.high;
    } in
    let (more, none_left) = drain-Puts b n less one.packed refl in
    (Puts-trans e less (drain b n less) (odd b ∷ []) (replicate n (odd b)) first more, none_left)

-- The bit, then the pending ones, of which none is left.
pub output_pending-Puts :
    (b c : ℕ) (e : ArithmeticEncoder)
    → IsPacked e
    → Puts e (odd b ∷ replicate e.pending_bits (odd c)) (output_pending b c e)
      × ((output_pending b c e).pending_bits ≡ 0)
unfolding output_pending
output_pending-Puts b c e h =
    let (one, same) = output_bit-Puts b e h in
    let o = output_bit b e in
    let (more, none_left) = drain-Puts c o.pending_bits o one.packed refl in
    (
      subst (λ n. Puts e (odd b ∷ replicate n (odd c)) (drain c o.pending_bits o)) same
          (Puts-trans e o (drain c o.pending_bits o) (odd b ∷ []) (replicate o.pending_bits (odd c))
            one more),
      none_left,
    )

replicate-snoc : (n : ℕ) (b : Bool) → replicate n b ++ b ∷ [] ≡ replicate (suc n) b
replicate-snoc zero b = refl
replicate-snoc (suc n) b = ap (λ r. b ∷ r) (replicate-snoc n b)

twice : (n j : ℕ) → n * 2 ^ suc j ≡ n * 2 ^ j * 2 + 0 % 2
twice n j = omega (arith, ap (λ (t : ℕ). n * t) (pow-suc 2 j))

-- Shifting to the left pads with zeros.
digits-pad : (k w j n : ℕ) → k ≡ w + j → digits k (n * 2 ^ j) ≡ digits w n ++ replicate j false
digits-pad k w zero n e =
    let width : k ≡ w = omega (arith, e) in
    let same : n * 2 ^ 0 ≡ n = omega arith in ap₂ digits width same ∙ sym (append-nil (digits w n))
digits-pad k w (suc j) n e =
    let width : k ≡ suc (w + j) = omega (arith, e) in
    ap₂ digits width (twice n j)
    ∙ digits-double (w + j) (n * 2 ^ j) 0
    ∙ ap (λ r. r ++ false ∷ []) (digits-pad (w + j) w j n refl)
    ∙ append_assoc (digits w n) (replicate j false) (false ∷ [])
    ∙ ap (λ r. digits w n ++ r) (replicate-snoc j false)

pow-add : (j k : ℕ) → 2 ^ j * 2 ^ k ≡ 2 ^ (j + k)
pow-add j zero = let same : j + 0 ≡ j = omega arith in omega (arith, ap (λ i. 2 ^ i) same)
pow-add j (suc k) =
    let sum : j + suc k ≡ suc (j + k) = omega arith in
    twice (2 ^ j) k ∙ omega (arith, pow-add j k, ap (λ i. 2 ^ i) sum, pow-suc 2 (j + k))

shift-lt : (k n : ℕ) → k < 8 → n < 2 ^ k → n * 2 ^ (8 - k) < 256
shift-lt k n small fits =
    let more =
      mul-lt-mul_of_pos_right {m = n} {n = 2 ^ k} {k = 2 ^ (8 - k)} fits
        (one-le-pow (8 - k) 2 (omega arith)) in
    let eight : k + (8 - k) ≡ 8 = omega arith in
    let product : 2 ^ k * 2 ^ (8 - k) ≡ 2 ^ 8 = pow-add k (8 - k) ∙ ap (λ j. 2 ^ j) eight in
    omega (arith, more, product)

-- The bits of the finished bytes are those that were output, and zeros.
pub flush-bits :
    (e : ArithmeticEncoder)
    → IsPacked e
    → (k : ℕ) × (bytes_bits (flush e) ≡ written e ++ replicate k false)
unfolding flush
flush-bits e (small, fits) = elim (Bool-cases (ltb 0 e.bits_in_byte)) [
  | inr none_left ↦
      let zero_bits : e.bits_in_byte ≡ 0 = omega (arith, ltb→ge 0 e.bits_in_byte none_left) in
      (
        0,
        rw none_left (
            sym (
              append-nil _
              ∙ ap (λ k. bytes_bits e.output ++ digits k e.current_byte) zero_bits
              ∙ append-nil _)),
      )
  | inl some_left ↦
      let k = 8 - e.bits_in_byte in
      let exact : (e.current_byte * 2 ^ k) % 256 ≡ e.current_byte * 2 ^ k =
        mod-eq_of_lt (shift-lt e.bits_in_byte e.current_byte small fits) in
      (
        k,
        rw some_left (
            bytes_bits-snoc e.output _
            ∙ ap (λ r. bytes_bits e.output ++ r)
                (ap (digits 8) exact ∙ digits-pad 8 e.bits_in_byte k e.current_byte (omega arith))
            ∙ sym (append_assoc (bytes_bits e.output) _ _)),
      )
]
