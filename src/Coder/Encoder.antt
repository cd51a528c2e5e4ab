-- ===== src/Coder/Encoder.antt =====
-- `ArithmeticEncoder`.
pub mod Packing
pub mod Writes
pub mod Output
use alice_text.Prelude.{
  ℕ, zero, suc, ◌+◌, ◌-◌, ◌*◌, ◌%◌, ◌^◌, List, [], ◌∷◌, ◌++◌, some, none, ltb, ◌==◌, if◌then◌else◌,
  length,
}
use mathlib.Core.List.{foldl}
use alice_text.Bytes.{Bytes}
use alice_text.Coder.{whole, quarter}
use alice_text.Coder.Model.{FrequencyModel, get_range}
use alice_text.Coder.Interval.{
  narrow_low, narrow_high, Branch, lower, upper, middle, stable, branch, scaled_low, scaled_high,
}

pub record ArithmeticEncoder : Type 0 where
  pub low : ℕ
  pub high : ℕ
  pub pending_bits : ℕ
  pub output : Bytes
  pub current_byte : ℕ
  pub bits_in_byte : ℕ

abbrev pub new : ArithmeticEncoder
new = record {
  low = 0;
  high = whole - 1;
  pending_bits = 0;
  output = [];
  current_byte = 0;
  bits_in_byte = 0;
}

-- A full byte goes to the output.
unfoldable pub push_full : ArithmeticEncoder → ArithmeticEncoder
push_full e =
    if e.bits_in_byte == 8
    then record e { output = e.output ++ e.current_byte ∷ []; current_byte = 0; bits_in_byte = 0 }
    else e

unfoldable pub output_bit : ℕ → ArithmeticEncoder → ArithmeticEncoder
unfolding push_full
output_bit bit e = push_full (record e {
  current_byte = (e.current_byte * 2 + bit % 2) % 256;
  bits_in_byte = e.bits_in_byte + 1;
})

-- `while self.pending_bits > 0`, on the number of pending bits.
unfoldable pub drain : ℕ → ℕ → ArithmeticEncoder → ArithmeticEncoder
unfolding output_bit
drain bit zero e = e
drain bit (suc n) e = drain bit n (record (output_bit bit e) { pending_bits = n })

-- The bit, and the pending ones behind it.
unfoldable pub output_pending : ℕ → ℕ → ArithmeticEncoder → ArithmeticEncoder
unfolding drain output_bit
output_pending bit other e = let o = output_bit bit e in drain other o.pending_bits o

-- What a round outputs.
unfoldable pub output_branch : Branch → ArithmeticEncoder → ArithmeticEncoder
unfolding output_pending
output_branch lower e = output_pending 0 1 e
output_branch upper e = output_pending 1 0 e
output_branch middle e = record e { pending_bits = (e.pending_bits + 1) % 2 ^ 32 }
output_branch stable e = e

-- The subtraction and the doubling at the end of a round.
abbrev pub scale : Branch → ArithmeticEncoder → ArithmeticEncoder
scale b e = record e { low = scaled_low e.low b; high = scaled_high e.high b }

-- A loop of `normalize`, with fuel; a proper interval needs at most 31 rounds.
unfoldable pub normalize_from : ℕ → ArithmeticEncoder → ArithmeticEncoder
unfolding output_branch
normalize_from zero e = e
normalize_from (suc fuel) e = elim (branch e.low e.high) [
  | stable ↦ e
  | lower ↦ normalize_from fuel (scale lower (output_branch lower e))
  | upper ↦ normalize_from fuel (scale upper (output_branch upper e))
  | middle ↦ normalize_from fuel (scale middle (output_branch middle e))
]

abbrev pub fuel : ℕ
fuel = 32

unfoldable pub normalize : ArithmeticEncoder → ArithmeticEncoder
unfolding normalize_from
normalize e = normalize_from fuel e

-- A symbol without a range is passed over.
unfoldable pub encode_symbol : FrequencyModel → ArithmeticEncoder → ℕ → ArithmeticEncoder
unfolding normalize
encode_symbol model e symbol = elim (get_range model symbol) [
  | some (sym_low, sym_high, total) ↦ normalize (record e {
    low = narrow_low e.low e.high sym_low total;
    high = narrow_high e.low e.high sym_high total;
  })
  | none ↦ e
]

unfoldable pub encode : FrequencyModel → Bytes → ArithmeticEncoder → ArithmeticEncoder
unfolding encode_symbol
encode model bytes e = foldl (encode_symbol model) e bytes

-- The last bits, which tell the interval apart.
unfoldable pub output_final : ArithmeticEncoder → ArithmeticEncoder
unfolding output_pending
output_final e =
    let more = record e { pending_bits = (e.pending_bits + 1) % 2 ^ 32 } in
    if ltb e.low quarter then output_pending 0 1 more else output_pending 1 0 more

-- A byte that is not full is padded.
unfoldable pub flush : ArithmeticEncoder → Bytes
flush e =
    if ltb 0 e.bits_in_byte
    then e.output ++ (e.current_byte * 2 ^ (8 - e.bits_in_byte)) % 256 ∷ []
    else e.output

unfoldable pub finish : ArithmeticEncoder → Bytes
unfolding output_final flush
finish e = flush (output_final e)

unfoldable pub encoded_size : ArithmeticEncoder → ℕ
encoded_size e = length e.output
