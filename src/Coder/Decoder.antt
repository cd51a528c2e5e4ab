-- ===== src/Coder/Decoder.antt =====
-- `ArithmeticDecoder`.
pub mod Reads
pub mod Sees
pub mod Rounds
pub mod Code
pub mod Total
use alice_text.Prelude.{
  ℕ, zero, suc, ◌+◌, ◌-◌, ◌*◌, ◌/◌, ◌%◌, ◌^◌, List, [], ◌∷◌, ◌++◌, Option, some, none, leb, ◌==◌,
  if◌then◌else◌, length, get_or, true, false,
}
use alice_text.Bytes.{Bytes}
use alice_text.Coder.{whole, precision_bits}
use alice_text.Coder.Model.{FrequencyModel, get_range, get_symbol, is_empty}
use alice_text.Coder.Interval.{
  narrow_low, narrow_high, lookup_value, Branch, lower, upper, middle, stable, branch, offset,
  scaled_low, scaled_high,
}
use alice_text.Coder.Encoder.{fuel}

pub record ArithmeticDecoder : Type 0 where
  pub low : ℕ
  pub high : ℕ
  pub code : ℕ
  pub input : Bytes
  pub byte_pos : ℕ
  pub bit_pos : ℕ

-- A byte that is read to its end is left behind.
unfoldable pub next_byte : ArithmeticDecoder → ArithmeticDecoder
next_byte d = if d.bit_pos == 8 then record d { bit_pos = 0; byte_pos = d.byte_pos + 1 } else d

-- Behind the input there are zeros.
unfoldable pub read_bit : ArithmeticDecoder → ℕ × ArithmeticDecoder
unfolding next_byte
read_bit d = if leb (length d.input) d.byte_pos then (0, d) else (
  get_or d.input d.byte_pos 0 / 2 ^ (7 - d.bit_pos) % 2,
  next_byte (record d { bit_pos = d.bit_pos + 1 }),
)

-- `(code << 1) | bit`
unfoldable pub shift_in : ArithmeticDecoder → ArithmeticDecoder
unfolding read_bit
shift_in d = let r = read_bit d in record r.1 { code = d.code * 2 + r.0 }

unfoldable pub shift_many : ℕ → ArithmeticDecoder → ArithmeticDecoder
unfolding shift_in
shift_many zero d = d
shift_many (suc n) d = shift_many n (shift_in d)

unfoldable pub new : Bytes → ArithmeticDecoder
unfolding shift_many
new bytes =
    shift_many precision_bits
      (record { low = 0; high = whole - 1; code = 0; input = bytes; byte_pos = 0; bit_pos = 0 })

-- A round: the subtraction, the doubling, and one more bit of the code.
unfoldable pub scale : Branch → ArithmeticDecoder → ArithmeticDecoder
unfolding shift_in
scale b d =
    shift_in
      (record d { low = scaled_low d.low b; high = scaled_high d.high b; code = d.code - offset b })

-- A loop of `normalize`, with fuel; a proper interval needs at most 31 rounds.
unfoldable pub normalize_from : ℕ → ArithmeticDecoder → ArithmeticDecoder
unfolding scale
normalize_from zero d = d
normalize_from (suc fuel) d = elim (branch d.low d.high) [
  | stable ↦ d
  | lower ↦ normalize_from fuel (scale lower d)
  | upper ↦ normalize_from fuel (scale upper d)
  | middle ↦ normalize_from fuel (scale middle d)
]

unfoldable pub normalize : ArithmeticDecoder → ArithmeticDecoder
unfolding normalize_from
normalize d = normalize_from fuel d

-- The interval of a symbol that was found.
unfoldable pub take_symbol : ℕ → ℕ × ℕ × ℕ → ℕ → ArithmeticDecoder → ArithmeticDecoder
unfolding normalize
take_symbol symbol (sym_low, sym_high, range_total) total d = normalize (record d {
  low = narrow_low d.low d.high sym_low total;
  high = narrow_high d.low d.high sym_high total;
})

-- `get_symbol(value)?`, then `get_range(symbol)?`.
unfoldable pub decode_value :
    FrequencyModel → Option ℕ → ArithmeticDecoder → Option (ℕ × ArithmeticDecoder)
unfolding take_symbol
decode_value model none d = none
decode_value model (some symbol) d = elim (get_range model symbol) [
  | some range ↦ some (symbol, take_symbol symbol range model.total d)
  | none ↦ none
]

unfoldable pub decode_symbol : FrequencyModel → ArithmeticDecoder → Option (ℕ × ArithmeticDecoder)
unfolding decode_value
decode_symbol model d = elim (is_empty model) [
  | true ↦ none
  | false ↦ decode_value model (get_symbol model (lookup_value d.low d.high d.code model.total)) d
]

-- The symbols up to the first that fails, and the decoder behind them.
unfoldable pub decode : FrequencyModel → ℕ → ArithmeticDecoder → Bytes × ArithmeticDecoder
unfolding decode_symbol
decode model zero d = ([], d)
decode model (suc count) d = elim (decode_symbol model d) [
  | some (symbol, d') ↦ let r = decode model count d' in (symbol ∷ r.0, r.1)
  | none ↦ ([], d)
]
