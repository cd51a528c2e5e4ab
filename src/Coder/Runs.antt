-- ===== src/Coder/Runs.antt =====
-- The coder on small texts.
use alice_text.Prelude.{◌≡◌, refl, [], ◌∷◌, arith, ◌⊎◌, ℕ, ◌<◌, ◌≤◌, ◌+◌, some, none, length}
use alice_text.Bytes.{Bytes}
use alice_text.Coder.Stream.{Run, Bits, emission}
use alice_text.Coder.Encoder.{ArithmeticEncoder, encode, finish}
use alice_text.Coder.Encoder.Packing.{bytes_bits}
use alice_text.Coder.Encoder.Output.{finish-encode}
use alice_text.Coder.Decoder.{ArithmeticDecoder, decode}
use alice_text.Coder.Decoder.Total.{length-decode}
use alice_text.Coder.Fuel.{normalize-settles}
use alice_text.Coder.RoundTrip.{from_data-IsCodable, IsCovered, decode-finish-encode}
use alice_text.Coder.Model.{from_data, get_range}
use alice_text.Coder.Model.Counts.{count, from_data-IsTable}
use alice_text.Coder.Model.Table.{IsTable}
use alice_text.Coder.Interval.{stable, narrow-inside, narrow_low, narrow_high, branch, offset}
use alice_text.Coder.Encoder
use alice_text.Coder.Decoder

-- "hello"
abbrev hello : Bytes
hello = 0x68 ∷ 0x65 ∷ 0x6c ∷ 0x6c ∷ 0x6f ∷ []

-- "hole"
abbrev hole : Bytes
hole = 0x68 ∷ 0x6f ∷ 0x6c ∷ 0x65 ∷ []

encode-hello : finish (encode (from_data hello) hello Encoder.new) ≡ 58 ∷ 64 ∷ []
unfolding finish encode from_data get_range branch narrow_high offset narrow_low
encode-hello = refl

decode-finish-encode_example :
    (decode
      (from_data hello)
      4
      (Decoder.new (finish (encode (from_data hello) hole Encoder.new)))).0
    ≡ hole
unfolding count
decode-finish-encode_example =
    decode-finish-encode hello hole (omega arith)
      (omega arith, (omega arith, (omega arith, (omega arith, tt)))) (omega arith)

hello-IsCovered : IsCovered hello hello
unfolding count
hello-IsCovered = (omega arith, (omega arith, (omega arith, (omega arith, (omega arith, tt)))))

finish-encode_example :
    (r : Run (from_data hello) hello 0 0x7fffffff) × (rest : Bits) × (bytes_bits
        (finish (encode (from_data hello) hello Encoder.new))
      ≡ emission (from_data hello) r 0 rest)
finish-encode_example =
    finish-encode (from_data hello) hello
      (from_data-IsCodable hello hello (omega arith) hello-IsCovered) (omega arith)

-- Bytes that are no code of the model.
length-decode_example :
    (length (decode (from_data hello) 7 (Decoder.new (0xff ∷ 0x03 ∷ []))).0 ≡ 7)
    × IsCovered hello (decode (from_data hello) 7 (Decoder.new (0xff ∷ 0x03 ∷ []))).0
length-decode_example = length-decode hello (0xff ∷ 0x03 ∷ []) 7 (omega arith) (omega arith)

-- An encoder in the middle of a byte, with an interval of two numbers.
abbrev narrow_encoder : ArithmeticEncoder
narrow_encoder = record {
  low = 0x3fffffff;
  high = 0x40000000;
  pending_bits = 2;
  output = 7 ∷ [];
  current_byte = 5;
  bits_in_byte = 3;
}

normalize-settles_example :
    (branch (Encoder.normalize narrow_encoder).low (Encoder.normalize narrow_encoder).high ≡ stable)
    × (Encoder.normalize_from 40 narrow_encoder ≡ Encoder.normalize narrow_encoder)
normalize-settles_example =
    normalize-settles 40 narrow_encoder (omega arith) (omega arith, omega arith)
      (omega arith, omega arith)

narrow-inside_example :
    (0 ≤ narrow_low 0 0x7fffffff 1 5)
    × (narrow_low 0 0x7fffffff 1 5 ≤ narrow_high 0 0x7fffffff 2 5)
    × (narrow_high 0 0x7fffffff 2 5 ≤ 0x7fffffff)
narrow-inside_example =
    narrow-inside 0 0x7fffffff 1 2 5 (omega arith, omega arith) (omega arith)
      (record { nonempty = omega arith; inside = omega arith; few = omega arith })

from_data-IsTable_example :
    IsTable 0 (from_data hello).cumulative (from_data hello).total
    × ((from_data hello).total ≡ length hello)
    × ((s : ℕ)
        → ((count s hello ≡ 0) × (get_range (from_data hello) s ≡ none))
          ⊎ ((0 < count s hello)
              × ((low : ℕ) × (get_range (from_data hello) s
                    ≡ some (low, low + count s hello, length hello)))))
from_data-IsTable_example = from_data-IsTable hello
