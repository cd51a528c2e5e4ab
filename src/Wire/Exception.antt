-- ===== src/Wire/Exception.antt =====
-- `EncodingMode` and `ExceptionHeader` of `src/exception_encoder.rs`.
pub mod Payload
pub mod Files
pub mod Encode
use alice_text.Prelude.{
  ℕ, ◌^◌, ◌<◌, ◌≡◌, ◌++◌, ◌∷◌, ltb, ◌==◌, if◌then◌else◌, length, replicate, le→ltb, arith, ap, refl,
}
use alice_text.Bytes.{Bytes, to_le, from_le, slice, byte_at}
use alice_text.Bytes.Laws.{from_le-to_le}
use alice_text.Error.{Result, ok, err, decompression_error, ◌>>=◌}

pub data EncodingMode : Type 0 where
  pattern ngram : EncodingMode

pub record ExceptionHeader : Type 0 where
  pub mode : EncodingMode
  pub original_length : ℕ
  pub token_count : ℕ
  pub exception_count : ℕ
  pub pattern_db_length : ℕ
  pub compressed_length : ℕ

abbrev pub header_size : ℕ
header_size = 32

unfoldable pub new : EncodingMode → ExceptionHeader
new mode = record {
  mode = mode;
  original_length = 0;
  token_count = 0;
  exception_count = 0;
  pattern_db_length = 0;
  compressed_length = 0;
}

unfoldable pub mode_byte : EncodingMode → ℕ
mode_byte pattern = 0
mode_byte ngram = 1

-- The array is filled from left to right, with three and eight reserved zero bytes.
unfoldable pub to_bytes : ExceptionHeader → Bytes
to_bytes h =
    (mode_byte h.mode ∷ replicate 3 0)
    ++ (to_le 4 h.original_length
        ++ (to_le 4 h.token_count
            ++ (to_le 4 h.exception_count
                ++ (to_le 4 h.pattern_db_length
                    ++ (to_le 4 h.compressed_length ++ replicate 8 0)))))

unfoldable pub mode_from : ℕ → Result EncodingMode
mode_from b =
    if b == 0
    then ok pattern
    else if b == 1
    then ok ngram
    else err (decompression_error "Invalid mode")

unfoldable pub from_bytes : Bytes → Result ExceptionHeader
from_bytes bytes =
    if ltb (length bytes) header_size then err (decompression_error "Header too short") else do
      mode ← mode_from (byte_at 0 bytes)
      ok (record {
        mode = mode;
        original_length = from_le (slice 4 8 bytes);
        token_count = from_le (slice 8 12 bytes);
        exception_count = from_le (slice 12 16 bytes);
        pattern_db_length = from_le (slice 16 20 bytes);
        compressed_length = from_le (slice 20 24 bytes);
      })

-- The fields are `u32`.
pub record IsHeader (h : ExceptionHeader) : Type 0 where
  pub original_length : h.original_length < 2 ^ 32
  pub token_count : h.token_count < 2 ^ 32
  pub exception_count : h.exception_count < 2 ^ 32
  pub pattern_db_length : h.pattern_db_length < 2 ^ 32
  pub compressed_length : h.compressed_length < 2 ^ 32

pub length-to_bytes : (h : ExceptionHeader) → length (to_bytes h) ≡ header_size
unfolding to_bytes to_le mode_byte
length-to_bytes h = refl

mode_from-mode_byte : (m : EncodingMode) → mode_from (mode_byte m) ≡ ok m
unfolding mode_from mode_byte
mode_from-mode_byte pattern = refl
mode_from-mode_byte ngram = refl

-- `from_bytes` reads back the header that `to_bytes` wrote, its fields being `u32`,
-- whatever follows it.
pub from_bytes-to_bytes_exception :
    (h : ExceptionHeader) (rest : Bytes) → IsHeader h → from_bytes (to_bytes h ++ rest) ≡ ok h
unfolding from_bytes to_bytes to_le
from_bytes-to_bytes_exception h rest v =
    rw (le→ltb (length (to_bytes h ++ rest)) header_size (omega arith), mode_from-mode_byte h.mode)
      (ap ok λ i. record {
        mode = h.mode;
        original_length = from_le-to_le 4 h.original_length v.original_length i;
        token_count = from_le-to_le 4 h.token_count v.token_count i;
        exception_count = from_le-to_le 4 h.exception_count v.exception_count i;
        pattern_db_length = from_le-to_le 4 h.pattern_db_length v.pattern_db_length i;
        compressed_length = from_le-to_le 4 h.compressed_length v.compressed_length i;
      })
