-- ===== src/Wire/Tuned.antt =====
-- `CompressionMode` and `TunedHeader` of `src/tuned_compressor.rs`.
use alice_text.Prelude.{
  ℕ, if◌then◌else◌, ◌<◌, ◌++◌, length, ◌≡◌, ◌==◌, ◌^◌, ◌∷◌, ltb, le→ltb, refl, replicate, arith, ap,
}
use alice_text.Bytes.{Bytes, to_le, from_le, slice, byte_at}
use alice_text.Bytes.Laws.{from_le-to_le}
use alice_text.Error.{Result, ok, err, decompression_error}

pub data CompressionMode : Type 0 where
  fast balanced best : CompressionMode

-- `mode as u8`
unfoldable pub mode_byte : CompressionMode → ℕ
mode_byte fast = 0
mode_byte balanced = 1
mode_byte best = 2

-- An unknown byte is read as the balanced mode.
unfoldable pub mode_from : ℕ → CompressionMode
mode_from b =
    if b == 0 then fast else if b == 1 then balanced else if b == 2 then best else balanced

unfoldable pub zstd_level : CompressionMode → ℕ
zstd_level fast = 3
zstd_level balanced = 10
zstd_level best = 19

pub record TunedHeader : Type 0 where
  pub original_length : ℕ
  pub mode : CompressionMode
  pub pattern_count : ℕ
  pub skeleton_length : ℕ

abbrev pub header_size : ℕ
header_size = 24

pub record IsHeader (h : TunedHeader) : Type 0 where
  pub original_length : h.original_length < 2 ^ 64
  pub pattern_count : h.pattern_count < 2 ^ 32
  pub skeleton_length : h.skeleton_length < 2 ^ 32

unfoldable pub to_bytes : TunedHeader → Bytes
to_bytes h =
    to_le 8 h.original_length
    ++ ((mode_byte h.mode ∷ replicate 3 0)
        ++ (to_le 4 h.pattern_count ++ (to_le 4 h.skeleton_length ++ replicate 4 0)))

unfoldable pub from_bytes : Bytes → Result TunedHeader
from_bytes bytes =
    if ltb (length bytes) header_size
    then err (decompression_error "Header too short")
    else ok (record {
      original_length = from_le (slice 0 8 bytes);
      mode = mode_from (byte_at 8 bytes);
      pattern_count = from_le (slice 12 16 bytes);
      skeleton_length = from_le (slice 16 20 bytes);
    })

pub length-to_bytes : (h : TunedHeader) → length (to_bytes h) ≡ header_size
unfolding to_bytes to_le
length-to_bytes h = refl

mode_from-mode_byte : (m : CompressionMode) → mode_from (mode_byte m) ≡ m
unfolding mode_from mode_byte
mode_from-mode_byte fast = refl
mode_from-mode_byte balanced = refl
mode_from-mode_byte best = refl

-- `from_bytes` reads back the header that `to_bytes` wrote, its fields within their
-- widths, whatever follows it.
pub from_bytes-to_bytes_tuned :
    (h : TunedHeader) (rest : Bytes) → IsHeader h → from_bytes (to_bytes h ++ rest) ≡ ok h
unfolding from_bytes to_bytes to_le
from_bytes-to_bytes_tuned h rest v =
    rw (le→ltb (length (to_bytes h ++ rest)) header_size (omega arith)) (
      ap ok λ i. record {
        original_length = from_le-to_le 8 h.original_length v.original_length i;
        mode = mode_from-mode_byte h.mode i;
        pattern_count = from_le-to_le 4 h.pattern_count v.pattern_count i;
        skeleton_length = from_le-to_le 4 h.skeleton_length v.skeleton_length i;
      })
