-- ===== src/Container.antt =====
-- `TunedCompressor` of `src/tuned_compressor.rs`: the container around the columns, and
-- `ALICEText` of `src/lib.rs`, which chooses between it and the older format. The texts are bytes.
-- The two ratios among the statistics are floating-point numbers and left out.
pub mod Checks
pub mod RoundTrip
pub mod Entry
pub mod Facade
mod Runs
use alice_text.Prelude.{
  ℕ, ◌%◌, ◌^◌, List, [], ◌∷◌, ◌++◌, Option, none, some, Bool, true, false, not, ltb, if◌then◌else◌,
  length, drop, same_list,
}
use alice_text.Bytes.{Bytes, slice, byte_at}
use alice_text.Error.{
  Result, ok, err, invalid_magic, decompression_error, encoding_error, or_error, ◌>>=◌,
}
use alice_text.Wire.Tuned
use alice_text.Wire.Tuned.{CompressionMode, TunedHeader, zstd_level, header_size}
use alice_text.Columnar.Foreign.{Foreign}
use alice_text.Columnar.Matches.{Group}
use alice_text.Columnar.Payload.{ColumnarPayload}
use alice_text.Columnar.Encoder.{encode, decode}

-- `ALICETXT`
abbrev pub magic : Bytes
magic = b'A' ∷ b'L' ∷ b'I' ∷ b'C' ∷ b'E' ∷ b'T' ∷ b'X' ∷ b'T' ∷ []

abbrev pub min_size : ℕ
min_size = 34

-- Bincode and Zstd; a failure is `none`.
pub record Codecs (foreign : Foreign) : Type 0 where
  pub serialize : ColumnarPayload foreign → Option Bytes
  pub deserialize : Bytes → Option (ColumnarPayload foreign)
  pub encode_all : ℕ → Bytes → Option Bytes
  pub decode_all : Bytes → Option Bytes

pub record TunedStats : Type 0 where
  pub original_size : ℕ
  pub compressed_size : ℕ
  pub skeleton_size : ℕ
  pub pattern_count : ℕ

pub record TunedCompressor : Type 0 where
  pub mode : CompressionMode
  pub last_stats : Option TunedStats

unfoldable pub new : CompressionMode → TunedCompressor
new mode = record { mode = mode; last_stats = none }

unfoldable pub set_mode : CompressionMode → TunedCompressor → TunedCompressor
set_mode mode c = record c { mode = mode }

-- Magic bytes, version 2.0, header, compressed data.
unfoldable pub frame : TunedHeader → Bytes → Bytes
frame header compressed = magic ++ (2 ∷ 0 ∷ (Tuned.to_bytes header ++ compressed))

unfoldable pub has_magic : Bytes → Bool
has_magic bytes = same_list (slice 0 8 bytes) magic

-- `TunedHeader::from_bytes(&data[10..10 + TunedHeader::SIZE])`
unfoldable pub header_at : Bytes → Result TunedHeader
header_at bytes = Tuned.from_bytes (slice 10 34 bytes)

unfoldable pub read_header : Bytes → Result TunedHeader
unfolding has_magic header_at
read_header bytes =
    if ltb (length bytes) min_size
    then err (decompression_error "Data too short")
    else if not (has_magic bytes)
    then err invalid_magic
    else header_at bytes

unfoldable pub verify : Bytes → Result Bool
unfolding has_magic header_at
verify bytes =
    if ltb (length bytes) min_size
    then ok false
    else if not (has_magic bytes)
    then ok false
    else if ltb (byte_at 8 bytes) 2
    then ok false
    else do _ ← header_at bytes; ok true

module _ (foreign : Foreign) (codecs : Codecs foreign) where
  open codecs use {serialize, deserialize, encode_all, decode_all}

  -- What follows the tests of `decompress`.
  unfoldable pub open_frame : Bytes → Result Bytes
  unfolding header_at
  open_frame bytes = do
    _ ← header_at bytes
    decompressed ← or_error (decode_all (drop 34 bytes)) (decompression_error "Zstd error")
    payload ← or_error (deserialize decompressed) (decompression_error "Bincode error")
    ok (decode foreign payload)

  unfoldable pub decompress : Bytes → Result Bytes
  unfolding has_magic open_frame
  decompress bytes =
      if ltb (length bytes) min_size
      then err (decompression_error "Data too short")
      else if not (has_magic bytes)
      then err invalid_magic
      else if ltb (byte_at 8 bytes) 2
      then err (decompression_error "Legacy format - use ALICEText instead")
      else open_frame bytes

  unfoldable pub header_of : TunedCompressor → Bytes → ColumnarPayload foreign → TunedHeader
  header_of c whole payload = record {
    original_length = length whole % 2 ^ 64;
    mode = c.mode;
    pattern_count = length payload.placeholder_map % 2 ^ 32;
    skeleton_length = length payload.skeleton_tokens % 2 ^ 32;
  }

  unfoldable pub with_stats :
      TunedCompressor → Bytes → ColumnarPayload foreign → Bytes → TunedCompressor
  with_stats c whole payload output = record c {
    last_stats = some (record {
      original_size = length whole;
      compressed_size = length output;
      skeleton_size = length payload.skeleton_tokens;
      pattern_count = length payload.placeholder_map;
    });
  }

  unfoldable pub finish :
      TunedCompressor → Bytes → ColumnarPayload foreign → Bytes → Bytes × TunedCompressor
  unfolding frame header_of with_stats
  finish c whole payload compressed =
      let output = frame (header_of c whole payload) compressed in
      (output, with_stats c whole payload output)

  -- The bytes, and the compressor with its new statistics; an error changes nothing.
  unfoldable pub compress :
      (Bytes → List (List Group)) → TunedCompressor → Bytes → Result (Bytes × TunedCompressor)
  unfolding finish
  compress captures_iter c whole =
      let payload = encode foreign captures_iter whole in
      do
        serialized ← or_error (serialize payload) (encoding_error "Bincode error")
        compressed ←
            or_error (encode_all (zstd_level c.mode) serialized) (encoding_error "Zstd error")
        ok (finish c whole payload compressed)
