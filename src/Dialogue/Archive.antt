-- ===== src/Dialogue/Archive.antt =====
-- `DialogueCompressor`: the archive format of tables. Bincode and Zstd are parameters, and an index
-- that is not serialised (`#[serde(skip)]`) is read as empty.
pub mod RoundTrip
use alice_text.Prelude.{
  ℕ, ◌+◌, ◌%◌, ◌^◌, List, [], ◌∷◌, ◌++◌, Option, none, some, Bool, true, false, not, ltb, ◌==◌,
  if◌then◌else◌, length, same_list,
}
use Prim.Native.String.{String}
use alice_text.Bytes.{Bytes, slice, byte_at, to_le, from_le}
use alice_text.Error.{
  Result, ok, err, invalid_magic, decompression_error, encoding_error, or_error, ◌>>=◌,
}
use alice_text.Dialogue.Speakers.{rebuild_index}
use alice_text.Dialogue.Table.{DialogueTable}
use alice_text.Dialogue.Locales.{LocalizationTable}

-- `ALICEDLG`
abbrev pub dialogue_magic : Bytes
dialogue_magic = b'A' ∷ b'L' ∷ b'I' ∷ b'C' ∷ b'E' ∷ b'D' ∷ b'L' ∷ b'G' ∷ []

pub data DialogueCompressionMode : Type 0 where
  fast balanced maximum : DialogueCompressionMode

abbrev pub zstd_level : DialogueCompressionMode → ℕ
zstd_level fast = 1
zstd_level balanced = 3
zstd_level maximum = 19

-- `self.mode as u8`
abbrev pub mode_byte : DialogueCompressionMode → ℕ
mode_byte fast = 0
mode_byte balanced = 1
mode_byte maximum = 2

-- Bincode for the two kinds of table, and Zstd; a failure is `none`.
pub record Codecs : Type 0 where
  pub serialize_table : DialogueTable → Option Bytes
  pub deserialize_table : Bytes → Option DialogueTable
  pub serialize_localization : LocalizationTable → Option Bytes
  pub deserialize_localization : Bytes → Option LocalizationTable
  pub encode_all : ℕ → Bytes → Option Bytes
  pub decode_all : Bytes → Option Bytes

-- Magic bytes, version 1.0, kind, mode, length and compressed data.
unfoldable pub archive : ℕ → DialogueCompressionMode → Bytes → Bytes
archive kind mode compressed =
    dialogue_magic
    ++ (1 ∷ 0 ∷ kind ∷ mode_byte mode ∷ (to_le 4 (length compressed % 2 ^ 32) ++ compressed))

unfoldable pub compressed_len : Bytes → ℕ
compressed_len bytes = from_le (slice 12 16 bytes)

module _ (codecs : Codecs) where
  open codecs use {
    serialize_table, deserialize_table, serialize_localization, deserialize_localization,
    encode_all, decode_all,
  }

  -- The tests of an archive, and its decompressed data.
  unfoldable pub open_archive : ℕ → String → Bytes → Result Bytes
  unfolding compressed_len
  open_archive kind other_kind bytes =
      if ltb (length bytes) 16
      then err (decompression_error "Data too short")
      else if not (same_list (slice 0 8 bytes) dialogue_magic)
      then err invalid_magic
      else if not (byte_at 10 bytes == kind)
      then err (decompression_error other_kind)
      else if ltb (length bytes) (16 + compressed_len bytes)
      then err (decompression_error "Truncated data")
      else or_error (decode_all (slice 16 (16 + compressed_len bytes) bytes))
          (decompression_error "")

  unfoldable pub compress_table : DialogueCompressionMode → DialogueTable → Result Bytes
  unfolding archive
  compress_table mode t = do
    serialized ← or_error (serialize_table t) (encoding_error "")
    compressed ← or_error (encode_all (zstd_level mode) serialized) (encoding_error "")
    ok (archive 1 mode compressed)

  unfoldable pub decompress_table : Bytes → Result DialogueTable
  unfolding open_archive
  decompress_table bytes = do
    decompressed ← open_archive 1 "Not a single dialogue table" bytes
    t ← or_error (deserialize_table decompressed) (decompression_error "")
    ok (record t { speakers = rebuild_index t.speakers })

  unfoldable pub compress_localization : DialogueCompressionMode → LocalizationTable → Result Bytes
  unfolding archive
  compress_localization mode t = do
    serialized ← or_error (serialize_localization t) (encoding_error "")
    compressed ← or_error (encode_all (zstd_level mode) serialized) (encoding_error "")
    ok (archive 2 mode compressed)

  unfoldable pub decompress_localization : Bytes → Result LocalizationTable
  unfolding open_archive
  decompress_localization bytes = do
    decompressed ← open_archive 2 "Not a localization table" bytes
    t ← or_error (deserialize_localization decompressed) (decompression_error "")
    ok (record t {
      base_table = record t.base_table { speakers = rebuild_index t.base_table.speakers };
    })
