-- ===== src/Wire/Columns.antt =====
-- `ColumnType`, `ColumnEntry` and `FormatV3Header` of `src/format_v3.rs`.
pub mod Types
use alice_text.Prelude.{
  ℕ, ◌<◌, ◌∷◌, if◌then◌else◌, length, ◌++◌, ◌^◌, ltb, ◌≡◌, le→ltb, arith, refl, ap, length-append,
  take-append_all,
}
use alice_text.Bytes.{Bytes, AreBytes, to_le, from_le, slice, byte_at}
use alice_text.Bytes.Laws.{from_le-to_le, length-to_le}
use alice_text.Error.{Error, Result, ok, err, decompression_error, ◌>>=◌, or_error}
use Types.{ColumnType, as_u8, from_u8, from_u8-as_u8}

pub record ColumnEntry : Type 0 where
  pub col_type : ColumnType
  pub offset : ℕ
  pub compressed_size : ℕ
  pub uncompressed_size : ℕ
  pub row_count : ℕ

abbrev pub entry_size : ℕ
entry_size = 21

-- The fields have the widths of their Rust types.
pub record IsEntry (e : ColumnEntry) : Type 0 where
  pub offset : e.offset < 2 ^ 64
  pub compressed_size : e.compressed_size < 2 ^ 32
  pub uncompressed_size : e.uncompressed_size < 2 ^ 32
  pub row_count : e.row_count < 2 ^ 32

unfoldable pub entry_to_bytes : ColumnEntry → Bytes
entry_to_bytes e =
    as_u8 e.col_type
    ∷ (to_le 8 e.offset
        ++ (to_le 4 e.compressed_size ++ (to_le 4 e.uncompressed_size ++ to_le 4 e.row_count)))

unfoldable pub entry_from_bytes : Bytes → Result ColumnEntry
entry_from_bytes bytes =
    if ltb (length bytes) entry_size then err (decompression_error "Column entry too short") else do
      col_type ← or_error (from_u8 (byte_at 0 bytes)) (decompression_error "Invalid column type")
      ok (record {
        col_type = col_type;
        offset = from_le (slice 1 9 bytes);
        compressed_size = from_le (slice 9 13 bytes);
        uncompressed_size = from_le (slice 13 17 bytes);
        row_count = from_le (slice 17 21 bytes);
      })

pub length-entry_to_bytes : (e : ColumnEntry) → length (entry_to_bytes e) ≡ entry_size
unfolding entry_to_bytes to_le
length-entry_to_bytes e = refl

-- A directory entry whose fields have their widths is read back from its bytes, whatever follows them.
pub entry_from_bytes-entry_to_bytes :
    (e : ColumnEntry) (rest : Bytes)
    → IsEntry e
    → entry_from_bytes (entry_to_bytes e ++ rest) ≡ ok e
unfolding entry_from_bytes entry_to_bytes to_le
entry_from_bytes-entry_to_bytes e rest v =
    rw
      (
        le→ltb (length (entry_to_bytes e ++ rest)) entry_size (omega arith),
        from_u8-as_u8 e.col_type,
      )
      (ap ok λ i. record {
        col_type = e.col_type;
        offset = from_le-to_le 8 e.offset v.offset i;
        compressed_size = from_le-to_le 4 e.compressed_size v.compressed_size i;
        uncompressed_size = from_le-to_le 4 e.uncompressed_size v.uncompressed_size i;
        row_count = from_le-to_le 4 e.row_count v.row_count i;
      })

-- `reserved` is an array of 13 bytes.
pub record FormatV3Header : Type 0 where
  pub original_length : ℕ
  pub compression_level : ℕ
  pub column_count : ℕ
  pub row_count : ℕ
  pub reserved : Bytes

abbrev pub header_size : ℕ
header_size = 32

pub record IsHeader (h : FormatV3Header) : Type 0 where
  pub original_length : h.original_length < 2 ^ 64
  pub compression_level : h.compression_level < 256
  pub column_count : h.column_count < 2 ^ 16
  pub row_count : h.row_count < 2 ^ 64
  pub reserved : length h.reserved ≡ 13

unfoldable pub header_to_bytes : FormatV3Header → Bytes
header_to_bytes h =
    to_le 8 h.original_length
    ++ (h.compression_level ∷ (to_le 2 h.column_count ++ (to_le 8 h.row_count ++ h.reserved)))

unfoldable pub header_from_bytes : Bytes → Result FormatV3Header
header_from_bytes bytes =
    if ltb (length bytes) header_size
    then err (decompression_error "Header too short")
    else ok (record {
      original_length = from_le (slice 0 8 bytes);
      compression_level = byte_at 8 bytes;
      column_count = from_le (slice 9 11 bytes);
      row_count = from_le (slice 11 19 bytes);
      reserved = slice 19 32 bytes;
    })

pub length-header_to_bytes :
    (h : FormatV3Header) → IsHeader h → length (header_to_bytes h) ≡ header_size
unfolding header_to_bytes to_le
length-header_to_bytes h v = omega (arith, v.reserved)

-- The file header, its fields within their widths, is read back from its bytes, whatever follows them.
pub header_from_bytes-header_to_bytes :
    (h : FormatV3Header) (rest : Bytes)
    → IsHeader h
    → header_from_bytes (header_to_bytes h ++ rest) ≡ ok h
unfolding header_from_bytes header_to_bytes to_le
header_from_bytes-header_to_bytes h rest v =
    rw
      (le→ltb (length (header_to_bytes h ++ rest)) header_size
        (omega (arith, v.reserved, length-append h.reserved rest)))
      (ap ok λ i. record {
        original_length = from_le-to_le 8 h.original_length v.original_length i;
        compression_level = h.compression_level;
        column_count = from_le-to_le 2 h.column_count v.column_count i;
        row_count = from_le-to_le 8 h.row_count v.row_count i;
        reserved = take-append_all h.reserved rest v.reserved i;
      })
