-- ===== src/FormatV3/Writer.antt =====
-- `FormatV3Writer::compress` of `src/format_v3.rs`.
use alice_text.Prelude.{ℕ, List, [], ◌∷◌, ◌++◌, ◌%◌, ◌+◌, if◌then◌else◌, ◌^◌, ◌*◌, replicate, ◌||◌}
use alice_text.Bytes.{Bytes}
use alice_text.Error.{Result, ok, encoding_error, or_error, ◌>>=◌}
use alice_text.Container.{magic}
use alice_text.Columnar.Foreign.{Foreign}
use alice_text.Columnar.Matches.{Group}
use alice_text.Columnar.Payload.{ColumnarPayload}
use alice_text.Columnar.Encoder.{encode}
use alice_text.Wire.Columns.{
  ColumnEntry, FormatV3Header, entry_size, header_size, entry_to_bytes, header_to_bytes,
}
use alice_text.Wire.Columns.Types.{
  ColumnType, skeleton, timestamps, ipv4, ipv6, log_levels, numbers, uuids, emails, urls, paths,
  date_days, dates_raw, time_ms, times_raw, hex_values, others, placeholder_map, timestamps_raw,
}
use alice_text.FormatV3.{CompressionLevel, zstd_level, level_byte, same_type, length, ltb}
use alice_text.FormatV3.Values.{Codecs, column_of, value_count}

-- A triple of `column_data`.
pub record Column : Type 0 where
  pub col_type : ColumnType
  pub compressed : Bytes
  pub count : ℕ

-- The calls of `add_column`, in their order.
abbrev pub write_order : List ColumnType
write_order =
    skeleton ∷ placeholder_map ∷ timestamps ∷ ipv4 ∷ ipv6 ∷ log_levels ∷ numbers ∷ uuids ∷ emails
    ∷ urls ∷ paths ∷ date_days ∷ dates_raw ∷ time_ms ∷ times_raw ∷ hex_values ∷ others
    ∷ timestamps_raw ∷ []

-- The directory: each column starts where the one before it ends.
unfoldable pub entries_from : ℕ → List Column → List ColumnEntry
entries_from current_offset [] = []
entries_from current_offset (c ∷ cs) =
    record {
      col_type = c.col_type;
      offset = current_offset;
      compressed_size = length c.compressed % 2 ^ 32;
      uncompressed_size = 0;
      row_count = c.count;
    }
    ∷ entries_from ((current_offset + length c.compressed) % 2 ^ 64) cs

unfoldable pub data_start : List Column → ℕ
data_start cs = 8 + 2 + header_size + length cs * entry_size

unfoldable pub directory_bytes : List ColumnEntry → Bytes
directory_bytes [] = []
directory_bytes (e ∷ es) = entry_to_bytes e ++ directory_bytes es

unfoldable pub data_bytes : List Column → Bytes
data_bytes [] = []
data_bytes (c ∷ cs) = c.compressed ++ data_bytes cs

unfoldable pub header_of : CompressionLevel → ℕ → ℕ → List ColumnEntry → FormatV3Header
header_of level original_length row_count entries = record {
  original_length = original_length;
  compression_level = level_byte level;
  column_count = length entries % 2 ^ 16;
  row_count = row_count;
  reserved = replicate 13 0;
}

-- Magic, version 3.0, header, directory, data.
unfoldable pub output_of : FormatV3Header → List ColumnEntry → List Column → Bytes
unfolding directory_bytes data_bytes
output_of header entries cs =
    magic ++ (3 ∷ 0 ∷ (header_to_bytes header ++ (directory_bytes entries ++ data_bytes cs)))

-- From the columns to the file.
unfoldable pub assemble : CompressionLevel → ℕ → ℕ → List Column → Bytes
unfolding entries_from data_start header_of output_of
assemble level original_length row_count cs =
    let entries = entries_from (data_start cs % 2 ^ 64) cs in
    output_of (header_of level original_length row_count entries) entries cs

module _ (foreign : Foreign) (codecs : Codecs foreign) where
  open codecs use {serialize, encode_all}

  -- The columns that the call pushes: one, or none.
  unfoldable pub add_column : ℕ → ColumnType → Bytes → ℕ → Result (List Column)
  unfolding same_type
  add_column level t bytes count =
      if ltb 0 (length bytes) || same_type t skeleton || same_type t placeholder_map
      then (do
        compressed ← or_error (encode_all level bytes) (encoding_error "Zstd error")
        ok (record { col_type = t; compressed = compressed; count = count } ∷ []))
      else ok []

  unfoldable pub write_columns :
      ℕ → ColumnarPayload foreign → List ColumnType → Result (List Column)
  unfolding add_column
  write_columns level p [] = ok []
  write_columns level p (t ∷ ts) = do
    bytes ← or_error (serialize t (column_of foreign t p)) (encoding_error "Bincode error")
    here ← add_column level t bytes (value_count foreign t (column_of foreign t p) % 2 ^ 32)
    rest ← write_columns level p ts
    ok (here ++ rest)

  -- `lines_count` is `text.lines().count()`.
  unfoldable pub compress :
      (Bytes → List (List Group)) → (Bytes → ℕ) → CompressionLevel → Bytes → Result Bytes
  unfolding write_columns assemble
  compress captures_iter lines_count level whole = do
    columns ← write_columns (zstd_level level) (encode foreign captures_iter whole) write_order
    ok (assemble level (length whole % 2 ^ 64) (lines_count whole % 2 ^ 64) columns)
