-- ===== src/FormatV3/Success.antt =====
-- Where Bincode and Zstd succeed on the columns of a text, so does `compress`.
use alice_text.Prelude.{ℕ, ◌%◌, ◌^◌, ◌<◌, List, [], ◌∷◌, some, ◌≡◌, lt→ltb, refl}
use alice_text.Bytes.{Bytes}
use alice_text.Error.{ok}
use alice_text.Columnar.Foreign.{Foreign}
use alice_text.Columnar.Matches.{Group}
use alice_text.Columnar.Payload.{ColumnarPayload}
use alice_text.Columnar.Encoder.{encode}
use alice_text.Wire.Columns.Types.{ColumnType}
use alice_text.FormatV3.{CompressionLevel, zstd_level, length, map}
use alice_text.FormatV3.Values.{Codecs, column_of, value_count}
use alice_text.FormatV3.Writer.{Column, add_column, write_columns, write_order, assemble, compress}

module _ (foreign : Foreign) (codecs : Codecs foreign) (p : ColumnarPayload foreign) where
  -- Each column of the payload is serialized to some bytes, and those are compressed.
  pub record Succeeds (level : ℕ) (serialized compressed : ColumnType → Bytes) : Type 0 where
    pub serialize :
        (t : ColumnType) → codecs.serialize t (column_of foreign t p) ≡ some (serialized t)
    pub not_empty : (t : ColumnType) → 0 < length (serialized t)
    pub encode_all : (t : ColumnType) → codecs.encode_all level (serialized t) ≡ some (compressed t)

  abbrev pub column_for : (ColumnType → Bytes) → ColumnType → Column
  column_for compressed t = record {
    col_type = t;
    compressed = compressed t;
    count = value_count foreign t (column_of foreign t p) % 2 ^ 32;
  }

  write_columns-Succeeds :
      {level : ℕ} {serialized compressed : ColumnType → Bytes} (ts : List ColumnType)
      → Succeeds level serialized compressed
      → write_columns foreign codecs level p ts ≡ ok (map (column_for compressed) ts)
  unfolding write_columns add_column
  write_columns-Succeeds [] s = refl
  write_columns-Succeeds {serialized} (t ∷ ts) s =
      rw
        (
          s.serialize t,
          lt→ltb 0 (length (serialized t)) (s.not_empty t),
          s.encode_all t,
          write_columns-Succeeds ts s,
        )
        refl

module _ (foreign : Foreign) (codecs : Codecs foreign) where
  -- The file of a text whose columns are compressed to these bytes.
  unfoldable pub file_of :
      (Bytes → List (List Group))
      → (Bytes → ℕ)
      → CompressionLevel
      → Bytes
      → (ColumnType → Bytes)
      → Bytes
  file_of captures_iter lines_count level whole compressed =
      assemble level (length whole % 2 ^ 64) (lines_count whole % 2 ^ 64) (
        map (column_for foreign codecs (encode foreign captures_iter whole) compressed) write_order)

  pub compress-Succeeds :
      (captures_iter : Bytes → List (List Group)) (lines_count : Bytes → ℕ)
      (level : CompressionLevel) (whole : Bytes) {serialized compressed : ColumnType → Bytes}
      → Succeeds foreign codecs
          (encode foreign captures_iter whole)
          (zstd_level level)
          serialized
          compressed
      → compress foreign codecs captures_iter lines_count level whole
        ≡ ok (file_of captures_iter lines_count level whole compressed)
  unfolding compress file_of
  compress-Succeeds captures_iter lines_count level whole s =
      rw (write_columns-Succeeds foreign codecs (encode foreign captures_iter whole) write_order s)
        refl
