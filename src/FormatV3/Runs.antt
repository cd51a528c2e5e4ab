-- ===== src/FormatV3/Runs.antt =====
-- Format 3 at a concrete text, with codecs that know the columns of that text.
use alice_text.Columnar.Timestamps
use alice_text.Decimal.{parse_u32, to_decimal}
use alice_text.Bytes.{slice, byte_at, to_le, Bytes}
use alice_text.Container.{magic}
use alice_text.Wire.Columns
use alice_text.Wire.Columns.{
  FormatV3Header, ColumnEntry, header_from_bytes, header_to_bytes, entry_to_bytes,
}
use alice_text.FormatV3.Layout.{at, entry, empty, read_from-output_of}
use alice_text.FormatV3.Accepted.{read_from-accepted}
use alice_text.FormatV3.Writer.{
  Column, output_of, compress, assemble, data_start, entries_from, header_of, directory_bytes,
  data_bytes,
}
use alice_text.Columnar.LogLevel
use alice_text.Columnar.Encoder.{add_matches, encode}
use alice_text.Columnar.Skeleton.{skeleton_of, SkeletonToken}
use alice_text.Columnar.Payload.{new, add_match, ColumnarPayload}
use alice_text.Columnar.Matches.{
  extract_skeleton, any_covered, cover, uncovered, free_group, find_matches, skeleton_with,
}
use alice_text.Wire.Columns
use alice_text.Columnar.LogLevel
use alice_text.Error.{◌>>=◌, ok}
use alice_text.FormatV3.{zstd_level, read_from, balanced, length, List}
use alice_text.FormatV3.Reader.{decompress, read_columns, default_partial}
use alice_text.FormatV3.RoundTrip.{decompress-compress_v3}
use alice_text.FormatV3.Selective.{read_columns-compress}
use alice_text.FormatV3.Requested.{with_columns}
use alice_text.Prelude.{◌≡◌, refl, sym, ap, [], ◌∷◌, Option, none, some, arith, ◌<◌, replicate, ◌≤◌}
use native.Mathlib.Decide.{ℕ_discrete}
use mathlib.Core.Option.{none-ne-some, some-injective}
use mathlib.Core.Path.{subst}
use alice_text.Prelude.Int.{ℤ}
use alice_text.Columnar.Timestamps.{CachedFormatType, TimestampColumn}
use alice_text.Columnar.Runs.{
  sample, line, line_captures, line-IsPlain, line-CapturesInside, line-matches, line-skeleton,
  line-Lossless,
}
use alice_text.Wire.Columns.Types.{
  ColumnType, skeleton, placeholder_map, timestamps, ipv4, ipv6, log_levels, numbers, uuids, emails,
  urls, paths, date_days, dates_raw, time_ms, times_raw, hex_values, others, timestamps_raw,
}
use alice_text.FormatV3.Values.{Value, Codecs, IsCodecs, column_of}
use alice_text.FormatV3.Success.{Succeeds, file_of, compress-Succeeds}

int-discrete : Discrete ℤ
int-discrete = hlevel (ℕ_discrete)

token-discrete : Discrete SkeletonToken
token-discrete = hlevel (ℕ_discrete)

format-discrete : Discrete CachedFormatType
format-discrete = hlevel (ℕ_discrete)

column-discrete : Discrete TimestampColumn
column-discrete = hlevel (ℕ_discrete, int-discrete, format-discrete)

pub Value-discrete : (t : ColumnType) → Discrete (Value sample t)
unfolding Value
Value-discrete skeleton = hlevel (token-discrete)
Value-discrete placeholder_map = hlevel (ℕ_discrete)
Value-discrete timestamps = column-discrete
Value-discrete ipv4 = hlevel (ℕ_discrete)
Value-discrete ipv6 = hlevel (ℕ_discrete)
Value-discrete log_levels = hlevel (ℕ_discrete)
Value-discrete numbers = hlevel (ℕ_discrete)
Value-discrete uuids = hlevel (ℕ_discrete)
Value-discrete emails = hlevel (ℕ_discrete)
Value-discrete urls = hlevel (ℕ_discrete)
Value-discrete paths = hlevel (ℕ_discrete)
Value-discrete date_days = hlevel (ℕ_discrete)
Value-discrete dates_raw = hlevel (ℕ_discrete)
Value-discrete time_ms = hlevel (ℕ_discrete)
Value-discrete times_raw = hlevel (ℕ_discrete)
Value-discrete hex_values = hlevel (ℕ_discrete)
Value-discrete others = hlevel (ℕ_discrete)
Value-discrete timestamps_raw = hlevel (ℕ_discrete)

-- One byte for a yes.
abbrev written : {A : Type 0} {a b : A} → Dec (a ≡ b) → Option Bytes
written (yes e) = some (1 ∷ [])
written (no n) = none

written-yes : {A : Type 0} (a : A) (d : Dec (a ≡ a)) → written d ≡ some (1 ∷ [])
written-yes a (yes e) = refl
written-yes a (no n) = absurd (n refl)

written-same :
    {A : Type 0} (a b : A) (d : Dec (a ≡ b)) (w : Bytes)
    → written d ≡ some w
    → (a ≡ b) × (1 ∷ [] ≡ w)
written-same a b (yes e) w h = (e, some-injective (1 ∷ []) w h)
written-same a b (no n) w h = absurd (none-ne-some w h)

abbrev pub encoded : ColumnarPayload sample
encoded = encode sample line_captures line

-- Bincode that knows the columns of one text, and Zstd that stores.
abbrev pub known : Codecs sample
known = record {
  serialize = λ t v. written (Value-discrete t v (column_of sample t encoded));
  deserialize = λ t _. some (column_of sample t encoded);
  encode_all = λ level b. some b;
  decode_all = λ z. some z;
}

pub known-IsCodecs : IsCodecs sample known
known-IsCodecs = record {
  deserialize-serialize = λ t v b e. ap some (
      sym
        (written-same v (column_of sample t encoded)
          (Value-discrete t v (column_of sample t encoded)) b e).0);
  serialize-not_empty = λ t v b e.
      subst (λ w. 0 < length w)
        (written-same v (column_of sample t encoded)
          (Value-discrete t v (column_of sample t encoded)) b e).1
        (omega arith);
  decode_all-encode_all = λ level b z e. sym e;
}

known-Succeeds : Succeeds sample known encoded 10 (λ _. 1 ∷ []) (λ _. 1 ∷ [])
known-Succeeds = record {
  serialize = λ t.
      written-yes (column_of sample t encoded)
        (Value-discrete t (column_of sample t encoded) (column_of sample t encoded));
  not_empty = λ t. omega arith;
  encode_all = λ t. refl;
}

abbrev pub file : Bytes
file = file_of sample known line_captures (λ _. 1) balanced line (λ _. 1 ∷ [])

-- 10 + 32 + 18 * 21 bytes before the data, and one byte for each column.
pub length-file : length file ≡ 438
unfolding file_of assemble data_start entries_from header_of output_of directory_bytes data_bytes
    header_to_bytes entry_to_bytes to_le
length-file = refl

line-Succeeds : Succeeds sample known encoded (zstd_level balanced) (λ _. 1 ∷ []) (λ _. 1 ∷ [])
unfolding zstd_level
line-Succeeds = known-Succeeds

decompress-compress_v3_example :
    (compress sample known line_captures (λ _. 1) balanced line ≡ ok file)
    × (decompress sample known file ≡ ok line)
decompress-compress_v3_example =
    decompress-compress_v3 sample known line_captures (λ _. 1) balanced line (λ _. 1 ∷ [])
      (λ _. 1 ∷ []) known-IsCodecs line-Succeeds (omega (arith, length-file)) line-IsPlain
      line-CapturesInside (rw (line-matches, line-skeleton) line-Lossless)
      (rw line-matches (omega arith))

pub compress-file : compress sample known line_captures (λ _. 1) balanced line ≡ ok file
compress-file = compress-Succeeds sample known line_captures (λ _. 1) balanced line line-Succeeds

read_columns-compress_example :
    (do r ← read_from (at file 0); read_columns sample known r.1 r.0 (log_levels ∷ others ∷ []))
    ≡ ok (with_columns sample encoded (log_levels ∷ others ∷ []) (default_partial sample))
read_columns-compress_example =
    read_columns-compress sample known line_captures (λ _. 1) balanced line file
      (log_levels ∷ others ∷ []) known-IsCodecs compress-file (omega (arith, length-file))

-- A file of one column.
abbrev small_header : FormatV3Header
small_header = record {
  original_length = 5;
  compression_level = 1;
  column_count = 1;
  row_count = 1;
  reserved = replicate 13 0;
}

abbrev small_entry : ColumnEntry
small_entry = record {
  col_type = urls;
  offset = 63;
  compressed_size = 2;
  uncompressed_size = 0;
  row_count = 1;
}

abbrev small_columns : List Column
small_columns = record { col_type = urls; compressed = 7 ∷ 8 ∷ []; count = 1 } ∷ []

small_header-IsHeader : Columns.IsHeader small_header
small_header-IsHeader = record {
  original_length = omega arith;
  compression_level = omega arith;
  column_count = omega arith;
  row_count = omega arith;
  reserved = refl;
}

small_entry-IsEntry : Columns.IsEntry small_entry
small_entry-IsEntry = record {
  offset = omega arith;
  compressed_size = omega arith;
  uncompressed_size = omega arith;
  row_count = omega arith;
}

abbrev small_file : Bytes
small_file = output_of small_header (small_entry ∷ []) small_columns

read_from-output_of_example :
    read_from (at small_file 0)
    ≡ ok (record { header = small_header; columns = small_entry ∷ [] }, at small_file 63)
read_from-output_of_example =
    read_from-output_of small_header (small_entry ∷ []) small_columns small_header-IsHeader
      (entry small_entry-IsEntry empty) refl

small-read :
    read_from (at small_file 0)
    ≡ ok (record { header = small_header; columns = small_entry ∷ [] }, at small_file 63)
small-read =
    read_from-output_of small_header (small_entry ∷ []) small_columns small_header-IsHeader
      (entry small_entry-IsEntry empty) refl

read_from-accepted_example :
    (slice 0 8 small_file ≡ magic)
    × (byte_at 0 (slice 8 10 small_file) ≡ 3)
    × (header_from_bytes (slice 10 42 small_file) ≡ ok small_header)
    × (length small_columns ≡ 1)
    × (at small_file 63 ≡ at small_file 63)
    × (63 ≤ length small_file)
read_from-accepted_example =
    read_from-accepted small_file (record { header = small_header; columns = small_entry ∷ [] })
      (at small_file 63) small-read

-- The columns of the line.
pub encoded-levels : encoded.log_levels ≡ 2 ∷ []
unfolding encode extract_skeleton add_matches find_matches any_covered cover free_group uncovered
    add_match skeleton_with skeleton_of to_decimal new LogLevel.parse_level LogLevel.level_of
    LogLevel.as_u8 Timestamps.add Timestamps.parse_timestamp parse_u32
encoded-levels = refl

pub encoded-paths : encoded.paths ≡ (b'/' ∷ b'a' ∷ []) ∷ []
unfolding encode extract_skeleton add_matches find_matches any_covered cover free_group uncovered
    add_match skeleton_with skeleton_of to_decimal new LogLevel.parse_level LogLevel.level_of
    Timestamps.add Timestamps.parse_timestamp parse_u32
encoded-paths = refl
