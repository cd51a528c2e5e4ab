-- ===== src/FormatV3/Values.antt =====
-- What each column of format 3 holds, and the code that turns it into bytes and back.
use alice_text.Prelude.{ℕ, List, Option, some, length, ◌≡◌, ◌<◌}
use alice_text.Bytes.{Bytes}
use alice_text.Columnar.Foreign.{Foreign}
use alice_text.Columnar.Skeleton.{SkeletonToken}
use alice_text.Columnar.Timestamps.{TimestampColumn}
use alice_text.Columnar.Payload.{ColumnarPayload}
use alice_text.Wire.Columns.Types.{
  ColumnType, skeleton, timestamps, ipv4, ipv6, log_levels, numbers, uuids, emails, urls, paths,
  date_days, dates_raw, time_ms, times_raw, hex_values, others, placeholder_map, timestamps_raw,
}

module _ (foreign : Foreign) where
  open foreign use {Float}

  -- The type of the column's data.
  unfoldable pub Value : ColumnType → Type 0
  Value skeleton = List SkeletonToken
  Value placeholder_map = List (ℕ × ℕ)
  Value timestamps = TimestampColumn
  Value ipv4 = List ℕ
  Value ipv6 = List ℕ
  Value log_levels = List ℕ
  Value numbers = List Float
  Value uuids = List ℕ
  Value emails = List Bytes
  Value urls = List Bytes
  Value paths = List Bytes
  Value date_days = List ℕ
  Value dates_raw = List Bytes
  Value time_ms = List ℕ
  Value times_raw = List Bytes
  Value hex_values = List Bytes
  Value others = List Bytes
  Value timestamps_raw = List Bytes

  -- The field that goes into the column.
  unfoldable pub column_of : (t : ColumnType) → ColumnarPayload foreign → Value t
  unfolding Value
  column_of skeleton p = p.skeleton_tokens
  column_of placeholder_map p = p.placeholder_map
  column_of timestamps p = p.timestamps
  column_of ipv4 p = p.ipv4_addrs
  column_of ipv6 p = p.ipv6_addrs
  column_of log_levels p = p.log_levels
  column_of numbers p = p.numbers
  column_of uuids p = p.uuids
  column_of emails p = p.emails
  column_of urls p = p.urls
  column_of paths p = p.paths
  column_of date_days p = p.date_days
  column_of dates_raw p = p.dates
  column_of time_ms p = p.time_ms
  column_of times_raw p = p.times
  column_of hex_values p = p.hex_values
  column_of others p = p.others
  column_of timestamps_raw p = p.timestamps.raw

  -- The length that the directory names, of timestamps that of the differences.
  unfoldable pub value_count : (t : ColumnType) → Value t → ℕ
  unfolding Value
  value_count skeleton v = length v
  value_count placeholder_map v = length v
  value_count timestamps v = length v.deltas
  value_count ipv4 v = length v
  value_count ipv6 v = length v
  value_count log_levels v = length v
  value_count numbers v = length v
  value_count uuids v = length v
  value_count emails v = length v
  value_count urls v = length v
  value_count paths v = length v
  value_count date_days v = length v
  value_count dates_raw v = length v
  value_count time_ms v = length v
  value_count times_raw v = length v
  value_count hex_values v = length v
  value_count others v = length v
  value_count timestamps_raw v = length v

  -- Bincode of each column's type, and Zstd; a failure is `none`.
  pub record Codecs : Type 0 where
    pub serialize : (t : ColumnType) → Value t → Option Bytes
    pub deserialize : (t : ColumnType) → Bytes → Option (Value t)
    pub encode_all : ℕ → Bytes → Option Bytes
    pub decode_all : Bytes → Option Bytes

  -- What the codecs promise: what they wrote they read back, and Bincode writes the length of a
  -- list, or the tags of a record's options, so that no column is without bytes.
  pub record IsCodecs (codecs : Codecs) : Type 0 where
    pub deserialize-serialize :
        (t : ColumnType) (v : Value t) (b : Bytes)
        → codecs.serialize t v ≡ some b
        → codecs.deserialize t b ≡ some v
    pub serialize-not_empty :
        (t : ColumnType) (v : Value t) (b : Bytes) → codecs.serialize t v ≡ some b → 0 < length b
    pub decode_all-encode_all :
        (level : ℕ) (b z : Bytes)
        → codecs.encode_all level b ≡ some z
        → codecs.decode_all z ≡ some b
