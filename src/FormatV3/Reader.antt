-- ===== src/FormatV3/Reader.antt =====
-- `FormatV3Writer::decompress`, `read_columns` and `read_all_columns` of `src/format_v3.rs`, and
-- `PartialPayload`.
use alice_text.Prelude.{ℕ, zero, suc, List, [], ◌∷◌, Option, none, some}
use mathlib.Core.Option
use alice_text.Prelude.Int.{ℤ}
use alice_text.Bytes.{Bytes}
use alice_text.Error.{Result, ok, decompression_error, or_error, ◌>>=◌}
use alice_text.Columnar.Foreign.{Foreign}
use alice_text.Columnar.LogLevel
use alice_text.Columnar.Timestamps
use alice_text.Columnar.Timestamps.{TimestampColumn}
use alice_text.Columnar.Payload.{ColumnarPayload, restore}
use alice_text.Wire.Columns.{ColumnEntry}
use alice_text.Wire.Columns.Types.{
  ColumnType, skeleton, timestamps, ipv4, ipv6, log_levels, numbers, uuids, emails, urls, paths,
  date_days, dates_raw, time_ms, times_raw, hex_values, others, placeholder_map, timestamps_raw,
}
use alice_text.FormatV3.{
  Cursor, read_exact, seek, FormatV3Metadata, read_from, get_column, map, length,
}
use alice_text.FormatV3.Values.{Value, Codecs}

module _ (foreign : Foreign) where
  open foreign use {Float}

  pub record PartialPayload : Type 0 where
    pub timestamps : Option TimestampColumn
    pub ipv4_addrs : Option (List ℕ)
    pub ipv6_addrs : Option (List ℕ)
    pub log_levels : Option (List ℕ)
    pub numbers : Option (List Float)
    pub uuids : Option (List ℕ)
    pub emails : Option (List Bytes)
    pub urls : Option (List Bytes)
    pub paths : Option (List Bytes)

  abbrev pub default_partial : PartialPayload
  default_partial = record {
    timestamps = none;
    ipv4_addrs = none;
    ipv6_addrs = none;
    log_levels = none;
    numbers = none;
    uuids = none;
    emails = none;
    urls = none;
    paths = none;
  }

  -- The local variables of `read_all_columns`: those of the payload, and `timestamps_raw`.
  pub record Parts : Type 0 where
    pub payload : ColumnarPayload foreign
    pub raw : List Bytes

  abbrev pub default_parts : Parts
  default_parts = record {
    payload = record {
      skeleton_tokens = [];
      placeholder_map = [];
      timestamps = Timestamps.default;
      ipv4_addrs = [];
      ipv6_addrs = [];
      log_levels = [];
      numbers = [];
      uuids = [];
      emails = [];
      urls = [];
      paths = [];
      date_days = [];
      dates = [];
      time_ms = [];
      times = [];
      hex_values = [];
      others = [];
    };
    raw = [];
  }

  -- The assignment of an arm of `read_all_columns`.
  unfoldable pub assign : (t : ColumnType) → Value foreign t → Parts → Parts
  unfolding Value
  assign skeleton v s = record s { payload = record s.payload { skeleton_tokens = v } }
  assign placeholder_map v s = record s { payload = record s.payload { placeholder_map = v } }
  assign timestamps v s = record s { payload = record s.payload { timestamps = v } }
  assign ipv4 v s = record s { payload = record s.payload { ipv4_addrs = v } }
  assign ipv6 v s = record s { payload = record s.payload { ipv6_addrs = v } }
  assign log_levels v s = record s { payload = record s.payload { log_levels = v } }
  assign numbers v s = record s { payload = record s.payload { numbers = v } }
  assign uuids v s = record s { payload = record s.payload { uuids = v } }
  assign emails v s = record s { payload = record s.payload { emails = v } }
  assign urls v s = record s { payload = record s.payload { urls = v } }
  assign paths v s = record s { payload = record s.payload { paths = v } }
  assign date_days v s = record s { payload = record s.payload { date_days = v } }
  assign dates_raw v s = record s { payload = record s.payload { dates = v } }
  assign time_ms v s = record s { payload = record s.payload { time_ms = v } }
  assign times_raw v s = record s { payload = record s.payload { times = v } }
  assign hex_values v s = record s { payload = record s.payload { hex_values = v } }
  assign others v s = record s { payload = record s.payload { others = v } }
  assign timestamps_raw v s = record s { raw = v }

  -- `timestamps.raw = timestamps_raw`
  unfoldable pub merge_raw : Parts → ColumnarPayload foreign
  merge_raw s = record s.payload { timestamps = record s.payload.timestamps { raw = s.raw } }

  -- `log_level_strings`, `ipv4_strings`, `timestamp_strings`
  unfoldable pub log_level_strings : PartialPayload → Option (List Bytes)
  log_level_strings p = Option.map (map (λ l. LogLevel.to_str (LogLevel.from_u8 l))) p.log_levels

  unfoldable pub ipv4_strings : PartialPayload → Option (List Bytes)
  ipv4_strings p = Option.map (map foreign.ipv4_to_string) p.ipv4_addrs

  -- `(i..i + n).filter_map(..)`
  unfoldable pub delta_strings : TimestampColumn → List ℤ → ℕ → ℕ → List Bytes
  delta_strings ts sums i zero = []
  delta_strings ts sums i (suc n) =
      let rest = delta_strings ts sums (suc i) n in
      elim (Timestamps.get_delta foreign ts i sums) [ some s ↦ s ∷ rest | none ↦ rest ]

  unfoldable pub timestamp_strings : PartialPayload → Option (List Bytes)
  unfolding delta_strings
  timestamp_strings p =
      Option.map (λ ts. delta_strings ts (Timestamps.prepare_for_read ts) 0 (length ts.deltas))
        p.timestamps

module _ (foreign : Foreign) (codecs : Codecs foreign) where
  open codecs use {deserialize, decode_all}

  -- Seek, read, decompress.
  unfoldable pub read_column : Cursor → ColumnEntry → Result (Bytes × Cursor)
  unfolding read_exact seek
  read_column c entry = do
    r ← read_exact entry.compressed_size (seek entry.offset c)
    decompressed ← or_error (decode_all r.0) (decompression_error "Zstd error")
    ok (decompressed, r.1)

  unfoldable pub value_from : (t : ColumnType) → Bytes → Result (Value foreign t)
  value_from t bytes = or_error (deserialize t bytes) (decompression_error "Bincode error")

  -- The `match` of `read_columns`.
  unfoldable pub take_partial :
      ColumnType → Bytes → PartialPayload foreign → Result (PartialPayload foreign)
  unfolding Value value_from
  take_partial log_levels bytes p = do
    v ← value_from log_levels bytes
    ok (record p { log_levels = some v })
  take_partial timestamps bytes p = do
    v ← value_from timestamps bytes
    ok (record p { timestamps = some v })
  take_partial ipv4 bytes p = do v ← value_from ipv4 bytes; ok (record p { ipv4_addrs = some v })
  take_partial ipv6 bytes p = do v ← value_from ipv6 bytes; ok (record p { ipv6_addrs = some v })
  take_partial numbers bytes p = do v ← value_from numbers bytes; ok (record p { numbers = some v })
  take_partial uuids bytes p = do v ← value_from uuids bytes; ok (record p { uuids = some v })
  take_partial emails bytes p = do v ← value_from emails bytes; ok (record p { emails = some v })
  take_partial urls bytes p = do v ← value_from urls bytes; ok (record p { urls = some v })
  take_partial paths bytes p = do v ← value_from paths bytes; ok (record p { paths = some v })
  take_partial _ bytes p = ok p

  -- One turn of the loop of `read_columns`: a type that the file lacks is passed over.
  unfoldable pub read_selected :
      ColumnType
      → Option ColumnEntry
      → Cursor × PartialPayload foreign
      → Result (Cursor × PartialPayload foreign)
  unfolding read_column take_partial
  read_selected t none s = ok s
  read_selected t (some entry) s = do
    r ← read_column s.0 entry
    p ← take_partial t r.0 s.1
    ok (r.1, p)

  unfoldable pub read_selection :
      FormatV3Metadata
      → List ColumnType
      → Cursor × PartialPayload foreign
      → Result (Cursor × PartialPayload foreign)
  unfolding read_selected
  read_selection metadata [] s = ok s
  read_selection metadata (t ∷ ts) s = do
    s' ← read_selected t (get_column metadata t) s
    read_selection metadata ts s'

  unfoldable pub read_columns :
      Cursor → FormatV3Metadata → List ColumnType → Result (PartialPayload foreign)
  unfolding read_selection
  read_columns c metadata column_types = do
    s ← read_selection metadata column_types (c, default_partial foreign)
    ok s.1

  -- The loop of `read_all_columns`.
  unfoldable pub read_parts :
      List ColumnEntry → Cursor × Parts foreign → Result (Cursor × Parts foreign)
  unfolding read_column value_from
  read_parts [] s = ok s
  read_parts (e ∷ es) s = do
    r ← read_column s.0 e
    v ← value_from e.col_type r.0
    read_parts es (r.1, assign foreign e.col_type v s.1)

  unfoldable pub read_all_columns : Cursor → FormatV3Metadata → Result (ColumnarPayload foreign)
  unfolding read_parts
  read_all_columns c metadata = do
    s ← read_parts metadata.columns (c, default_parts foreign)
    ok (merge_raw foreign s.1)

  unfoldable pub decompress : Bytes → Result Bytes
  unfolding read_all_columns
  decompress bytes = do
    r ← read_from (record { bytes = bytes; position = 0 })
    payload ← read_all_columns r.1 r.0
    ok (restore foreign payload)
