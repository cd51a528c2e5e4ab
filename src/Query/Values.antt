-- ===== src/Query/Values.antt =====
-- The values of a column as strings: `partial_to_strings` and `get_value_at` of
-- `src/query_engine.rs`, and the dispatch of `filter_op` on the type of the column.
use alice_text.Prelude.{ℕ, List, [], Option, none, some, map, get_elem?}
use mathlib.Core.Option
use mathlib.Core.Option.{get_or}
use alice_text.Bytes.{Bytes}
use alice_text.Error.{Result, ok, decompression_error, or_error, ◌>>=◌}
use alice_text.Columnar.Foreign.{Foreign}
use alice_text.Columnar.LogLevel
use alice_text.Columnar.Uuid.{parse_uuid, format_uuid}
use alice_text.Columnar.Text.{format_number}
use alice_text.Columnar.Timestamps
use alice_text.Wire.Columns.Types.{
  ColumnType, timestamps, ipv4, ipv6, log_levels, numbers, uuids, emails, urls, paths,
}
use alice_text.FormatV3.Reader.{PartialPayload, log_level_strings, ipv4_strings, timestamp_strings}
use alice_text.Query.{
  Op, Services, number_order, integer_order, scan_primitive, scan_f64, scan_strings,
  parse_query_timestamp,
}

module _ (foreign : Foreign) where
  -- `unwrap_or_default`
  abbrev or_empty : Option (List Bytes) → List Bytes
  or_empty o = get_or o []

  unfoldable pub partial_to_strings : PartialPayload foreign → ColumnType → List Bytes
  partial_to_strings p log_levels = or_empty (log_level_strings foreign p)
  partial_to_strings p ipv4 = or_empty (ipv4_strings foreign p)
  partial_to_strings p ipv6 = or_empty (Option.map (map foreign.ipv6_to_string) p.ipv6_addrs)
  partial_to_strings p timestamps = or_empty (timestamp_strings foreign p)
  partial_to_strings p numbers = or_empty (Option.map (map (format_number foreign)) p.numbers)
  partial_to_strings p uuids = or_empty (Option.map (map format_uuid) p.uuids)
  partial_to_strings p emails = or_empty p.emails
  partial_to_strings p urls = or_empty p.urls
  partial_to_strings p paths = or_empty p.paths
  partial_to_strings p _ = []

  -- `as_ref()?.get(index)`
  unfoldable pub elem_at {ℓ} : {A : Type ℓ} → Option (List A) → ℕ → Option A
  elem_at none index = none
  elem_at (some values) index = get_elem? values index

  unfoldable pub timestamp_at : Option Timestamps.TimestampColumn → ℕ → Option Bytes
  timestamp_at none index = none
  timestamp_at (some ts) index =
      Timestamps.get_delta foreign ts index (Timestamps.prepare_for_read ts)

  unfoldable pub get_value_at : PartialPayload foreign → ColumnType → ℕ → Option Bytes
  unfolding elem_at timestamp_at
  get_value_at p log_levels index =
      Option.map (λ l. LogLevel.to_str (LogLevel.from_u8 l)) (elem_at p.log_levels index)
  get_value_at p ipv4 index = Option.map foreign.ipv4_to_string (elem_at p.ipv4_addrs index)
  get_value_at p ipv6 index = Option.map foreign.ipv6_to_string (elem_at p.ipv6_addrs index)
  get_value_at p timestamps index = timestamp_at p.timestamps index
  get_value_at p numbers index = Option.map (format_number foreign) (elem_at p.numbers index)
  get_value_at p uuids index = Option.map format_uuid (elem_at p.uuids index)
  get_value_at p emails index = elem_at p.emails index
  get_value_at p urls index = elem_at p.urls index
  get_value_at p paths index = elem_at p.paths index
  get_value_at p _ index = none

  -- `map_or_else(|| Ok(Vec::new()), |data| Ok(..))`
  abbrev or_no_rows {ℓ} : {A : Type ℓ} → Option A → (A → List ℕ) → Result (List ℕ)
  or_no_rows none scan = ok []
  or_no_rows (some values) scan = ok (scan values)

  -- The `match` of `filter_op`.
  unfoldable pub filter_partial :
      Services foreign → PartialPayload foreign → ColumnType → Op → Bytes → Result (List ℕ)
  unfolding partial_to_strings
  filter_partial services p log_levels op value =
      let target = LogLevel.as_u8 (LogLevel.parse_level foreign.to_uppercase value) in
      or_no_rows p.log_levels (λ values. scan_primitive number_order values op target)
  filter_partial services p ipv4 op value = do
    target ← or_error (foreign.parse_ipv4_addr value) (decompression_error "Invalid IPv4")
    or_no_rows p.ipv4_addrs (λ values. scan_primitive number_order values op target)
  filter_partial services p ipv6 op value = do
    target ← or_error (foreign.parse_ipv6_addr value) (decompression_error "Invalid IPv6")
    or_no_rows p.ipv6_addrs (λ values. scan_primitive number_order values op target)
  filter_partial services p numbers op value =
      let target = get_or (foreign.parse_f64 value) foreign.f64_zero in
      or_no_rows p.numbers (λ values. scan_f64 foreign services values op target)
  filter_partial services p uuids op value = do
    target ← or_error (parse_uuid value) (decompression_error "Invalid UUID")
    or_no_rows p.uuids (λ values. scan_primitive number_order values op target)
  filter_partial services p timestamps op value = do
    target ← parse_query_timestamp foreign services value
    or_no_rows p.timestamps
        (λ ts. scan_primitive integer_order (Timestamps.prepare_for_read ts) op target)
  filter_partial services p t op value = ok (scan_strings (partial_to_strings p t) op value)
