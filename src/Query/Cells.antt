-- ===== src/Query/Cells.antt =====
-- What a row of the engine on a compressed text shows of a column, said of the column itself.
use alice_text.Prelude.{ℕ, zero, suc, List, [], ◌∷◌, Option, none, some, ◌≡◌, refl, ap, get_elem?}
use alice_text.Prelude.Int.{ℤ, pos, ◌+ℤ◌}
use mathlib.Core.Option
use alice_text.Bytes.{Bytes}
use alice_text.Columnar.Foreign.{Foreign}
use alice_text.Columnar.LogLevel
use alice_text.Columnar.Uuid.{format_uuid}
use alice_text.Columnar.Text.{format_number}
use alice_text.Columnar.Timestamps
use alice_text.Columnar.Timestamps.{prefix_sums}
use alice_text.Columnar.Payload.{ColumnarPayload}
use alice_text.Wire.Columns.Types.{
  ColumnType, as_u8, skeleton, placeholder_map, timestamps, ipv4, ipv6, log_levels, numbers, uuids,
  emails, urls, paths, date_days, dates_raw, time_ms, times_raw, hex_values, others, timestamps_raw,
}
use alice_text.FormatV3.{same_type}
use alice_text.FormatV3.Values.{Codecs}
use alice_text.FormatV3.Requested.{with_columns}
use alice_text.Query.{Services}
use alice_text.Query.Values.{get_value_at, elem_at, timestamp_at}
use alice_text.Query.Answers.{alone}

-- The moment after the difference at the index: the start and all differences up to there.
abbrev pub moment_after : ℤ → List ℤ → ℕ → Option ℤ
moment_after start [] i = none
moment_after start (d ∷ ds) zero = some (start +ℤ d)
moment_after start (d ∷ ds) (suc i) = moment_after (start +ℤ d) ds i

get_elem?-prefix_sums :
    (start : ℤ) (ds : List ℤ) (i : ℕ) → get_elem? (prefix_sums start ds) i ≡ moment_after start ds i
unfolding prefix_sums
get_elem?-prefix_sums start [] i = refl
get_elem?-prefix_sums start (d ∷ ds) zero = refl
get_elem?-prefix_sums start (d ∷ ds) (suc i) = get_elem?-prefix_sums (start +ℤ d) ds i

module _ (foreign : Foreign) where
  -- The text of the value at the index of a column. A timestamp is that of the moment, in the
  -- format of the first one. A row has nothing of the columns of the nine other types.
  unfoldable pub cell : ColumnarPayload foreign → ℕ → ColumnType → Option Bytes
  cell p i timestamps =
      let c = p.timestamps in
      Timestamps.reading foreign c.base c.base_offset_secs
        (moment_after (elim c.base_ms [ none ↦ pos 0 | some b ↦ b ]) c.deltas i)
  cell p i ipv4 = Option.map foreign.ipv4_to_string (get_elem? p.ipv4_addrs i)
  cell p i ipv6 = Option.map foreign.ipv6_to_string (get_elem? p.ipv6_addrs i)
  cell p i log_levels =
      Option.map (λ l. LogLevel.to_str (LogLevel.from_u8 l)) (get_elem? p.log_levels i)
  cell p i numbers = Option.map (format_number foreign) (get_elem? p.numbers i)
  cell p i uuids = Option.map format_uuid (get_elem? p.uuids i)
  cell p i emails = get_elem? p.emails i
  cell p i urls = get_elem? p.urls i
  cell p i paths = get_elem? p.paths i
  cell p i _ = none

  pub get_value_at-cell :
      (codecs : Codecs foreign) (services : Services foreign) (p : ColumnarPayload foreign) (i : ℕ)
      (t : ColumnType)
      → get_value_at foreign (alone foreign codecs services p t) t i ≡ cell p i t
  unfolding get_value_at elem_at timestamp_at with_columns same_type as_u8 cell Timestamps.get_delta
      Timestamps.prepare_for_read
  get_value_at-cell codecs services p i skeleton = refl
  get_value_at-cell codecs services p i placeholder_map = refl
  get_value_at-cell codecs services p i timestamps =
      let c = p.timestamps in
      ap (Timestamps.reading foreign c.base c.base_offset_secs)
        (get_elem?-prefix_sums (elim c.base_ms [ none ↦ pos 0 | some b ↦ b ]) c.deltas i)
  get_value_at-cell codecs services p i ipv4 = refl
  get_value_at-cell codecs services p i ipv6 = refl
  get_value_at-cell codecs services p i log_levels = refl
  get_value_at-cell codecs services p i numbers = refl
  get_value_at-cell codecs services p i uuids = refl
  get_value_at-cell codecs services p i emails = refl
  get_value_at-cell codecs services p i urls = refl
  get_value_at-cell codecs services p i paths = refl
  get_value_at-cell codecs services p i date_days = refl
  get_value_at-cell codecs services p i dates_raw = refl
  get_value_at-cell codecs services p i time_ms = refl
  get_value_at-cell codecs services p i times_raw = refl
  get_value_at-cell codecs services p i hex_values = refl
  get_value_at-cell codecs services p i others = refl
  get_value_at-cell codecs services p i timestamps_raw = refl
