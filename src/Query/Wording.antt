-- ===== src/Query/Wording.antt =====
-- What the engine on a compressed text finds in the columns of e-mail addresses, URLs and paths.
use alice_text.Query.{Op, Services, scan_strings, test_string}
use alice_text.Prelude.{
  Option, none, some, ℕ, List, ◌≡◌, length, refl, ◌<◌, ◌^◌, ◌↔◌, ap, ◌∙◌, get_elem?,
}
use mathlib.Core.Option.{some-injective}
use alice_text.Bytes.{Bytes}
use alice_text.Error.{ok, ◌>>=◌}
use alice_text.Columnar.Foreign.{Foreign}
use alice_text.Columnar.Matches.{Group}
use alice_text.Columnar.Payload.{ColumnarPayload}
use alice_text.Columnar.Encoder.{encode}
use alice_text.Wire.Columns.Types.{
  ColumnType, name, as_u8, skeleton, placeholder_map, timestamps, ipv4, ipv6, log_levels, numbers,
  uuids, emails, urls, paths, date_days, dates_raw, time_ms, times_raw, hex_values, others,
  timestamps_raw,
}
use alice_text.FormatV3.{CompressionLevel, same_type}
use alice_text.FormatV3.Values.{Codecs, IsCodecs}
use alice_text.FormatV3.Writer.{compress}
use alice_text.FormatV3.Requested.{with_columns}
use alice_text.Query.Text.{codes}
use alice_text.Query.Names.{name_to_type_iff}
use alice_text.Query.Values.{filter_partial, partial_to_strings}
use alice_text.Query.Engine.{from_reader, filter_op}
use alice_text.Query.Scan.{Occurs, IsAscending, scan_from-exact}
use alice_text.Query.Strings.{Relates, test_string_iff}
use alice_text.Query.Answers.{alone, from_reader-IsEngineOf, filter_op-IsEngineOf}

-- The string at the index relates so to the value.
abbrev pub FoundAt : List Bytes → Op → Bytes → ℕ → Type 0
FoundAt values op value k = (v : Bytes) × (get_elem? values k ≡ some v) × Relates op v value

module _ (foreign : Foreign) (codecs : Codecs foreign) (services : Services foreign) where
  -- The columns of e-mail addresses, URLs and paths.
  unfoldable pub string_column : ColumnType → ColumnarPayload foreign → Option (List Bytes)
  string_column emails p = some p.emails
  string_column urls p = some p.urls
  string_column paths p = some p.paths
  string_column _ p = none

  rescan :
      {values seen : List Bytes} (op : Op) (value : Bytes)
      → some values ≡ some seen
      → ok (scan_strings values op value) ≡ ok (scan_strings seen op value)
  rescan op value h = ap (λ vs. ok (scan_strings vs op value)) (some-injective _ _ h)

  filter_partial-string :
      (p : ColumnarPayload foreign) (t : ColumnType) (op : Op) (value : Bytes) {values : List Bytes}
      → string_column t p ≡ some values
      → filter_partial foreign services (alone foreign codecs services p t) t op value
        ≡ ok (scan_strings values op value)
  unfolding filter_partial with_columns same_type as_u8 string_column partial_to_strings
  filter_partial-string p skeleton op value h = cc
  filter_partial-string p placeholder_map op value h = cc
  filter_partial-string p timestamps op value h = cc
  filter_partial-string p ipv4 op value h = cc
  filter_partial-string p ipv6 op value h = cc
  filter_partial-string p log_levels op value h = cc
  filter_partial-string p numbers op value h = cc
  filter_partial-string p uuids op value h = cc
  filter_partial-string p emails op value h = rescan op value h
  filter_partial-string p urls op value h = rescan op value h
  filter_partial-string p paths op value h = rescan op value h
  filter_partial-string p date_days op value h = cc
  filter_partial-string p dates_raw op value h = cc
  filter_partial-string p time_ms op value h = cc
  filter_partial-string p times_raw op value h = cc
  filter_partial-string p hex_values op value h = cc
  filter_partial-string p others op value h = cc
  filter_partial-string p timestamps_raw op value h = cc

  -- Let the codecs read back what they wrote, and let compressing a text succeed with a file of
  -- fewer than 2^32 bytes. Then filtering the file by the column of e-mail addresses, of URLs or
  -- of paths gives ascending indices, and an index is among them exactly when the column of the
  -- text has at it a string that relates so to the value: equal, different, before or after it in
  -- the order of bytes, or with the value in it, at its start or at its end.
  pub filter_op-strings :
      (captures_iter : Bytes → List (List Group)) (lines_count : Bytes → ℕ)
      (level : CompressionLevel) (whole file : Bytes) (t : ColumnType) (op : Op) (value : Bytes)
      (values : List Bytes)
      → IsCodecs foreign codecs
      → compress foreign codecs captures_iter lines_count level whole ≡ ok file
      → length file < 2 ^ 32
      → string_column t (encode foreign captures_iter whole) ≡ some values
      → (is : List ℕ) × ((do
        e ← from_reader file
        filter_op foreign codecs services e (codes (name t)) op value)
          ≡ ok is)
        × IsAscending 0 is
        × ((k : ℕ) → Occurs k is ↔ FoundAt values op value k)
  unfolding scan_strings
  filter_op-strings captures_iter lines_count level whole file t op value values laws e l h =
      let p = encode foreign captures_iter whole in
      let (engine, opened, is_engine) =
        from_reader-IsEngineOf foreign codecs services captures_iter lines_count level whole file
          laws e l in
      let (ascending, exact) = scan_from-exact (λ v. test_string op v value) values in
      (
        scan_strings values op value,
        rw opened (
            filter_op-IsEngineOf foreign codecs services engine p t (codes (name t)) op value
              is_engine ((name_to_type_iff (codes (name t)) t).1 refl)
            ∙ filter_partial-string p t op value h),
        ascending,
        λ k. (
          λ o.
              let (v, at, passes) = (exact k).0 o in (v, at, (test_string_iff op v value).0 passes),
          λ (v, at, relates). (exact k).1 (v, at, (test_string_iff op v value).1 relates),
        ),
      )
