-- ===== src/Query/Runs.antt =====
-- The query engine at a concrete file.
use alice_text.Query.Answers.{
  HasAt, number_column, number_target, filter_op-numbers, from_reader-IsEngineOf,
  filter_op-IsEngineOf, filter_partial-number,
}
use alice_text.Columnar.LogLevel
use alice_text.Query.Rows.{query-rows}
use alice_text.Query.Cells.{cell}
use alice_text.Query.Results.{QueryRow, QueryResult}
use alice_text.Query.Engine.{from_reader, filter_op, names_to_types, query}
use alice_text.FormatV3.{balanced}
use alice_text.Query.{
  op_starts_with, op_eq, Services, number_order, test_primitive, scan_primitive, scan_from,
  name_to_type,
}
use alice_text.Bytes.{Bytes}
use alice_text.FormatV3.Runs.{
  encoded-paths, encoded, known, known-IsCodecs, file, compress-file, length-file, encoded-levels,
}
use alice_text.Wire.Columns.Types.{paths, log_levels, name, emails}
use alice_text.Query.Wording.{string_column, FoundAt, filter_op-strings}
use alice_text.Columnar.Runs.{sample, line, line_captures}
use alice_text.Error.{ok, ◌>>=◌}
use alice_text.Query.Text.{lookup, codes, starts_with, ends_with, contains, lt_bytes}
use alice_text.Prelude.{
  ◌≡◌, refl, List, [], ◌∷◌, none, some, true, arith, ◌==◌, ltb, ◌↔◌, same_list, get_elem?, ℕ, not,
  leb, ◌∙◌, length, ap,
}
use alice_text.Columnar.LogLevel
use alice_text.Columnar.LogLevel
use alice_text.FormatV3.Reader.{PartialPayload, default_partial}
use alice_text.Query.Names.{name_to_type_iff}
use alice_text.Query.Scan.{Occurs, IsAscending}
use alice_text.Query.Values.{get_value_at, partial_to_strings}
use alice_text.Query.Agree.{get_value_at-partial_to_strings}

-- Numbers for floating-point numbers, and no moments.
abbrev plain_services : Services sample
plain_services = record {
  near = ◌==◌;
  apart = λ a b. not (a == b);
  f64_lt = ltb;
  f64_le = leb;
  moment_parse = λ _ _. none;
  midnight_parse = λ _. none;
}

scan_from-small : scan_from 0 (λ v. ltb v 5) (3 ∷ 9 ∷ 4 ∷ []) ≡ 0 ∷ 2 ∷ []
unfolding scan_from
scan_from-small = refl

-- The tests on texts.
starts_with-ends_with-contains :
    (starts_with (codes "/api/v1") (codes "/api") ≡ true)
    × (ends_with (codes "/api/v1") (codes "v1") ≡ true)
    × (contains (codes "/api/v1") (codes "i/v") ≡ true)
    × (lt_bytes (codes "/api") (codes "/api/v1") ≡ true)
unfolding starts_with ends_with contains lt_bytes same_list
starts_with-ends_with-contains = (refl, refl, refl, refl)

abbrev mails : PartialPayload sample
mails = record (default_partial sample) { emails = some (codes "a@b.c" ∷ codes "d@e.f" ∷ []) }

get_value_at-partial_to_strings_example :
    get_value_at sample mails emails 1 ≡ get_elem? (partial_to_strings sample mails emails) 1
get_value_at-partial_to_strings_example = get_value_at-partial_to_strings sample mails emails 1 tt

info-target : number_target sample known plain_services log_levels (codes "INFO") ≡ some 2
unfolding number_target LogLevel.parse_level LogLevel.level_of LogLevel.as_u8 same_list
info-target = refl

filter_op-numbers_example :
    (let values = number_column sample known plain_services log_levels encoded in
      (is : List ℕ) × ((do
        e ← from_reader file
        filter_op sample known plain_services e (codes (name log_levels)) op_eq (codes "INFO"))
        ≡ ok is)
      × IsAscending 0 is
      × ((k : ℕ) → Occurs k is ↔ HasAt values op_eq 2 k))
filter_op-numbers_example =
    filter_op-numbers sample known plain_services line_captures (λ _. 1) balanced line file
      log_levels op_eq (codes "INFO") 2 known-IsCodecs compress-file (omega (arith, length-file))
      info-target

level-name : name_to_type (codes "log_levels") ≡ ok log_levels
unfolding name
level-name = (name_to_type_iff (codes "log_levels") log_levels).1 refl

-- The first and only level is the one asked for.
filter-line :
    (do
      e ← from_reader file
      filter_op sample known plain_services e (codes "log_levels") op_eq (codes "INFO"))
    ≡ ok (0 ∷ [])
unfolding scan_primitive scan_from test_primitive number_column
filter-line =
    let (engine, opened, is_engine) =
      from_reader-IsEngineOf sample known plain_services line_captures (λ _. 1) balanced line file
        known-IsCodecs compress-file (omega (arith, length-file)) in
    rw opened (
      filter_op-IsEngineOf sample known plain_services engine encoded log_levels
        (codes "log_levels") op_eq (codes "INFO") is_engine level-name
      ∙ filter_partial-number sample known plain_services encoded log_levels op_eq (codes "INFO")
          info-target
      ∙ ap (λ ls. ok (scan_primitive number_order ls op_eq 2)) encoded-levels)

selected-names : names_to_types (codes "log_levels" ∷ []) ≡ ok (log_levels ∷ [])
unfolding names_to_types
selected-names = rw level-name refl

query-rows_example :
    (r : QueryResult) × (row : QueryRow) × ((do
      e ← from_reader file
      query sample known plain_services e
          (codes "log_levels" ∷ [])
          (codes "log_levels")
          op_eq
          (codes "INFO"))
      ≡ ok r)
    × (r.columns ≡ codes "log_levels" ∷ [])
    × (length r.rows ≡ 1)
    × (get_elem? r.rows 0 ≡ some row)
    × (lookup (codes "log_levels") row.values ≡ cell sample encoded 0 log_levels)
unfolding same_list
query-rows_example =
    query-rows sample known plain_services line_captures (λ _. 1) balanced line file
      (codes "log_levels" ∷ []) (codes "log_levels") op_eq (codes "INFO") (log_levels ∷ []) (0 ∷ [])
      0 0 (codes "log_levels") log_levels known-IsCodecs compress-file (omega (arith, length-file))
      selected-names filter-line refl refl level-name

abbrev slash_a : List Bytes
slash_a = (b'/' ∷ b'a' ∷ []) ∷ []

line-paths : string_column sample known plain_services paths encoded ≡ some slash_a
unfolding string_column
line-paths = ap some encoded-paths

filter_op-strings_example :
    (is : List ℕ) × ((do
      e ← from_reader file
      filter_op sample known plain_services e (codes (name paths)) op_starts_with (codes "/"))
      ≡ ok is)
    × IsAscending 0 is
    × ((k : ℕ) → Occurs k is ↔ FoundAt slash_a op_starts_with (codes "/") k)
filter_op-strings_example =
    filter_op-strings sample known plain_services line_captures (λ _. 1) balanced line file paths
      op_starts_with (codes "/") slash_a known-IsCodecs compress-file (omega (arith, length-file))
      line-paths
