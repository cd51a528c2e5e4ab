-- ===== src/Query/Answers.antt =====
-- The engine on a compressed text answers from the columns of the text.
use alice_text.Query.{
  op_eq, op_ne, op_lt, op_le, op_gt, op_ge, op_contains, op_starts_with, op_ends_with, Op, Services,
  number_order, test_primitive, scan_primitive, name_to_type,
}
use alice_text.Prelude.{
  true, Option, none, some, ℕ, List, [], ◌∷◌, ◌≡◌, length, refl, ◌<◌, ◌^◌, ◌↔◌, ap, ◌∙◌, ◌≢◌, arith,
  get_elem?, ◌≤◌,
}
use alice_text.Columnar.Uuid.{parse_uuid}
use mathlib.Core.Option.{some-injective}
use alice_text.Bytes.{Bytes}
use alice_text.Error.{ok, ◌>>=◌}
use alice_text.Columnar.Foreign.{Foreign}
use alice_text.Columnar.LogLevel
use alice_text.Columnar.Matches.{Group}
use alice_text.Columnar.Payload.{ColumnarPayload}
use alice_text.Columnar.Encoder.{encode}
use alice_text.Wire.Columns.Types.{
  ColumnType, name, as_u8, skeleton, placeholder_map, timestamps, ipv4, ipv6, log_levels, numbers,
  uuids, emails, urls, paths, date_days, dates_raw, time_ms, times_raw, hex_values, others,
  timestamps_raw,
}
use alice_text.FormatV3.{CompressionLevel, same_type}
use alice_text.FormatV3.Values.{Codecs, IsCodecs}
use alice_text.FormatV3.Writer.{compress}
use alice_text.FormatV3.Assembled.{compress-IsFile}
use alice_text.FormatV3.Reader.{PartialPayload, default_partial}
use alice_text.FormatV3.Requested.{with_columns}
use alice_text.FormatV3.Selective.{read_columns-IsFile}
use alice_text.Query.Text.{codes}
use alice_text.Query.Names.{name_to_type_iff}
use alice_text.Query.Values.{filter_partial}
use alice_text.Query.Engine.{QueryEngine, from_reader, read_raw_column, filter_op}
use alice_text.Query.Scan.{Occurs, IsAscending, Passes, scan_from-exact}

-- What an operator says of two numbers; the operators on texts hold of none.
abbrev pub Compares : Op → ℕ → ℕ → Type 0
Compares op_eq v target = v ≡ target
Compares op_ne v target = v ≢ target
Compares op_lt v target = v < target
Compares op_le v target = v ≤ target
Compares op_gt v target = target < v
Compares op_ge v target = target ≤ v
Compares op_contains v target = ⊥
Compares op_starts_with v target = ⊥
Compares op_ends_with v target = ⊥

test_primitive_iff :
    (op : Op) (v target : ℕ)
    → (test_primitive number_order op v target ≡ true) ↔ Compares op v target
unfolding test_primitive
test_primitive_iff op_eq v target = ground arith
test_primitive_iff op_ne v target = ground arith
test_primitive_iff op_lt v target = ground arith
test_primitive_iff op_le v target = ground arith
test_primitive_iff op_gt v target = ground arith
test_primitive_iff op_ge v target = ground arith
test_primitive_iff op_contains v target = ground arith
test_primitive_iff op_starts_with v target = ground arith
test_primitive_iff op_ends_with v target = ground arith

-- The number at the index compares so.
abbrev pub HasAt : List ℕ → Op → ℕ → ℕ → Type 0
HasAt values op target k = (v : ℕ) × (get_elem? values k ≡ some v) × Compares op v target

Passes-HasAt :
    (values : List ℕ) (op : Op) (target k : ℕ)
    → Passes (λ v. test_primitive number_order op v target) values k ↔ HasAt values op target k
Passes-HasAt values op target k = (
  λ h. (h.0, h.1, (test_primitive_iff op h.0 target).0 h.2),
  λ h. (h.0, h.1, (test_primitive_iff op h.0 target).1 h.2),
)

module _ (foreign : Foreign) (codecs : Codecs foreign) (services : Services foreign) where
  -- One column of the payload, alone.
  abbrev pub alone : ColumnarPayload foreign → ColumnType → PartialPayload foreign
  alone p t = with_columns foreign p (t ∷ []) (default_partial foreign)

  -- Every column that the engine reads is the payload's.
  pub record IsEngineOf (e : QueryEngine) (p : ColumnarPayload foreign) : Type 0 where
    pub read : (t : ColumnType) → read_raw_column foreign codecs services e t ≡ ok (alone p t)

  pub from_reader-IsEngineOf :
      (captures_iter : Bytes → List (List Group)) (lines_count : Bytes → ℕ)
      (level : CompressionLevel) (whole file : Bytes)
      → IsCodecs foreign codecs
      → compress foreign codecs captures_iter lines_count level whole ≡ ok file
      → length file < 2 ^ 32
      → (e : QueryEngine) × (from_reader file ≡ ok e)
        × IsEngineOf e (encode foreign captures_iter whole)
  unfolding from_reader read_raw_column
  from_reader-IsEngineOf captures_iter lines_count level whole file laws e l =
      let p = encode foreign captures_iter whole in
      let (cs, held, f) =
        compress-IsFile foreign codecs captures_iter lines_count level whole laws e in
      (
        record { source = file; metadata = record { header = f.header; columns = f.entries } },
        rw f.read refl,
        record { read = λ t. read_columns-IsFile foreign codecs p held f l 0 (t ∷ []) },
      )

  pub filter_op-IsEngineOf :
      (e : QueryEngine) (p : ColumnarPayload foreign) (t : ColumnType) (column : Bytes) (op : Op)
      (value : Bytes)
      → IsEngineOf e p
      → name_to_type column ≡ ok t
      → filter_op foreign codecs services e column op value
        ≡ filter_partial foreign services (alone p t) t op value
  unfolding filter_op
  filter_op-IsEngineOf e p t column op value engine named = rw (named, engine.read t) refl

  -- The columns of numbers: levels, addresses and identifiers.
  unfoldable pub number_column : ColumnType → ColumnarPayload foreign → List ℕ
  number_column log_levels p = p.log_levels
  number_column ipv4 p = p.ipv4_addrs
  number_column ipv6 p = p.ipv6_addrs
  number_column uuids p = p.uuids
  number_column _ p = []

  -- The number that a text stands for in the column.
  unfoldable pub number_target : ColumnType → Bytes → Option ℕ
  number_target log_levels value =
      some (LogLevel.as_u8 (LogLevel.parse_level foreign.to_uppercase value))
  number_target ipv4 value = foreign.parse_ipv4_addr value
  number_target ipv6 value = foreign.parse_ipv6_addr value
  number_target uuids value = parse_uuid value
  number_target _ value = none

  pub filter_partial-number :
      (p : ColumnarPayload foreign) (t : ColumnType) (op : Op) (value : Bytes) {target : ℕ}
      → number_target t value ≡ some target
      → filter_partial foreign services (alone p t) t op value
        ≡ ok (scan_primitive number_order (number_column t p) op target)
  unfolding filter_partial with_columns same_type as_u8 number_column number_target
  filter_partial-number p skeleton op value h = cc
  filter_partial-number p placeholder_map op value h = cc
  filter_partial-number p timestamps op value h = cc
  filter_partial-number p ipv4 op value h = rw h refl
  filter_partial-number p ipv6 op value h = rw h refl
  filter_partial-number p log_levels op value h =
      ap (λ n. ok (scan_primitive number_order p.log_levels op n)) (some-injective _ _ h)
  filter_partial-number p numbers op value h = cc
  filter_partial-number p uuids op value h = rw h refl
  filter_partial-number p emails op value h = cc
  filter_partial-number p urls op value h = cc
  filter_partial-number p paths op value h = cc
  filter_partial-number p date_days op value h = cc
  filter_partial-number p dates_raw op value h = cc
  filter_partial-number p time_ms op value h = cc
  filter_partial-number p times_raw op value h = cc
  filter_partial-number p hex_values op value h = cc
  filter_partial-number p others op value h = cc
  filter_partial-number p timestamps_raw op value h = cc

  -- Let the codecs read back what they wrote, and let compressing a text succeed with a file of
  -- fewer than 2^32 bytes. Then filtering the file by a column of log levels, addresses or
  -- identifiers, with a value that stands for a number there, gives ascending indices, and an index
  -- is among them exactly when the column of the text has at it a number that compares so with
  -- the value's.
  pub filter_op-numbers :
      (captures_iter : Bytes → List (List Group)) (lines_count : Bytes → ℕ)
      (level : CompressionLevel) (whole file : Bytes) (t : ColumnType) (op : Op) (value : Bytes)
      (target : ℕ)
      → IsCodecs foreign codecs
      → compress foreign codecs captures_iter lines_count level whole ≡ ok file
      → length file < 2 ^ 32
      → number_target t value ≡ some target
      → (let values = number_column t (encode foreign captures_iter whole) in
          (is : List ℕ) × ((do
            e ← from_reader file
            filter_op foreign codecs services e (codes (name t)) op value)
            ≡ ok is)
          × IsAscending 0 is
          × ((k : ℕ) → Occurs k is ↔ HasAt values op target k))
  unfolding scan_primitive
  filter_op-numbers captures_iter lines_count level whole file t op value target laws e l h =
      let p = encode foreign captures_iter whole in
      let (engine, opened, is_engine) =
        from_reader-IsEngineOf captures_iter lines_count level whole file laws e l in
      let (ascending, exact) =
        scan_from-exact (λ v. test_primitive number_order op v target) (number_column t p) in
      (
        scan_primitive number_order (number_column t p) op target,
        rw opened (
            filter_op-IsEngineOf engine p t (codes (name t)) op value is_engine
              ((name_to_type_iff (codes (name t)) t).1 refl)
            ∙ filter_partial-number p t op value h),
        ascending,
        λ k.
            let both = Passes-HasAt (number_column t p) op target k in
            (λ o. both.0 ((exact k).0 o), λ h. (exact k).1 (both.1 h)),
      )
