-- ===== src/Query/Engine.antt =====
-- `QueryEngine` of `src/query_engine.rs`. A mapped file and a buffer are both their bytes. The ratio
-- among the statistics is a floating-point number and left out.
use Prim.Native.Nat.{max}
use alice_text.Prelude.{
  ℕ, zero, suc, List, [], ◌∷◌, none, some, Bool, false, length, map, same_list, get_elem?, ◌||◌,
}
use Prim.Native.String.{String}
use alice_text.Bytes.{Bytes}
use alice_text.Error.{Result, ok, ◌>>=◌}
use alice_text.Columnar.Foreign.{Foreign}
use alice_text.Wire.Columns.{ColumnEntry}
use alice_text.Wire.Columns.Types.{ColumnType, name}
use alice_text.FormatV3
use alice_text.FormatV3.{CompressionLevel, Cursor, FormatV3Metadata, read_from, get_column}
use alice_text.FormatV3.Values.{Codecs}
use alice_text.FormatV3.Reader.{PartialPayload, read_columns, decompress}
use alice_text.Query.{Op, Services, scan_from, name_to_type}
use alice_text.Query.Text.{codes, insert}
use alice_text.Query.Values.{partial_to_strings, get_value_at, filter_partial}
use alice_text.Query.Results.{QueryRow, QueryResult}

pub record ColumnStats : Type 0 where
  pub name : String
  pub col_type : ColumnType
  pub row_count : ℕ
  pub compressed_size : ℕ

pub record FileStats : Type 0 where
  pub original_size : ℕ
  pub compressed_size : ℕ
  pub row_count : ℕ
  pub column_count : ℕ
  pub columns : List ColumnStats

-- `source` is `source.as_slice()`.
pub record QueryEngine : Type 0 where
  pub source : Bytes
  pub metadata : FormatV3Metadata

unfoldable pub from_reader : Bytes → Result QueryEngine
from_reader bytes = do
  r ← read_from (record { bytes = bytes; position = 0 })
  ok (record { source = bytes; metadata = r.0 })

unfoldable pub stats : QueryEngine → FileStats
stats e = record {
  original_size = e.metadata.header.original_length;
  compressed_size = FormatV3.compressed_size e.metadata;
  row_count = e.metadata.header.row_count;
  column_count = length e.metadata.columns;
  columns =
      map
        (λ c. record {
          name = name c.col_type;
          col_type = c.col_type;
          row_count = c.row_count;
          compressed_size = c.compressed_size;
        })
        e.metadata.columns;
}

-- `columns().any(..)`
unfoldable pub any_named : Bytes → List ColumnEntry → Bool
any_named s [] = false
any_named s (c ∷ cs) = same_list (codes (name c.col_type)) s || any_named s cs

unfoldable pub has_column : QueryEngine → Bytes → Bool
has_column e s = any_named s e.metadata.columns

-- `iter().map(|n| self.name_to_type(n)).collect::<Result<Vec<_>>>()`
unfoldable pub names_to_types : List Bytes → Result (List ColumnType)
names_to_types [] = ok []
names_to_types (n ∷ ns) = do t ← name_to_type n; ts ← names_to_types ns; ok (t ∷ ts)

-- `filter_map(|ct| self.metadata.get_column(*ct)).map(|e| e.row_count).max().unwrap_or(0)`
unfoldable pub max_rows : FormatV3Metadata → List ColumnType → ℕ
max_rows m [] = 0
max_rows m (t ∷ ts) =
    let rest = max_rows m ts in
    elim (get_column m t) [ some e ↦ max e.row_count rest | none ↦ rest ]

-- `0..n`, from a number on.
unfoldable pub range_from : ℕ → ℕ → List ℕ
range_from i zero = []
range_from i (suc n) = i ∷ range_from (suc i) n

-- `indices.iter().filter_map(|&i| all_values.get(i).cloned())`
unfoldable pub pick {ℓ} : {A : Type ℓ} → List A → List ℕ → List A
pick values [] = []
pick values (i ∷ is) =
    let rest = pick values is in elim (get_elem? values i) [ some v ↦ v ∷ rest | none ↦ rest ]

module _ (foreign : Foreign) (codecs : Codecs foreign) (services : Services foreign) where
  unfoldable pub read_raw_column : QueryEngine → ColumnType → Result (PartialPayload foreign)
  read_raw_column e t =
      read_columns foreign codecs (record { bytes = e.source; position = 0 }) e.metadata (t ∷ [])

  unfoldable pub select_column : QueryEngine → Bytes → Result (List Bytes)
  unfolding read_raw_column
  select_column e s = do
    t ← name_to_type s
    partial ← read_raw_column e t
    ok (partial_to_strings foreign partial t)

  unfoldable pub read_raw_columns :
      QueryEngine → List ColumnType → Result (List (PartialPayload foreign))
  unfolding read_raw_column
  read_raw_columns e [] = ok []
  read_raw_columns e (t ∷ ts) = do
    partial ← read_raw_column e t
    partials ← read_raw_columns e ts
    ok (partial ∷ partials)

  -- The values of one row, put into its map from the first column to the last.
  unfoldable pub fill_row :
      ℕ
      → List Bytes
      → List ColumnType
      → List (PartialPayload foreign)
      → List (Bytes × Bytes)
      → List (Bytes × Bytes)
  fill_row index (n ∷ ns) (t ∷ ts) (p ∷ ps) values = elim (get_value_at foreign p t index) [
    | some v ↦ fill_row index ns ts ps (insert n v values)
    | none ↦ fill_row index ns ts ps values
  ]
  fill_row index _ _ _ values = values

  unfoldable pub rows_at :
      List Bytes → List ColumnType → List (PartialPayload foreign) → List ℕ → List QueryRow
  unfolding fill_row
  rows_at names types partials indices =
      map (λ i. record { values = fill_row i names types partials [] }) indices

  unfoldable pub select_columns : QueryEngine → List Bytes → Result QueryResult
  unfolding names_to_types read_raw_columns max_rows range_from rows_at
  select_columns e names = do
    types ← names_to_types names
    partials ← read_raw_columns e types
    ok (record {
      columns = names;
      rows = rows_at names types partials (range_from 0 (max_rows e.metadata types));
    })

  unfoldable pub filter_op : QueryEngine → Bytes → Op → Bytes → Result (List ℕ)
  unfolding read_raw_column
  filter_op e column op value = do
    t ← name_to_type column
    partial ← read_raw_column e t
    filter_partial foreign services partial t op value

  unfoldable pub filter : QueryEngine → Bytes → (Bytes → Bool) → Result (List ℕ)
  unfolding select_column
  filter e column predicate = do values ← select_column e column; ok (scan_from 0 predicate values)

  unfoldable pub select_at : QueryEngine → Bytes → List ℕ → Result (List Bytes)
  unfolding select_column pick
  select_at e column indices = do values ← select_column e column; ok (pick values indices)

  -- What follows the filter in `query`; with no index, no name is looked at.
  unfoldable pub materialize : QueryEngine → List Bytes → List ℕ → Result QueryResult
  unfolding names_to_types read_raw_columns rows_at
  materialize e names [] = ok (record { columns = names; rows = [] })
  materialize e names (i ∷ is) = do
    types ← names_to_types names
    partials ← read_raw_columns e types
    ok (record { columns = names; rows = rows_at names types partials (i ∷ is) })

  unfoldable pub query : QueryEngine → List Bytes → Bytes → Op → Bytes → Result QueryResult
  unfolding filter_op materialize
  query e names filter_column op filter_value = do
    indices ← filter_op e filter_column op filter_value
    materialize e names indices

  unfoldable pub decompress_all : QueryEngine → Result Bytes
  decompress_all e = decompress foreign codecs e.source
