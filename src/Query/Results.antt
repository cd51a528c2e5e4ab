-- ===== src/Query/Results.antt =====
-- `QueryRow` and `QueryResult` of `src/query_engine.rs`.
use alice_text.Prelude.{
  ℕ, List, [], ◌∷◌, none, some, Bool, length, map, ◌++◌, if◌then◌else◌, ◌==◌, replicate, ◌*◌,
}
use alice_text.Bytes.{Bytes}
use alice_text.Query.Text.{codes, lookup, join}

-- `values`
pub record QueryRow : Type 0 where
  pub values : List (Bytes × Bytes)

pub record QueryResult : Type 0 where
  pub columns : List Bytes
  pub rows : List QueryRow

unfoldable pub len : QueryResult → ℕ
len r = length r.rows

unfoldable pub is_empty : QueryResult → Bool
is_empty r = length r.rows == 0

-- `filter_map(|row| row.values.get(column))`
unfoldable pub values_of : Bytes → List QueryRow → List Bytes
values_of column [] = []
values_of column (row ∷ rows) =
    let rest = values_of column rows in
    elim (lookup column row.values) [ some v ↦ v ∷ rest | none ↦ rest ]

unfoldable pub column_values : QueryResult → Bytes → List Bytes
unfolding values_of
column_values r column = values_of column r.rows

unfoldable pub row_line : List Bytes → QueryRow → Bytes
row_line columns row =
    join (9 ∷ []) (map (λ c. elim (lookup c row.values) [ some v ↦ v | none ↦ [] ]) columns)
    ++ 10 ∷ []

unfoldable pub row_lines : List Bytes → List QueryRow → Bytes
unfolding row_line
row_lines columns [] = []
row_lines columns (row ∷ rows) = row_line columns row ++ row_lines columns rows

unfoldable pub to_table : QueryResult → Bytes
unfolding row_lines
to_table r =
    if length r.rows == 0
    then codes "(empty result)"
    else join (9 ∷ []) r.columns
      ++ (10 ∷ (replicate (length r.columns * 20) b'-' ++ (10 ∷ row_lines r.columns r.rows)))
