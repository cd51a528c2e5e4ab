-- ===== src/Query/Builder.antt =====
-- `QueryBuilder`, `compress_v3` and `decompress_v3` of `src/query_engine.rs`.
use alice_text.Prelude.{ℕ, List, [], Option, none, some}
use alice_text.Bytes.{Bytes}
use alice_text.Error.{Result}
use alice_text.Columnar.Foreign.{Foreign}
use alice_text.Columnar.Matches.{Group}
use alice_text.FormatV3.{CompressionLevel}
use alice_text.FormatV3.Values.{Codecs}
use alice_text.FormatV3.Writer.{compress}
use alice_text.FormatV3.Reader.{decompress}
use alice_text.Query.{Op, Services}
use alice_text.Query.Results.{QueryResult}
use alice_text.Query.Engine.{QueryEngine, query, select_columns}

module _ (foreign : Foreign) (codecs : Codecs foreign) (services : Services foreign) where
  pub record QueryBuilder : Type 0 where
    pub engine : QueryEngine
    pub select_cols : List Bytes
    pub filter_col : Option Bytes
    pub filter_operator : Option Op
    pub filter_value : Option Bytes

  unfoldable pub new_builder : QueryEngine → QueryBuilder
  new_builder e = record {
    engine = e;
    select_cols = [];
    filter_col = none;
    filter_operator = none;
    filter_value = none;
  }

  unfoldable pub with_select : List Bytes → QueryBuilder → QueryBuilder
  with_select columns b = record b { select_cols = columns }

  unfoldable pub with_filter : Bytes → Op → Bytes → QueryBuilder → QueryBuilder
  with_filter column op value b = record b {
    filter_col = some column;
    filter_operator = some op;
    filter_value = some value;
  }

  -- A filter wants all its three parts.
  unfoldable pub run_filter :
      QueryEngine → List Bytes → Option Bytes → Option Op → Option Bytes → Result QueryResult
  unfolding query select_columns
  run_filter e names (some column) (some op) (some value) =
      query foreign codecs services e names column op value
  run_filter e names _ _ _ = select_columns foreign codecs services e names

  unfoldable pub execute : QueryBuilder → Result QueryResult
  unfolding run_filter
  execute b = run_filter b.engine b.select_cols b.filter_col b.filter_operator b.filter_value

-- `compress_v3`, `decompress_v3`
unfoldable pub compress_v3 :
    (foreign : Foreign)
    → Codecs foreign
    → (Bytes → List (List Group))
    → (Bytes → ℕ)
    → Bytes
    → CompressionLevel
    → Result Bytes
compress_v3 foreign codecs captures_iter lines_count whole level =
    compress foreign codecs captures_iter lines_count level whole

unfoldable pub decompress_v3 : (foreign : Foreign) → Codecs foreign → Bytes → Result Bytes
decompress_v3 foreign codecs bytes = decompress foreign codecs bytes
