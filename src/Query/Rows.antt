-- ===== src/Query/Rows.antt =====
-- The rows of a query: for each index that the filter gives, the values of the selected columns there.
use alice_text.Error.{ok, ◌>>=◌}
use alice_text.Columnar.Foreign.{Foreign}
use alice_text.Columnar.Matches.{Group}
use alice_text.Columnar.Payload.{ColumnarPayload}
use alice_text.Columnar.Encoder.{encode}
use alice_text.FormatV3.{CompressionLevel}
use alice_text.FormatV3.Values.{Codecs, IsCodecs}
use alice_text.FormatV3.Writer.{compress}
use alice_text.Query.{Op, Services, name_to_type}
use alice_text.Query.Values.{get_value_at}
use alice_text.Query.Cells.{cell, get_value_at-cell}
use alice_text.Query.Results.{QueryRow, QueryResult}
use alice_text.Query.Engine.{
  QueryEngine, from_reader, names_to_types, read_raw_columns, fill_row, rows_at, filter_op,
  materialize, query,
}
use alice_text.Query.Answers.{IsEngineOf, alone, from_reader-IsEngineOf}
use mathlib.Core.Option.{some-injective}
use alice_text.Prelude.{
  zero, suc, length-map, ℕ, List, [], ◌∷◌, none, some, Bool, true, false, same_list, ◌≡◌, ◌||◌, sym,
  if◌then◌else◌, arith, ◌∙◌, same_list_iff, ap, same_list→eq, refl, Option, map, Option-cases,
  Bool-cases, inl, inr, get_elem?, length, ◌<◌, ◌^◌,
}
use mathlib.Core.Path.{subst}
use alice_text.Bytes.{Bytes}
use alice_text.Error.Laws.{ok-injective, bind-ok}
use alice_text.Wire.Columns.Types.{ColumnType}
use alice_text.Query.Text.{lookup, insert}

-- The name is among those selected.
abbrev pub selected : Bytes → List Bytes → Bool
selected n [] = false
selected n (m ∷ ms) = same_list m n || selected n ms

lookup-insert :
    {V : Type 0} (k j : Bytes) (v : V) (m : List (Bytes × V))
    → lookup j (insert k v m) ≡ (if same_list k j then some v else lookup j m)
unfolding lookup insert
lookup-insert k j v [] = refl
lookup-insert k j v ((i, w) ∷ m) =
    ground (arith, same_list_iff k j, same_list_iff i k, same_list_iff i j, lookup-insert k j v m)

-- The types of the names, one by one.
data AreTyped : List Bytes → List ColumnType → Type 0 where
  empty : AreTyped [] []
  typed :
      {n : Bytes} {ns : List Bytes} {t : ColumnType} {ts : List ColumnType}
      → name_to_type n ≡ ok t
      → AreTyped ns ts
      → AreTyped (n ∷ ns) (t ∷ ts)

names_to_types-AreTyped :
    (ns : List Bytes) {ts : List ColumnType} → names_to_types ns ≡ ok ts → AreTyped ns ts
unfolding names_to_types
names_to_types-AreTyped [] h = subst (AreTyped []) (ok-injective h) empty
names_to_types-AreTyped (n ∷ ns) h =
    let (t, et, h₁) = bind-ok (name_to_type n) _ h in
    let (ts, es, h₂) = bind-ok (names_to_types ns) _ h₁ in
    subst (AreTyped (n ∷ ns)) (ok-injective h₂) (typed et (names_to_types-AreTyped ns es))

-- Equal names have equal types.
named_type :
    (m n : Bytes) {t u : ColumnType}
    → same_list m n ≡ true
    → name_to_type m ≡ ok u
    → name_to_type n ≡ ok t
    → u ≡ t
named_type m n s em en = ok-injective (sym em ∙ ap name_to_type (same_list→eq m n s) ∙ en)

module _ (foreign : Foreign) (codecs : Codecs foreign) (services : Services foreign) where
  module _ (p : ColumnarPayload foreign) (i : ℕ) where
    -- The value of the payload's column at the index.
    abbrev shown : ColumnType → Option Bytes
    shown t = get_value_at foreign (alone foreign codecs services p t) t i

    abbrev filled : List Bytes → List ColumnType → List (Bytes × Bytes) → List (Bytes × Bytes)
    filled ns ts values =
        fill_row foreign codecs services i ns ts (map (alone foreign codecs services p) ts) values

    -- One turn of the loop: the name has a value at the index, or it has none.
    filled-some :
        (m v : Bytes) (ms : List Bytes) (u : ColumnType) (us : List ColumnType)
        (values : List (Bytes × Bytes))
        → shown u ≡ some v
        → filled (m ∷ ms) (u ∷ us) values ≡ filled ms us (insert m v values)
    unfolding fill_row
    filled-some m v ms u us values e = rw (e, fill_row) refl

    filled-none :
        (m : Bytes) (ms : List Bytes) (u : ColumnType) (us : List ColumnType)
        (values : List (Bytes × Bytes))
        → shown u ≡ none
        → filled (m ∷ ms) (u ∷ us) values ≡ filled ms us values
    unfolding fill_row
    filled-none m ms u us values e = rw (e, fill_row) refl

    module _ (n : Bytes) (t : ColumnType) (named : name_to_type n ≡ ok t) where
      -- An insertion under the name puts the value that it has.
      lookup-insert_named :
          (m v : Bytes) (u : ColumnType) (values : List (Bytes × Bytes))
          → same_list m n ≡ true
          → name_to_type m ≡ ok u
          → shown u ≡ some v
          → lookup n (insert m v values) ≡ shown t
      lookup-insert_named m v u values s em e =
          lookup-insert m n v values ∙ rw s (sym e ∙ ap shown (named_type m n s em named))

      lookup-insert_other :
          (m v : Bytes) (values : List (Bytes × Bytes))
          → same_list m n ≡ false
          → lookup n (insert m v values) ≡ lookup n values
      lookup-insert_other m v values o = lookup-insert m n v values ∙ rw o refl

      -- What the map has for the name stays.
      keep :
          {ns : List Bytes} {ts : List ColumnType} (values : List (Bytes × Bytes))
          → AreTyped ns ts
          → lookup n values ≡ shown t
          → lookup n (filled ns ts values) ≡ shown t
      unfolding fill_row
      keep values empty h = h
      keep values (typed {n = m} {ns} {t = u} {ts} em rest) h = elim (Option-cases (shown u)) [
        | inl e ↦ rw (filled-none m ns u ts values e) (keep values rest h)
        | inr (v, e) ↦ rw (filled-some m v ns u ts values e) (
            keep (insert m v values) rest (elim (Bool-cases (same_list m n)) [
              | inl s ↦ lookup-insert_named m v u values s em e
              | inr o ↦ lookup-insert_other m v values o ∙ h
            ]))
      ]

      find :
          {ns : List Bytes} {ts : List ColumnType} (values : List (Bytes × Bytes))
          → AreTyped ns ts
          → selected n ns ≡ true
          → lookup n values ≡ none
          → lookup n (filled ns ts values) ≡ shown t
      find values empty l h = cc
      find values (typed {n = m} {ns} {t = u} {ts} em rest) l h = elim (Option-cases (shown u)) [
        | inl e ↦ rw (filled-none m ns u ts values e) (elim (Bool-cases (same_list m n)) [
          | inl s ↦ keep values rest (h ∙ sym e ∙ ap shown (named_type m n s em named))
          | inr o ↦ find values rest (rw o at l) h
        ])
        | inr (v, e) ↦ rw (filled-some m v ns u ts values e) (elim (Bool-cases (same_list m n)) [
          | inl s ↦ keep (insert m v values) rest (lookup-insert_named m v u values s em e)
          | inr o ↦ find (insert m v values) rest (rw o at l) (lookup-insert_other m v values o ∙ h)
        ])
      ]

  read_raw_columns-IsEngineOf :
      (e : QueryEngine) (p : ColumnarPayload foreign) (ts : List ColumnType)
      → IsEngineOf foreign codecs services e p
      → read_raw_columns foreign codecs services e ts
        ≡ ok (map (alone foreign codecs services p) ts)
  unfolding read_raw_columns
  read_raw_columns-IsEngineOf e p [] engine = refl
  read_raw_columns-IsEngineOf e p (t ∷ ts) engine =
      rw (engine.read t, read_raw_columns-IsEngineOf e p ts engine) refl

  abbrev pub row_at : ColumnarPayload foreign → List Bytes → List ColumnType → ℕ → QueryRow
  row_at p names types i = record { values = filled p i names types [] }

  materialize-IsEngineOf :
      (e : QueryEngine) (p : ColumnarPayload foreign) (names : List Bytes) (types : List ColumnType)
      (is : List ℕ)
      → IsEngineOf foreign codecs services e p
      → names_to_types names ≡ ok types
      → materialize foreign codecs services e names is
        ≡ ok (record { columns = names; rows = map (row_at p names types) is })
  unfolding materialize rows_at
  materialize-IsEngineOf e p names types [] engine h = refl
  materialize-IsEngineOf e p names types (i ∷ is) engine h =
      rw (h, read_raw_columns-IsEngineOf e p types engine) refl

  get_elem?-row_at :
      (f : ℕ → QueryRow) (is : List ℕ) (k i : ℕ)
      → get_elem? is k ≡ some i
      → get_elem? (map f is) k ≡ some (f i)
  get_elem?-row_at f [] k i h = cc
  get_elem?-row_at f (j ∷ is) zero i h = ap (λ m. some (f m)) (some-injective j i h)
  get_elem?-row_at f (j ∷ is) (suc k) i h = get_elem?-row_at f is k i h

  -- Let the codecs read back what they wrote, let compressing a text succeed with a file of fewer
  -- than 2^32 bytes, let all selected names be columns', and let the filter of a query of the file
  -- succeed. Then the query succeeds with one row for each index of the filter, and in the row for
  -- an index each selected name has the text of the value at that index of its column of the
  -- text: of timestamps, addresses, log levels, numbers, UUIDs, e-mail addresses, URLs and paths.
  -- It has nothing where that column ends before the index, and nothing for the nine other types
  -- of columns, whatever the text has of them.
  pub query-rows :
      (captures_iter : Bytes → List (List Group)) (lines_count : Bytes → ℕ)
      (level : CompressionLevel) (whole file : Bytes) (names : List Bytes) (filter_column : Bytes)
      (op : Op) (value : Bytes) (types : List ColumnType) (is : List ℕ) (k i : ℕ) (n : Bytes)
      (t : ColumnType)
      → IsCodecs foreign codecs
      → compress foreign codecs captures_iter lines_count level whole ≡ ok file
      → length file < 2 ^ 32
      → names_to_types names ≡ ok types
      → (do e ← from_reader file; filter_op foreign codecs services e filter_column op value)
        ≡ ok is
      → get_elem? is k ≡ some i
      → selected n names ≡ true
      → name_to_type n ≡ ok t
      → (r : QueryResult) × (row : QueryRow) × ((do
        e ← from_reader file
        query foreign codecs services e names filter_column op value)
          ≡ ok r)
        × (r.columns ≡ names)
        × (length r.rows ≡ length is)
        × (get_elem? r.rows k ≡ some row)
        × (lookup n row.values ≡ cell foreign (encode foreign captures_iter whole) i t)
  unfolding query lookup
  query-rows captures_iter lines_count level whole file names filter_column op value types is k i n
        t laws e l ts hf hk hs hn =
      let p = encode foreign captures_iter whole in
      let (engine, opened, is_engine) =
        from_reader-IsEngineOf foreign codecs services captures_iter lines_count level whole file
          laws e l in
      (
        record { columns = names; rows = map (row_at p names types) is },
        row_at p names types i,
        rw (opened, (rw opened at hf))
            (materialize-IsEngineOf engine p names types is is_engine ts),
        refl,
        length-map is (row_at p names types),
        get_elem?-row_at (row_at p names types) is k i hk,
        find p i n t hn [] (names_to_types-AreTyped names ts) hs refl
            ∙ get_value_at-cell foreign codecs services p i t,
      )
