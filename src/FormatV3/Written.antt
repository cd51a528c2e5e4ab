-- ===== src/FormatV3/Written.antt =====
-- The columns that `compress` writes hold the payload's.
use alice_text.Prelude.{ℕ, List, [], ◌∷◌, ◌≡◌, some, ◌%◌, ◌^◌, ◌<◌, length, ap, lt→ltb, ◌++◌, ◌∙◌}
use mathlib.Core.Path.{subst}
use alice_text.Bytes.{Bytes}
use alice_text.Error.{ok, or_error, encoding_error}
use alice_text.Error.Laws.{ok-injective, or_error-ok, bind-ok}
use alice_text.Columnar.Foreign.{Foreign}
use alice_text.Columnar.Payload.{ColumnarPayload}
use alice_text.Wire.Columns.Types.{ColumnType}
use alice_text.FormatV3.Values.{Codecs, IsCodecs, column_of, value_count}
use alice_text.FormatV3.Writer.{Column, add_column, write_columns}

module _ (foreign : Foreign) (codecs : Codecs foreign) (p : ColumnarPayload foreign) where
  -- The columns of these types, in this order, each with bytes that give the payload's column.
  pub data Holds : List ColumnType → List Column → Type 0 where
    nothing : Holds [] []
    column :
        {t : ColumnType} {ts : List ColumnType} {cs : List Column} (z b : Bytes)
        → codecs.decode_all z ≡ some b
        → codecs.deserialize t b ≡ some (column_of foreign t p)
        → Holds ts cs
        → Holds (t ∷ ts) (
            record {
              col_type = t;
              compressed = z;
              count = value_count foreign t (column_of foreign t p) % 2 ^ 32;
            }
            ∷ cs)

  -- Bytes that are there are pushed.
  add_column-pushes :
      (level : ℕ) (t : ColumnType) (b : Bytes) (n : ℕ) {here : List Column}
      → 0 < length b
      → add_column foreign codecs level t b n ≡ ok here
      → (z : Bytes) × (codecs.encode_all level b ≡ some z)
        × (record { col_type = t; compressed = z; count = n } ∷ [] ≡ here)
  unfolding add_column
  add_column-pushes level t b n l h =
      let (z, ez, h₁) =
        bind-ok (or_error (codecs.encode_all level b) (encoding_error "Zstd error")) _
          (rw (lt→ltb 0 (length b) l) at h) in
      (z, or_error-ok (codecs.encode_all level b) (encoding_error "Zstd error") ez, ok-injective h₁)

  pub write_columns-Holds :
      (level : ℕ) (ts : List ColumnType) {cs : List Column}
      → IsCodecs foreign codecs
      → write_columns foreign codecs level p ts ≡ ok cs
      → Holds ts cs
  unfolding write_columns add_column
  write_columns-Holds level [] laws h = subst (Holds []) (ok-injective h) nothing
  write_columns-Holds level (t ∷ ts) laws h =
      let v = column_of foreign t p in
      let n = value_count foreign t v % 2 ^ 32 in
      let (b, eb, h₁) =
        bind-ok (or_error (codecs.serialize t v) (encoding_error "Bincode error")) _ h in
      let eb' = or_error-ok (codecs.serialize t v) (encoding_error "Bincode error") eb in
      let (here, eh, h₂) = bind-ok (add_column foreign codecs level t b n) _ h₁ in
      let (rest, er, h₃) = bind-ok (write_columns foreign codecs level p ts) _ h₂ in
      let (z, ez, h₄) = add_column-pushes level t b n (laws.serialize-not_empty t v b eb') eh in
      subst (Holds (t ∷ ts)) (ap (λ c. c ++ rest) h₄ ∙ ok-injective h₃) (
        column z b (laws.decode_all-encode_all level b z ez) (laws.deserialize-serialize t v b eb')
          (write_columns-Holds level ts laws er))
