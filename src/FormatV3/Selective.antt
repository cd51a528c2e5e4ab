-- ===== src/FormatV3/Selective.antt =====
-- `read_columns` gives the columns it is asked for as they are in the whole payload.
use alice_text.Prelude.{
  inl, inr, ℕ, List, [], ◌∷◌, ◌≡◌, ◌++◌, ◌<◌, ◌^◌, ◌+◌, true, ap, sym, ◌∙◌, arith, length-append,
  Bool-cases, ◌%◌, refl,
}
use alice_text.Bytes.{Bytes}
use mathlib.Core.Path.{subst}
use alice_text.Error.{ok, ◌>>=◌}
use alice_text.Columnar.Foreign.{Foreign}
use alice_text.Columnar.Matches.{Group}
use alice_text.Columnar.Payload.{ColumnarPayload}
use alice_text.Columnar.Encoder.{encode}
use alice_text.Wire.Columns.{ColumnEntry}
use alice_text.Wire.Columns.Types.{ColumnType}
use alice_text.FormatV3.{
  CompressionLevel, FormatV3Metadata, same_type, find_column, get_column, read_from, length, some,
}
use alice_text.FormatV3.Layout.{at, pass_part}
use alice_text.FormatV3.Values.{Codecs, IsCodecs, column_of}
use alice_text.FormatV3.Writer.{Column, entries_from, data_bytes, write_order, compress}
use alice_text.FormatV3.Written.{Holds, nothing, column}
use alice_text.FormatV3.Assembled.{IsFile, compress-IsFile}
use alice_text.FormatV3.Reader.{
  PartialPayload, default_partial, read_column, read_selected, read_selection, read_columns,
}
use alice_text.FormatV3.RoundTrip.{read_column-found, first_entry}
use alice_text.FormatV3.Requested.{
  requested, same_type→eq, write_order_all, with_columns, put, with_columns-put, with_columns-nil,
  take_partial-put,
}

module _ (foreign : Foreign) (codecs : Codecs foreign) (p : ColumnarPayload foreign) where
  -- The entry that is found for the type, and what its bytes are.
  record IsFound (bytes : Bytes) (entries : List ColumnEntry) (t : ColumnType) : Type 0 where
    entry : ColumnEntry
    data_of : Bytes
    find : find_column entries t ≡ some entry
    read :
        (pos : ℕ)
        → read_column foreign codecs (at bytes pos) entry
          ≡ ok (data_of, at bytes (entry.offset + entry.compressed_size))
    value : codecs.deserialize t data_of ≡ some (column_of foreign t p)

  find_column-IsFound :
      (bytes before : Bytes) (t : ColumnType) {ts : List ColumnType} {cs : List Column}
      → Holds foreign codecs p ts cs
      → bytes ≡ before ++ data_bytes cs
      → length bytes < 2 ^ 32
      → requested t ts ≡ true
      → IsFound bytes (entries_from (length before) cs) t
  unfolding entries_from data_bytes find_column
  find_column-IsFound bytes before t nothing split l r = cc
  find_column-IsFound bytes before t {ts = s ∷ ts} {cs = c ∷ cs} (column z b ez eb held) split l r =
      let sizes : length bytes ≡ length before + (length z + length (data_bytes cs)) =
        ap length split
        ∙ omega
            (arith, length-append before (z ++ data_bytes cs), length-append z (data_bytes cs)) in
      let e = first_entry foreign codecs s (length before) (length z) c.count in
      elim (Bool-cases (same_type s t)) [
        | inl same ↦ record {
          entry = e;
          data_of = b;
          find = rw same refl;
          read = λ pos.
              read_column-found foreign codecs bytes before z (data_bytes cs) b pos e split refl
                (omega arith) ez;
          value =
              subst (λ u. codecs.deserialize u b ≡ some (column_of foreign u p))
                (same_type→eq s t same) eb;
        }
        | inr other ↦
            let next : (length before + length z) % 2 ^ 64 ≡ length (before ++ z) =
              omega (arith, length-append before z) in
            let f =
              find_column-IsFound bytes (before ++ z) t held
                (pass_part bytes before z (data_bytes cs) split) l (rw other at r) in
            record {
              entry = f.entry;
              data_of = f.data_of;
              find = rw (other, next) f.find;
              read = f.read;
              value = f.value;
            }
      ]

  module _ {bytes : Bytes} {cs : List Column} (held : Holds foreign codecs p write_order cs)
      (f : IsFile foreign codecs p bytes cs) (l : length bytes < 2 ^ 32) where
    abbrev metadata : FormatV3Metadata
    metadata = record { header = f.header; columns = f.entries }

    read_selection-with_columns :
        (pos : ℕ) (ts : List ColumnType) (q : PartialPayload foreign)
        → (pos' : ℕ) × (read_selection foreign codecs metadata ts (at bytes pos, q)
            ≡ ok (at bytes pos', with_columns foreign p ts q))
    unfolding read_selection read_selected get_column
    read_selection-with_columns pos [] q =
        (pos, ap (λ r. ok (at bytes pos, r)) (sym (with_columns-nil foreign p q)))
    read_selection-with_columns pos (t ∷ ts) q =
        let found = find_column-IsFound bytes f.front t held f.bytes_eq l (write_order_all t) in
        let (pos', rest) =
          read_selection-with_columns (found.entry.offset + found.entry.compressed_size) ts
            (put foreign p t q) in
        (
          pos',
          rw
              (
                f.entries_eq,
                found.find,
                found.read pos,
                take_partial-put foreign p codecs t found.data_of q found.value,
              )
              (rest ∙ ap (λ r. ok (at bytes pos', r)) (with_columns-put foreign p t ts q)),
        )

    pub read_columns-IsFile :
        (pos : ℕ) (ts : List ColumnType)
        → read_columns foreign codecs (at bytes pos) metadata ts
          ≡ ok (with_columns foreign p ts (default_partial foreign))
    unfolding read_columns
    read_columns-IsFile pos ts =
        let (pos', rest) = read_selection-with_columns pos ts (default_partial foreign) in
        rw rest refl

module _ (foreign : Foreign) (codecs : Codecs foreign) where
  -- Let the codecs read back what they wrote, and let compressing a text succeed with a file of
  -- fewer than 2^32 bytes. Then reading the metadata of the file and any selection of columns gives
  -- the timestamps, addresses, levels, numbers, identifiers, e-mails, URLs and paths that are
  -- asked for as they are in the columns of the text, and nothing for the others.
  pub read_columns-compress :
      (captures_iter : Bytes → List (List Group)) (lines_count : Bytes → ℕ)
      (level : CompressionLevel) (whole file : Bytes) (column_types : List ColumnType)
      → IsCodecs foreign codecs
      → compress foreign codecs captures_iter lines_count level whole ≡ ok file
      → length file < 2 ^ 32
      → (do r ← read_from (at file 0); read_columns foreign codecs r.1 r.0 column_types)
        ≡ ok (
            with_columns foreign
              (encode foreign captures_iter whole)
              column_types
              (default_partial foreign))
  read_columns-compress captures_iter lines_count level whole file ts laws e l =
      let p = encode foreign captures_iter whole in
      let (cs, held, f) =
        compress-IsFile foreign codecs captures_iter lines_count level whole laws e in
      rw f.read (read_columns-IsFile foreign codecs p held f l f.position ts)
