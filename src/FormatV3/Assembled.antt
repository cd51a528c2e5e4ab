-- ===== src/FormatV3/Assembled.antt =====
-- The file that `assemble` makes of the columns: its metadata, and where each column lies.
use alice_text.Prelude.{
  ℕ, ◌+◌, List, [], ◌∷◌, ◌%◌, ◌≡◌, ◌++◌, ap, ◌*◌, ◌^◌, arith, sym, length-append, refl, ◌<◌,
}
use mathlib.Core.List.{append_assoc}
use alice_text.Bytes.{Bytes}
use alice_text.Error.{ok}
use alice_text.Container.{magic}
use mathlib.Core.Path.{subst}
use alice_text.Error.Laws.{ok-injective, bind-ok}
use alice_text.Columnar.Matches.{Group}
use alice_text.Columnar.Encoder.{encode}
use alice_text.FormatV3.{
  zstd_level, fast, balanced, best, read_from, CompressionLevel, level_byte, length, suc,
}
use alice_text.FormatV3.Values.{IsCodecs, Codecs}
use alice_text.FormatV3.Writer.{
  write_columns, compress, Column, entries_from, data_bytes, directory_bytes, data_start, header_of,
  output_of, assemble, write_order,
}
use alice_text.FormatV3.Written.{write_columns-Holds, Holds, nothing, column}
use alice_text.Columnar.Foreign.{Foreign}
use alice_text.Columnar.Payload.{ColumnarPayload}
use alice_text.Wire.Columns
use alice_text.Wire.Columns.{ColumnEntry, FormatV3Header, header_to_bytes, entry_size, header_size}
use alice_text.Wire.Columns.Types.{ColumnType}
use alice_text.FormatV3.Layout.{at, AreEntries, empty, entry, read_from-output_of}

length-entries_from : (offset : ℕ) (cs : List Column) → length (entries_from offset cs) ≡ length cs
unfolding entries_from
length-entries_from offset [] = refl
length-entries_from offset (c ∷ cs) =
    ap suc (length-entries_from ((offset + length c.compressed) % 2 ^ 64) cs)

length-directory_bytes :
    (es : List ColumnEntry) → length (directory_bytes es) ≡ length es * entry_size
unfolding directory_bytes
length-directory_bytes [] = refl
length-directory_bytes (e ∷ es) = omega (
  arith,
  length-append (Columns.entry_to_bytes e) (directory_bytes es),
  Columns.length-entry_to_bytes e,
  length-directory_bytes es,
)

level_byte-lt : (level : CompressionLevel) → level_byte level < 256
unfolding level_byte
level_byte-lt fast = omega arith
level_byte-lt balanced = omega arith
level_byte-lt best = omega arith

header_of-IsHeader :
    (level : CompressionLevel) (n m : ℕ) (es : List ColumnEntry)
    → Columns.IsHeader (header_of level (n % 2 ^ 64) (m % 2 ^ 64) es)
unfolding header_of level_byte
header_of-IsHeader level n m es = record {
  original_length = omega arith;
  compression_level = level_byte-lt level;
  column_count = omega arith;
  row_count = omega arith;
  reserved = refl;
}

-- What stands before the data.
front_bytes : FormatV3Header → List ColumnEntry → Bytes
front_bytes header entries = magic ++ (3 ∷ 0 ∷ (header_to_bytes header ++ directory_bytes entries))

length-front_bytes :
    (header : FormatV3Header) (entries : List ColumnEntry)
    → Columns.IsHeader header
    → length (front_bytes header entries) ≡ 8 + 2 + header_size + length entries * entry_size
unfolding front_bytes
length-front_bytes header entries v = omega (
  arith,
  length-append (header_to_bytes header) (directory_bytes entries),
  Columns.length-header_to_bytes header v,
  length-directory_bytes entries,
)

output_of-front_bytes :
    (header : FormatV3Header) (entries : List ColumnEntry) (cs : List Column)
    → output_of header entries cs ≡ front_bytes header entries ++ data_bytes cs
unfolding output_of front_bytes
output_of-front_bytes header entries cs =
    ap (λ r. magic ++ (3 ∷ 0 ∷ r))
      (sym (append_assoc (header_to_bytes header) (directory_bytes entries) (data_bytes cs)))

module _ (foreign : Foreign) (codecs : Codecs foreign) (p : ColumnarPayload foreign) where
  length-Holds :
      {ts : List ColumnType} {cs : List Column}
      → Holds foreign codecs p ts cs
      → length cs ≡ length ts
  length-Holds nothing = refl
  length-Holds (column z b ez eb held) = ap suc (length-Holds held)

  entries_from-AreEntries :
      (offset : ℕ) {ts : List ColumnType} {cs : List Column}
      → offset < 2 ^ 64
      → Holds foreign codecs p ts cs
      → AreEntries (entries_from offset cs)
  unfolding entries_from
  entries_from-AreEntries offset l nothing = empty
  entries_from-AreEntries offset l (column z b ez eb held) =
      entry
        (record {
          offset = l;
          compressed_size = omega arith;
          uncompressed_size = omega arith;
          row_count = omega arith;
        })
        (entries_from-AreEntries ((offset + length z) % 2 ^ 64) (omega arith) held)

  -- The columns of a payload, put together, are a file with these bytes before the data.
  pub record IsFile (bytes : Bytes) (cs : List Column) : Type 0 where
    pub header : FormatV3Header
    pub front : Bytes
    pub entries : List ColumnEntry
    pub entries_eq : entries ≡ entries_from (length front) cs
    pub bytes_eq : bytes ≡ front ++ data_bytes cs
    pub position : ℕ
    pub read :
        read_from (at bytes 0)
        ≡ ok (record { header = header; columns = entries }, at bytes position)

  pub assemble-IsFile :
      (level : CompressionLevel) (n m : ℕ) {cs : List Column}
      → Holds foreign codecs p write_order cs
      → IsFile (assemble level (n % 2 ^ 64) (m % 2 ^ 64) cs) cs
  unfolding assemble data_start
  assemble-IsFile level n m {cs} held =
      let start = data_start cs % 2 ^ 64 in
      let entries = entries_from start cs in
      let header = header_of level (n % 2 ^ 64) (m % 2 ^ 64) entries in
      let v = header_of-IsHeader level n m entries in
      let l = length-front_bytes header entries v in
      let l' = length-entries_from start cs in
      record {
        header = header;
        front = front_bytes header entries;
        entries = entries;
        entries_eq = ap (λ k. entries_from k cs) (omega (arith, l, l', length-Holds held));
        bytes_eq = output_of-front_bytes header entries cs;
        position = 8 + 2 + header_size + length entries * entry_size;
        read =
            read_from-output_of header entries cs v
              (entries_from-AreEntries start (omega arith) held)
              (omega (arith, l', length-Holds held));
      }

  pub assembled-IsFile :
      (level : CompressionLevel) (n m : ℕ) {cs : List Column} {file : Bytes}
      → IsCodecs foreign codecs
      → write_columns foreign codecs (zstd_level level) p write_order ≡ ok cs
      → assemble level (n % 2 ^ 64) (m % 2 ^ 64) cs ≡ file
      → Holds foreign codecs p write_order cs × IsFile file cs
  assembled-IsFile level n m {cs} laws ew ea =
      let held = write_columns-Holds foreign codecs p (zstd_level level) write_order laws ew in
      (held, subst (λ f. IsFile f cs) ea (assemble-IsFile level n m held))

module _ (foreign : Foreign) (codecs : Codecs foreign) where
  -- A compressed text is a file of the columns of its payload.
  pub compress-IsFile :
      (captures_iter : Bytes → List (List Group)) (lines_count : Bytes → ℕ)
      (level : CompressionLevel) (whole : Bytes) {file : Bytes}
      → IsCodecs foreign codecs
      → compress foreign codecs captures_iter lines_count level whole ≡ ok file
      → (let p = encode foreign captures_iter whole in
          (cs : List Column) × Holds foreign codecs p write_order cs
          × IsFile foreign codecs p file cs)
  unfolding compress
  compress-IsFile captures_iter lines_count level whole laws e =
      let p = encode foreign captures_iter whole in
      let (cs, ew, ea) =
        bind-ok (write_columns foreign codecs (zstd_level level) p write_order) _ e in
      let (held, f) =
        assembled-IsFile foreign codecs p level (length whole) (lines_count whole) laws ew
          (ok-injective ea) in
      (cs, held, f)
