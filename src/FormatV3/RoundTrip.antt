-- ===== src/FormatV3/RoundTrip.antt =====
-- What `compress` writes is read back by `decompress`.
use alice_text.Columnar.Skeleton.RoundTrip.{IsPlain}
use alice_text.Columnar.Matches.{Group, find_matches, skeleton_with}
use alice_text.Columnar.Matches.Order.{CapturesInside}
use alice_text.Columnar.Payload
use alice_text.Columnar.Encoder.{encode, decode}
use alice_text.Columnar.Encoder.Lossless.{Lossless, decode-encode}
use alice_text.Prelude.{
  ℕ, ◌+◌, List, [], ◌∷◌, ◌%◌, ◌≡◌, ◌++◌, ◌^◌, ◌<◌, sym, ap, refl, ◌∙◌, arith, length-append, ◌≤◌,
}
use alice_text.Bytes.{Bytes}
use alice_text.Error.{ok}
use alice_text.Columnar.Payload.{restore, ColumnarPayload}
use alice_text.FormatV3.{CompressionLevel, seek, length, some}
use alice_text.FormatV3.Values.{IsCodecs, Codecs, column_of}
use alice_text.FormatV3.Writer.{compress, Column, entries_from, data_bytes, write_order}
use alice_text.FormatV3.{zstd_level}
use alice_text.FormatV3.Success.{Succeeds, file_of, compress-Succeeds}
use alice_text.FormatV3.Assembled.{IsFile, compress-IsFile}
use alice_text.FormatV3.Reader.{
  read_all_columns, decompress, Parts, default_parts, assign, merge_raw, read_column, value_from,
  read_parts,
}
use alice_text.Columnar.Foreign.{Foreign}
use alice_text.Wire.Columns.{ColumnEntry}
use alice_text.Wire.Columns.Types.{ColumnType}
use alice_text.FormatV3.Layout.{at, read_exact-append, pass_part}
use alice_text.FormatV3.Written.{Holds, nothing, column}

module _ (foreign : Foreign) (codecs : Codecs foreign) where
  -- A column that lies where its entry says is read.
  pub read_column-found :
      (bytes before z rest b : Bytes) (pos : ℕ) (e : ColumnEntry)
      → bytes ≡ before ++ (z ++ rest)
      → e.offset ≡ length before
      → e.compressed_size ≡ length z
      → codecs.decode_all z ≡ some b
      → read_column foreign codecs (at bytes pos) e
        ≡ ok (b, at bytes (e.offset + e.compressed_size))
  unfolding read_column seek
  read_column-found bytes before z rest b pos e split o n d =
      rw (read_exact-append bytes before z rest {pos = e.offset} split (sym o) (sym n), d) refl

  -- The entry of the first column, in a file of fewer than 2^32 bytes.
  abbrev pub first_entry : ColumnType → ℕ → ℕ → ℕ → ColumnEntry
  first_entry t offset size count = record {
    col_type = t;
    offset = offset;
    compressed_size = size % 2 ^ 32;
    uncompressed_size = 0;
    row_count = count;
  }

  module _ (p : ColumnarPayload foreign) where
    assign_all : List ColumnType → Parts foreign → Parts foreign
    assign_all [] s = s
    assign_all (t ∷ ts) s = assign_all ts (assign foreign t (column_of foreign t p) s)

    -- Every column assigned gives the payload.
    merge_raw-assign_all : merge_raw foreign (assign_all write_order (default_parts foreign)) ≡ p
    unfolding merge_raw assign_all assign column_of
    merge_raw-assign_all = refl

    read_parts-Holds :
        (bytes before : Bytes) (pos : ℕ) (s : Parts foreign) {ts : List ColumnType}
        {cs : List Column}
        → Holds foreign codecs p ts cs
        → bytes ≡ before ++ data_bytes cs
        → length bytes < 2 ^ 32
        → (pos' : ℕ) × (read_parts foreign codecs
              (entries_from (length before) cs)
              (at bytes pos, s)
            ≡ ok (at bytes pos', assign_all ts s))
    unfolding read_parts entries_from assign_all data_bytes value_from
    read_parts-Holds bytes before pos s nothing split l = (pos, refl)
    read_parts-Holds bytes before pos s {ts = t ∷ ts} {cs = c ∷ cs} (column z b ez eb held) split
          l =
        let sizes : length bytes ≡ length before + (length z + length (data_bytes cs)) =
          ap length split
          ∙ omega
              (arith, length-append before (z ++ data_bytes cs), length-append z (data_bytes cs)) in
        let next : (length before + length z) % 2 ^ 64 ≡ length (before ++ z) =
          omega (arith, length-append before z) in
        let entry = first_entry t (length before) (length z) c.count in
        let found =
          read_column-found bytes before z (data_bytes cs) b pos entry split refl (omega arith)
            ez in
        let (pos', rest) =
          read_parts-Holds bytes (before ++ z) (length before + length z % 2 ^ 32)
            (assign foreign t (column_of foreign t p) s) held
            (pass_part bytes before z (data_bytes cs) split) l in
        (pos', rw (found, eb, next) rest)

    read_all_columns-Holds :
        {bytes : Bytes} {cs : List Column} (pos : ℕ)
        → Holds foreign codecs p write_order cs
        → (f : IsFile foreign codecs p bytes cs) → length bytes < 2 ^ 32
        → read_all_columns foreign codecs
            (at bytes pos)
            (record { header = f.header; columns = f.entries })
          ≡ ok p
    unfolding read_all_columns
    read_all_columns-Holds {bytes} pos held f l =
        let (pos', parts) =
          read_parts-Holds bytes f.front pos (default_parts foreign) held f.bytes_eq l in
        rw (f.entries_eq, parts, merge_raw-assign_all) refl

    decompress-Holds :
        {bytes : Bytes} {cs : List Column}
        → Holds foreign codecs p write_order cs
        → IsFile foreign codecs p bytes cs
        → length bytes < 2 ^ 32
        → decompress foreign codecs bytes ≡ ok (restore foreign p)
    unfolding decompress
    decompress-Holds held f l = rw (f.read, read_all_columns-Holds f.position held f l) refl

  -- Let the codecs read back what they wrote, and let compressing a text succeed with a file of
  -- fewer than 2^32 bytes. Then decompressing the file gives what restoring the columns of the text
  -- gives.
  pub decompress-compress_columns :
      (captures_iter : Bytes → List (List Group)) (lines_count : Bytes → ℕ)
      (level : CompressionLevel) (whole file : Bytes)
      → IsCodecs foreign codecs
      → compress foreign codecs captures_iter lines_count level whole ≡ ok file
      → length file < 2 ^ 32
      → decompress foreign codecs file ≡ ok (restore foreign (encode foreign captures_iter whole))
  decompress-compress_columns captures_iter lines_count level whole file laws e l =
      let (cs, held, f) =
        compress-IsFile foreign codecs captures_iter lines_count level whole laws e in
      decompress-Holds (encode foreign captures_iter whole) held f l

  -- Let the codecs read back what they wrote and succeed on the columns of a text, with a file of
  -- fewer than 2^32 bytes. Let the text have no opening brace and up to 2^32 matches, each a stretch
  -- of the text that its column shows as it was, with one offset for all its timestamps. Then
  -- compressing the text succeeds with that file, and decompressing the file gives the text back.
  pub decompress-compress_v3 :
      (captures_iter : Bytes → List (List Group)) (lines_count : Bytes → ℕ)
      (level : CompressionLevel) (whole : Bytes) (serialized compressed : ColumnType → Bytes)
      → IsCodecs foreign codecs
      → Succeeds foreign codecs
          (encode foreign captures_iter whole)
          (zstd_level level)
          serialized
          compressed
      → length (file_of foreign codecs captures_iter lines_count level whole compressed) < 2 ^ 32
      → IsPlain whole
      → CapturesInside (length whole) (captures_iter whole)
      → (let ms = find_matches captures_iter whole in
          Lossless foreign (Payload.new foreign (skeleton_with whole ms)) ms)
      → length (find_matches captures_iter whole) ≤ 2 ^ 32
      → (let file = file_of foreign codecs captures_iter lines_count level whole compressed in
          (compress foreign codecs captures_iter lines_count level whole ≡ ok file)
          × (decompress foreign codecs file ≡ ok whole))
  unfolding decode
  decompress-compress_v3 captures_iter lines_count level whole serialized compressed laws s l plain
        inside lossless fits =
      let file = file_of foreign codecs captures_iter lines_count level whole compressed in
      let e = compress-Succeeds foreign codecs captures_iter lines_count level whole s in
      (
        e,
        decompress-compress_columns captures_iter lines_count level whole file laws e l
            ∙ ap ok (decode-encode foreign captures_iter whole plain inside lossless fits),
      )
