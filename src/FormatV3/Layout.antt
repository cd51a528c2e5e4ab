-- ===== src/FormatV3/Layout.antt =====
-- The header and the directory of a file are read back from their bytes.
use alice_text.Prelude.{
  same_list, ℕ, ◌+◌, List, [], ◌∷◌, ◌++◌, ◌≡◌, ap, arith, ◌∙◌, drop-append_all, le→ltb,
  length-append, take-append_all, refl, sym, ◌*◌,
}
use mathlib.Core.List.{append_assoc, append-nil}
use alice_text.Bytes.{Bytes}
use alice_text.Error.{ok}
use alice_text.Container.{magic}
use alice_text.Wire.Columns
use alice_text.Wire.Columns.{
  ColumnEntry, FormatV3Header, entry_size, header_size, entry_to_bytes, header_to_bytes,
  entry_from_bytes-entry_to_bytes, header_from_bytes-header_to_bytes, length-entry_to_bytes,
  length-header_to_bytes,
}
use alice_text.FormatV3.{
  Cursor, read_exact, read_entries, read_from, check_magic, check_version, length, drop,
  entry_from_bytes, same_list, header_from_bytes,
}
use alice_text.FormatV3.Writer.{directory_bytes, output_of, Column, data_bytes}

abbrev pub at : Bytes → ℕ → Cursor
at bytes position = record { bytes = bytes; position = position }

-- Every entry has fields of their widths.
pub data AreEntries : List ColumnEntry → Type 0 where
  empty : AreEntries []
  entry :
      {e : ColumnEntry} {es : List ColumnEntry}
      → Columns.IsEntry e
      → AreEntries es
      → AreEntries (e ∷ es)

pub read_exact-append :
    (bytes before x rest : Bytes) {pos n : ℕ}
    → bytes ≡ before ++ (x ++ rest)
    → length before ≡ pos
    → length x ≡ n
    → read_exact n (at bytes pos) ≡ ok (x, at bytes (pos + n))
unfolding read_exact
read_exact-append bytes before x rest {pos} {n} e lb lx =
    rw
      (
        ap (drop pos) e ∙ drop-append_all before (x ++ rest) lb,
        le→ltb (length (x ++ rest)) n (omega (arith, length-append x rest)),
        take-append_all x rest lx,
      )
      refl

-- A part of the file, split once more.
pub split_part :
    (bytes before x y rest : Bytes)
    → bytes ≡ before ++ ((x ++ y) ++ rest)
    → bytes ≡ before ++ (x ++ (y ++ rest))
split_part bytes before x y rest e = e ∙ ap (◌++◌ before) (append_assoc x y rest)

-- What was read stands before what follows.
pub pass_part :
    (bytes before x rest : Bytes) → bytes ≡ before ++ (x ++ rest) → bytes ≡ (before ++ x) ++ rest
pass_part bytes before x rest e = e ∙ sym (append_assoc before x rest)

pub read_entries-directory_bytes :
    (bytes before rest : Bytes) (es : List ColumnEntry) {pos : ℕ}
    → bytes ≡ before ++ (directory_bytes es ++ rest)
    → length before ≡ pos
    → AreEntries es
    → read_entries (length es) (at bytes pos) ≡ ok (es, at bytes (pos + length es * entry_size))
unfolding read_entries directory_bytes
read_entries-directory_bytes bytes before rest [] {pos} e lb v =
    ap (λ k. ok ([], at bytes k)) (omega arith)
read_entries-directory_bytes bytes before rest (x ∷ es) {pos} e lb (entry vx v) =
    let e' = split_part bytes before (entry_to_bytes x) (directory_bytes es) rest e in
    rw
      (
        read_exact-append bytes before (entry_to_bytes x) (directory_bytes es ++ rest)
            {n = entry_size} e' lb (length-entry_to_bytes x),
        ap entry_from_bytes (sym (append-nil (entry_to_bytes x)))
            ∙ entry_from_bytes-entry_to_bytes x [] vx,
        read_entries-directory_bytes bytes (before ++ entry_to_bytes x) rest es
            {pos = pos + entry_size}
            (pass_part bytes before (entry_to_bytes x) (directory_bytes es ++ rest) e')
            (omega (arith, length-append before (entry_to_bytes x), length-entry_to_bytes x, lb)) v,
      )
      (ap (λ k. ok (x ∷ es, at bytes k)) (omega arith))

-- Take a header and a directory whose fields have their widths, the header's count being that of the
-- directory. Reading the file that they begin gives both back, and leaves the cursor where the
-- data starts.
pub read_from-output_of :
    (header : FormatV3Header) (entries : List ColumnEntry) (cs : List Column)
    → Columns.IsHeader header
    → AreEntries entries
    → header.column_count ≡ length entries
    → (let bytes = output_of header entries cs in
        read_from (at bytes 0)
        ≡ ok (
          record { header = header; columns = entries },
          at bytes (8 + 2 + header_size + length entries * entry_size),
        ))
unfolding read_from output_of check_magic check_version same_list
read_from-output_of header entries cs vh ve n =
    let bytes = output_of header entries cs in
    let tail = directory_bytes entries ++ data_bytes cs in
    let front = magic ++ (3 ∷ 0 ∷ []) in
    rw
      (
        read_exact-append bytes [] magic (drop 8 bytes) {pos = 0} {n = 8} refl refl refl,
        read_exact-append bytes magic (3 ∷ 0 ∷ []) (header_to_bytes header ++ tail) {n = 2} refl
            refl refl,
        read_exact-append bytes front (header_to_bytes header) tail {n = header_size} refl refl
            (length-header_to_bytes header vh),
        ap header_from_bytes (sym (append-nil (header_to_bytes header)))
            ∙ header_from_bytes-header_to_bytes header [] vh,
        ap (λ k. read_entries k (at bytes 42)) n
            ∙ read_entries-directory_bytes bytes (front ++ header_to_bytes header) (data_bytes cs)
                entries {pos = 42} refl (omega (arith, length-header_to_bytes header vh)) ve,
      )
      refl
