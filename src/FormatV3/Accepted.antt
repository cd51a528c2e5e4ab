-- ===== src/FormatV3/Accepted.antt =====
-- What a file must be for its metadata to be read.
use mathlib.Core.Path.{subst}
use alice_text.Bytes.{slice, byte_at, Bytes}
use alice_text.Error.{ok}
use alice_text.Error.Laws.{ok-injective, bind-ok, err-ne-ok}
use alice_text.Wire.Columns.{
  ColumnEntry, entry_size, header_size, entry_from_bytes, header_from_bytes,
}
use alice_text.FormatV3.{
  Cursor, FormatV3Metadata, read_exact, read_entries, read_from, check_magic, check_version, length,
  take, drop, same_list, ltb,
}
use alice_text.Prelude.{
  refl, ltb→ge, length-drop, ==_iff, ℕ, zero, suc, ◌+◌, ◌≤◌, List, ◌≡◌, Bool-cases, ◌*◌, ap, ◌==◌,
  inl, sym, same_list→eq, ◌∙◌, inr, arith,
}
use alice_text.Container.{magic}
use alice_text.FormatV3.Layout.{at}

-- A read that succeeds stays within the file and moves the cursor past what it gives.
read_exact-ok :
    (n : ℕ) (bytes : Bytes) (pos : ℕ) (c : Cursor) {r : Bytes × Cursor}
    → c ≡ at bytes pos
    → pos ≤ length bytes
    → read_exact n c ≡ ok r
    → (pos + n ≤ length bytes) × (r.0 ≡ take n (drop pos bytes)) × (r.1 ≡ at bytes (pos + n))
unfolding read_exact
read_exact-ok n bytes pos c {r} q l h =
    let h' : read_exact n (at bytes pos) ≡ ok r = rw q at h in
    elim (Bool-cases (ltb (length (drop pos bytes)) n)) [
      | inl short ↦ absurd (err-ne-ok (rw short at h'))
      | inr long ↦
          let e = ok-injective (rw long at h') in
          (
            omega (arith, ltb→ge (length (drop pos bytes)) n long, length-drop pos bytes),
            ap (λ s. s.0) (sym e),
            ap (λ s. s.1) (sym e),
          )
    ]

check_magic-ok : (bytes : Bytes) (u : Unit) → check_magic bytes ≡ ok u → bytes ≡ magic
unfolding check_magic
check_magic-ok bytes u h = elim (Bool-cases (same_list bytes magic)) [
  | inl same ↦ same_list→eq bytes magic same
  | inr other ↦ absurd (err-ne-ok (rw other at h))
]

check_version-ok : (v : Bytes) (u : Unit) → check_version v ≡ ok u → byte_at 0 v ≡ 3
unfolding check_version
check_version-ok v u h = elim (Bool-cases (byte_at 0 v == 3)) [
  | inl same ↦ (==_iff (byte_at 0 v) 3).0 same
  | inr other ↦ absurd (err-ne-ok (rw other at h))
]

read_entries-ok :
    (n : ℕ) (bytes : Bytes) (pos : ℕ) (c : Cursor) {r : List ColumnEntry × Cursor}
    → c ≡ at bytes pos
    → pos ≤ length bytes
    → read_entries n c ≡ ok r
    → (length r.0 ≡ n)
      × (r.1 ≡ at bytes (pos + n * entry_size))
      × (pos + n * entry_size ≤ length bytes)
unfolding read_entries
read_entries-ok zero bytes pos c {r} q l h =
    let e = ok-injective h in
    (
      ap (λ s. length s.0) (sym e),
      ap (λ s. s.1) (sym e) ∙ q ∙ ap (at bytes) (omega arith),
      omega arith,
    )
read_entries-ok (suc n) bytes pos c {r} q l h =
    let (a, ea, h₁) = bind-ok (read_exact entry_size c) _ h in
    let (long, _, qa) = read_exact-ok entry_size bytes pos c q l ea in
    let (entry, ee, h₂) = bind-ok (entry_from_bytes a.0) _ h₁ in
    let (b, eb, h₃) = bind-ok (read_entries n a.1) _ h₂ in
    let (count, qb, within) = read_entries-ok n bytes (pos + entry_size) a.1 qa long eb in
    let e = ok-injective h₃ in
    (
      ap (λ s. length s.0) (sym e) ∙ ap suc count,
      ap (λ s. s.1) (sym e) ∙ qb ∙ ap (at bytes) (omega arith),
      omega (arith, within),
    )

-- Let the metadata of a file be read. Then the file starts with the magic bytes and a version whose
-- first number is 3, its header is that of the bytes after them, the directory has as many entries
-- as the header says and lies within the file, and the cursor stands at its end.
pub read_from-accepted :
    (bytes : Bytes) (m : FormatV3Metadata) (c : Cursor)
    → read_from (at bytes 0) ≡ ok (m, c)
    → (slice 0 8 bytes ≡ magic)
      × (byte_at 0 (slice 8 10 bytes) ≡ 3)
      × (header_from_bytes (slice 10 42 bytes) ≡ ok m.header)
      × (length m.columns ≡ m.header.column_count)
      × (c ≡ at bytes (42 + m.header.column_count * entry_size))
      × (42 + m.header.column_count * entry_size ≤ length bytes)
unfolding read_from
read_from-accepted bytes m c h =
    let (a, ea, h₁) = bind-ok (read_exact 8 (at bytes 0)) _ h in
    let (la, ba, qa) = read_exact-ok 8 bytes 0 (at bytes 0) refl (omega arith) ea in
    let (u, eu, h₂) = bind-ok (check_magic a.0) _ h₁ in
    let (v, ev, h₃) = bind-ok (read_exact 2 a.1) _ h₂ in
    let (lv, bv, qv) = read_exact-ok 2 bytes 8 a.1 qa la ev in
    let (w, ew, h₄) = bind-ok (check_version v.0) _ h₃ in
    let (x, ex, h₅) = bind-ok (read_exact header_size v.1) _ h₄ in
    let (lx, bx, qx) = read_exact-ok header_size bytes 10 v.1 qv lv ex in
    let (header, eh, h₆) = bind-ok (header_from_bytes x.0) _ h₅ in
    let (d, ed, h₇) = bind-ok (read_entries header.column_count x.1) _ h₆ in
    let (count, qd, within) = read_entries-ok header.column_count bytes 42 x.1 qx lx ed in
    let e = ok-injective h₇ in
    let eq : header ≡ m.header = ap (λ s. s.0.header) e in
    (
      sym ba ∙ check_magic-ok a.0 u eu,
      ap (byte_at 0) (sym bv) ∙ check_version-ok v.0 w ew,
      ap header_from_bytes (sym bx) ∙ eh ∙ ap ok eq,
      ap (λ s. length s.0.columns) (sym e) ∙ count ∙ ap (λ g. g.column_count) eq,
      ap (λ s. s.1) (sym e) ∙ qd ∙ ap (λ g. at bytes (42 + g.column_count * entry_size)) eq,
      subst (λ g. 42 + g.column_count * entry_size ≤ length bytes) eq within,
    )
