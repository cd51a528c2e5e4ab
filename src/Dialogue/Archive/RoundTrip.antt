-- ===== src/Dialogue/Archive/RoundTrip.antt =====
-- What the dialogue compressor writes it reads back.
use alice_text.Prelude.{
  take_all, ==_iff, ◌-◌, ap, ℕ, ◌≡◌, ◌<◌, ◌+◌, ◌^◌, refl, [], some, true, false, ltb, same_list,
  length, arith, le→ltb, ◌%◌, ◌∙◌, ◌==◌,
}
use Prim.Native.String.{String}
use alice_text.Bytes.{byte_at, Bytes, to_le, slice}
use alice_text.Bytes.Laws.{from_le-to_le}
use alice_text.Error.{ok, decompression_error, or_error}
use alice_text.Dialogue.Speakers.Index.{IsIndexed}
use alice_text.Dialogue.Speakers.Rebuild.{rebuild_index-IsIndexed}
use alice_text.Dialogue.Table.{DialogueTable}
use alice_text.Dialogue.Locales.{LocalizationTable}
use alice_text.Dialogue.Archive.{
  dialogue_magic, Codecs, DialogueCompressionMode, archive, compressed_len, open_archive,
  compress_table, decompress_table, compress_localization, decompress_localization, zstd_level,
}

-- A table as it is serialised, without the index of its speakers.
abbrev pub without_index : DialogueTable → DialogueTable
without_index t = record t { speakers = record t.speakers { index = [] } }

-- What the codecs promise: what they wrote they read back.
pub record IsCodecs (codecs : Codecs) : Type 0 where
  pub deserialize_table-serialize_table :
      (t : DialogueTable) (b : Bytes)
      → codecs.serialize_table t ≡ some b
      → codecs.deserialize_table b ≡ some (without_index t)
  pub deserialize_localization-serialize_localization :
      (t : LocalizationTable) (b : Bytes)
      → codecs.serialize_localization t ≡ some b
      → codecs.deserialize_localization b
        ≡ some (record t { base_table = without_index t.base_table })
  pub decode_all-encode_all :
      (level : ℕ) (b z : Bytes) → codecs.encode_all level b ≡ some z → codecs.decode_all z ≡ some b

compressed_len-archive :
    (kind : ℕ) (mode : DialogueCompressionMode) (z : Bytes)
    → length z < 2 ^ 32
    → compressed_len (archive kind mode z) ≡ length z
unfolding compressed_len archive to_le
compressed_len-archive kind mode z few =
    from_le-to_le 4 (length z % 2 ^ 32) (omega arith) ∙ omega arith

archive-whole :
    (kind : ℕ) (mode : DialogueCompressionMode) (z : Bytes)
    → length z < 2 ^ 32
    → ltb (length (archive kind mode z)) (16 + compressed_len (archive kind mode z)) ≡ false
unfolding archive to_le
archive-whole kind mode z few =
    le→ltb (length (archive kind mode z)) (16 + compressed_len (archive kind mode z))
      (omega (arith, compressed_len-archive kind mode z few))

slice-archive :
    (kind : ℕ) (mode : DialogueCompressionMode) (z : Bytes)
    → length z < 2 ^ 32
    → slice 16 (16 + compressed_len (archive kind mode z)) (archive kind mode z) ≡ z
unfolding archive to_le
slice-archive kind mode z few =
    take_all (16 + compressed_len (archive kind mode z) - 16) z
      (omega (arith, compressed_len-archive kind mode z few))

archive-long :
    (kind : ℕ) (mode : DialogueCompressionMode) (z : Bytes)
    → ltb (length (archive kind mode z)) 16 ≡ false
unfolding archive to_le
archive-long kind mode z = le→ltb (length (archive kind mode z)) 16 (omega arith)

archive-magic :
    (kind : ℕ) (mode : DialogueCompressionMode) (z : Bytes)
    → same_list (slice 0 8 (archive kind mode z)) dialogue_magic ≡ true
unfolding archive same_list
archive-magic kind mode z = refl

archive-kind :
    (kind : ℕ) (mode : DialogueCompressionMode) (z : Bytes)
    → (byte_at 10 (archive kind mode z) == kind) ≡ true
unfolding archive
archive-kind kind mode z = (==_iff kind kind).1 refl

module _ (codecs : Codecs) where
  open_archive-archive :
      (kind : ℕ) (mode : DialogueCompressionMode) (other_kind : String) (z : Bytes)
      → length z < 2 ^ 32
      → open_archive codecs kind other_kind (archive kind mode z)
        ≡ or_error (codecs.decode_all z) (decompression_error "")
  unfolding open_archive
  open_archive-archive kind mode other_kind z few =
      rw
        (
          archive-long kind mode z,
          archive-magic kind mode z,
          archive-kind kind mode z,
          archive-whole kind mode z few,
          slice-archive kind mode z few,
        )
        refl

  -- Let both codecs succeed on a localization table and on its base table, and read back what they
  -- wrote, in less than 2 ^ 32 bytes. Then the base table and the localization table are both
  -- compressed, and read back from the bytes, if the index of the speakers agrees with the names.
  pub decompress_table-compress_table :
      (mode : DialogueCompressionMode) (t : LocalizationTable) (b c y z : Bytes)
      → IsCodecs codecs
      → IsIndexed t.base_table.speakers
      → codecs.serialize_table t.base_table ≡ some b
      → codecs.serialize_localization t ≡ some c
      → codecs.encode_all (zstd_level mode) b ≡ some y
      → codecs.encode_all (zstd_level mode) c ≡ some z
      → length y < 2 ^ 32
      → length z < 2 ^ 32
      → (compress_table codecs mode t.base_table ≡ ok (archive 1 mode y))
        × (decompress_table codecs (archive 1 mode y) ≡ ok t.base_table)
        × (compress_localization codecs mode t ≡ ok (archive 2 mode z))
        × (decompress_localization codecs (archive 2 mode z) ≡ ok t)
  unfolding compress_table decompress_table compress_localization decompress_localization
  decompress_table-compress_table mode t b c y z laws indexed e f g h few few' =
      let rebuilt = rebuild_index-IsIndexed t.base_table.speakers indexed in
      let b_read = laws.decode_all-encode_all (zstd_level mode) b y g in
      let c_read = laws.decode_all-encode_all (zstd_level mode) c z h in
      let table = laws.deserialize_table-serialize_table t.base_table b e in
      let localization = laws.deserialize_localization-serialize_localization t c f in
      (
        rw (e, g) refl,
        rw (open_archive-archive 1 mode "Not a single dialogue table" y few, b_read, table)
            (ap (λ s. ok (record t.base_table { speakers = s })) rebuilt),
        rw (f, h) refl,
        rw (open_archive-archive 2 mode "Not a localization table" z few', c_read, localization)
            (ap (λ s. ok (record t { base_table = record t.base_table { speakers = s } })) rebuilt),
      )
