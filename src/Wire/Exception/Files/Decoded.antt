-- ===== src/Wire/Exception/Files/Decoded.antt =====
-- What `to_bytes` writes, `verify`, `read_header` and `decode_from_bytes` read.
use alice_text.Prelude.{
  ◌≡◌, ◌<◌, ◌^◌, refl, [], ◌∷◌, ◌++◌, Option, some, Bool, true, false, ltb, if◌then◌else◌, length,
  drop, arith, le→ltb, same_list, Bool-cases, ◌∙◌, ◌&&◌, inr, inl,
}
use alice_text.Bytes.{Bytes, to_le, slice}
use alice_text.Error.{ok}
use alice_text.Container.{has_magic, magic}
use alice_text.Wire.Exception
use alice_text.Wire.Exception.{
  EncodingMode, pattern, ngram, ExceptionHeader, IsHeader, from_bytes-to_bytes_exception, to_bytes,
}
use alice_text.Wire.Exception.Payload.RoundTrip.{
  AreMatches, renumbered, parse_binary_payload-create_payload,
}
use alice_text.Wire.Exception.Files
use alice_text.Wire.Exception.Files.{
  sized_header, decode_payload, decode_from_bytes, read_header, verify, decompress_lzma,
  EncodedText, choose_payload, exception_frame, restore_patterns, use_pattern, compress_lzma,
  decode_pattern, create_payload,
}

from_bytes-frame :
    (h : ExceptionHeader) (z : Bytes)
    → IsHeader h
    → Exception.from_bytes (slice 10 42 (magic ++ (1 ∷ 0 ∷ (Exception.to_bytes h ++ z)))) ≡ ok h
unfolding Exception.to_bytes Exception.mode_byte to_le
from_bytes-frame h z v = from_bytes-to_bytes_exception h [] v

frame-long :
    (h : ExceptionHeader) (z : Bytes)
    → ltb (length (magic ++ (1 ∷ 0 ∷ (Exception.to_bytes h ++ z)))) 42 ≡ false
unfolding Exception.to_bytes to_le
frame-long h z = le→ltb (length (magic ++ (1 ∷ 0 ∷ (Exception.to_bytes h ++ z)))) 42 (omega arith)

frame-magic :
    (h : ExceptionHeader) (z : Bytes)
    → has_magic (magic ++ (1 ∷ 0 ∷ (Exception.to_bytes h ++ z))) ≡ true
unfolding has_magic same_list
frame-magic h z = refl

drop-frame :
    (h : ExceptionHeader) (z : Bytes) → drop 42 (magic ++ (1 ∷ 0 ∷ (Exception.to_bytes h ++ z))) ≡ z
unfolding Exception.to_bytes to_le
drop-frame h z = refl

pub sized_header-IsHeader :
    (lzma_compress : Bytes → Option Bytes) (h : ExceptionHeader) (chosen : Bytes × Bool)
    → IsHeader h
    → IsHeader (sized_header lzma_compress h chosen)
unfolding sized_header
sized_header-IsHeader lzma_compress h (z, flag) v = record {
  original_length = v.original_length;
  token_count = v.token_count;
  exception_count = v.exception_count;
  pattern_db_length = flag_fits flag;
  compressed_length = omega arith;
}
  where
    flag_fits : (b : Bool) → (if b then 1 else 0) < 2 ^ 32
    flag_fits true = omega arith
    flag_fits false = omega arith

read_header-frame :
    (h : ExceptionHeader) (z : Bytes)
    → IsHeader h
    → (read_header (magic ++ (1 ∷ 0 ∷ (Exception.to_bytes h ++ z))) ≡ ok h)
      × (verify (magic ++ (1 ∷ 0 ∷ (Exception.to_bytes h ++ z))) ≡ ok true)
unfolding read_header verify
read_header-frame h z v = (
  rw (frame-long h z, frame-magic h z) (from_bytes-frame h z v),
  rw (frame-long h z, frame-magic h z, from_bytes-frame h z v) refl,
)

module _ (lzma_decompress : Bytes → Option Bytes) (from_utf8 : Bytes → Option Bytes)
    (from_utf8_lossy : Bytes → Bytes) where
  pub decode_from_bytes-frame :
      (h : ExceptionHeader) (z decompressed : Bytes)
      → IsHeader h
      → lzma_decompress z ≡ some decompressed
      → decode_from_bytes lzma_decompress from_utf8 from_utf8_lossy
          (magic ++ (1 ∷ 0 ∷ (Exception.to_bytes h ++ z)))
        ≡ decode_payload lzma_decompress from_utf8 from_utf8_lossy h.pattern_db_length decompressed
  unfolding decode_from_bytes decompress_lzma
  decode_from_bytes-frame h z decompressed v e =
      rw (frame-long h z, frame-magic h z, from_bytes-frame h z v, drop-frame h z, e) refl

-- The payload of the patterns if the flag is set, else the text.
abbrev pub chosen : Bool → Bytes → Bytes → Bytes × Bool
chosen true patterns direct = (patterns, true)
chosen false patterns direct = (direct, false)

-- What a reader gets of a text.
abbrev pub restored : Bool → EncodedText → Bytes
restored true e = restore_patterns e.processed_text (renumbered 0 e.pattern_matches)
restored false e = e.original_text

-- The sizes and the validity of the texts that the file format relies on.
pub record IsEncoded (from_utf8 : Bytes → Option Bytes) (from_utf8_lossy : Bytes → Bytes)
    (e : EncodedText) : Type 0 where
  pub header : IsHeader e.header
  pub matches : AreMatches from_utf8_lossy e.pattern_matches
  pub few : length e.pattern_matches < 2 ^ 32
  pub short : length e.processed_text < 2 ^ 32
  pub valid : from_utf8_lossy e.processed_text ≡ e.processed_text
  pub original : from_utf8 e.original_text ≡ some e.original_text

module _ (lzma_compress lzma_decompress : Bytes → Option Bytes) (from_utf8 : Bytes → Option Bytes)
    (from_utf8_lossy : Bytes → Bytes) where
  abbrev pub smaller : EncodingMode → EncodedText → Bytes → Bytes → Bool
  smaller mode e patterns direct =
      use_pattern lzma_compress mode e.pattern_matches && ltb (length patterns) (length direct)

  choose_payload-chosen :
      (mode : EncodingMode) (e : EncodedText) (patterns direct : Bytes)
      → lzma_compress e.original_text ≡ some direct
      → lzma_compress (create_payload e.pattern_matches e.processed_text) ≡ some patterns
      → choose_payload lzma_compress mode e
        ≡ ok (chosen (smaller mode e patterns direct) patterns direct)
  unfolding choose_payload compress_lzma
  choose_payload-chosen mode e patterns direct f g =
      elim (Bool-cases (use_pattern lzma_compress mode e.pattern_matches)) [
        | inr plain ↦ rw (plain, choose_payload, f) refl
        | inl able ↦ elim (Bool-cases (ltb (length patterns) (length direct))) [
          | inl less ↦ rw (able, choose_payload, f, g, less) refl
          | inr more ↦ rw (able, choose_payload, f, g, more) refl
        ]
      ]

  decode_from_bytes-chosen :
      (e : EncodedText) (small : Bool) (patterns direct : Bytes)
      → ((b z : Bytes) → lzma_compress b ≡ some z → lzma_decompress z ≡ some b)
      → IsEncoded from_utf8 from_utf8_lossy e
      → lzma_compress e.original_text ≡ some direct
      → lzma_compress (create_payload e.pattern_matches e.processed_text) ≡ some patterns
      → decode_from_bytes lzma_decompress from_utf8 from_utf8_lossy
          (exception_frame lzma_compress e.header (chosen small patterns direct))
        ≡ ok (restored small e)
  unfolding exception_frame sized_header decode_payload decode_pattern
  decode_from_bytes-chosen e true patterns direct laws v f g =
      decode_from_bytes-frame lzma_decompress from_utf8 from_utf8_lossy _ patterns
        (create_payload e.pattern_matches e.processed_text)
        (sized_header-IsHeader lzma_compress e.header (patterns, true) v.header) (laws _ patterns g)
      ∙ rw
          (parse_binary_payload-create_payload from_utf8_lossy e.pattern_matches e.processed_text
            v.matches v.few v.short v.valid)
          refl
  decode_from_bytes-chosen e false patterns direct laws v f g =
      decode_from_bytes-frame lzma_decompress from_utf8 from_utf8_lossy _ direct e.original_text
        (sized_header-IsHeader lzma_compress e.header (direct, false) v.header) (laws _ direct f)
      ∙ rw v.original refl

  verify-exception_frame :
      (h : ExceptionHeader) (c : Bytes × Bool)
      → IsHeader h
      → verify (exception_frame lzma_compress h c) ≡ ok true
  unfolding exception_frame
  verify-exception_frame h c v =
      (read_header-frame (sized_header lzma_compress h c) c.0
        (sized_header-IsHeader lzma_compress h c v)).1

  -- Let LZMA succeed on the text and on the payload of the patterns, and read back what it wrote,
  -- and let the encoded text have its sizes in range and its texts valid. Then `to_bytes` succeeds,
  -- and of its bytes `verify` says yes and `decode_from_bytes` gives the original text, or, when the
  -- mode is that of patterns, there are matches and their payload is the smaller one, what
  -- `restore_patterns` makes of the processed text and the matches.
  pub decode_from_bytes-to_bytes :
      (mode : EncodingMode) (e : EncodedText) (patterns direct : Bytes)
      → ((b z : Bytes) → lzma_compress b ≡ some z → lzma_decompress z ≡ some b)
      → IsEncoded from_utf8 from_utf8_lossy e
      → lzma_compress e.original_text ≡ some direct
      → lzma_compress (create_payload e.pattern_matches e.processed_text) ≡ some patterns
      → (let small = smaller mode e patterns direct in
          let output = exception_frame lzma_compress e.header (chosen small patterns direct) in
          (Files.to_bytes lzma_compress mode e ≡ ok output)
          × (verify output ≡ ok true)
          × (decode_from_bytes lzma_decompress from_utf8 from_utf8_lossy output
              ≡ ok (restored small e)))
  unfolding Files.to_bytes
  decode_from_bytes-to_bytes mode e patterns direct laws v f g =
      let small = smaller mode e patterns direct in
      (
        rw (choose_payload-chosen mode e patterns direct f g) refl,
        verify-exception_frame e.header (chosen small patterns direct) v.header,
        decode_from_bytes-chosen e small patterns direct laws v f g,
      )
