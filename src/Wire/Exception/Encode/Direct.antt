-- ===== src/Wire/Exception/Encode/Direct.antt =====
-- A text that is encoded without patterns is read back as it was.
use alice_text.Prelude.{ℕ, ◌≡◌, refl, List, Option, some, false, arith, ◌∙◌}
use alice_text.Bytes.{Bytes}
use alice_text.Error.{ok}
use alice_text.Columnar.Payload.{PatternType}
use alice_text.Columnar.Matches.{Group}
use alice_text.Wire.Exception
use alice_text.Wire.Exception.{ngram, IsHeader}
use alice_text.Wire.Exception.Files.{
  exception_frame, decode_from_bytes, use_pattern, choose_payload, decode_payload, compress_lzma,
  sized_header,
}
use alice_text.Wire.Exception.Files.Decoded.{sized_header-IsHeader, decode_from_bytes-frame}
use alice_text.Wire.Exception.Files
use alice_text.Wire.Exception.Encode.{encode_to_bytes, encode, encode_ngram}

module _ (find_iter : PatternType → Bytes → List Group) (count_words : Bytes → ℕ)
    (lzma_compress lzma_decompress : Bytes → Option Bytes) (from_utf8 : Bytes → Option Bytes)
    (from_utf8_lossy : Bytes → Bytes) where
  ngram-IsHeader : (whole : Bytes) → IsHeader (encode_ngram find_iter count_words whole).header
  unfolding encode_ngram Exception.new
  ngram-IsHeader whole = record {
    original_length = omega arith;
    token_count = omega arith;
    exception_count = omega arith;
    pattern_db_length = omega arith;
    compressed_length = omega arith;
  }

  -- In the mode of n-grams the bytes of a text decode to the text, whatever the regular expressions
  -- find, when LZMA succeeds on the text and reads back what it wrote, and the text is valid UTF-8.
  pub decode_from_bytes-encode_to_bytes :
      (whole z : Bytes)
      → lzma_compress whole ≡ some z
      → lzma_decompress z ≡ some whole
      → from_utf8 whole ≡ some whole
      → (let output =
            exception_frame lzma_compress
              (encode_ngram find_iter count_words whole).header
              (z, false) in
          (encode_to_bytes find_iter count_words lzma_compress ngram whole ≡ ok output)
          × (decode_from_bytes lzma_decompress from_utf8 from_utf8_lossy output ≡ ok whole))
  unfolding encode_to_bytes encode encode_ngram Files.to_bytes choose_payload use_pattern
      compress_lzma exception_frame sized_header decode_payload
  decode_from_bytes-encode_to_bytes whole z e f g = (
    rw e refl,
    decode_from_bytes-frame lzma_decompress from_utf8 from_utf8_lossy _ z whole
          (sized_header-IsHeader lzma_compress (encode_ngram find_iter count_words whole).header
            (z, false) (ngram-IsHeader whole))
          f
        ∙ rw g refl,
  )
