-- ===== src/Wire/Exception/Files.antt =====
-- `ExceptionEncoder::to_bytes`, `ExceptionDecoder`, and of `src/pattern_learner.rs`
-- `restore_patterns`. LZMA is an argument, and so are the conversions of bytes to a `String`.
pub mod Decoded
use alice_text.Prelude.{
  ℕ, zero, suc, ◌+◌, ◌%◌, ◌^◌, List, [], ◌∷◌, ◌++◌, Option, some, none, Bool, true, false, not,
  ◌&&◌, ◌==◌, ltb, if◌then◌else◌, length, drop, same_list,
}
use alice_text.Bytes.{Bytes, slice, byte_at}
use alice_text.Error.{
  Result, ok, err, invalid_magic, invalid_version, decompression_error, encoding_error, or_error,
  ◌>>=◌,
}
use alice_text.Decimal.{to_decimal}
use alice_text.Container.{magic, has_magic}
use alice_text.Learner.{PatternDatabase}
use alice_text.Wire.Exception
use alice_text.Wire.Exception.{EncodingMode, pattern, ngram, ExceptionHeader}
use alice_text.Wire.Exception.Payload.{PatternMatch, create_payload, parse_binary_payload}

pub record EncodedText : Type 0 where
  pub header : ExceptionHeader
  pub pattern_db : Option PatternDatabase
  pub pattern_matches : List PatternMatch
  pub processed_text : Bytes
  pub original_text : Bytes
  pub token_count : ℕ
  pub exception_count : ℕ

-- What follows the needle at the head of a text.
unfoldable pub strip_needle : Bytes → Bytes → Option Bytes
strip_needle [] s = some s
strip_needle (a ∷ needle) [] = none
strip_needle (a ∷ needle) (b ∷ s) = if a == b then strip_needle needle s else none

-- `str::replace`, from left to right; each step takes a byte away at least.
unfoldable pub replace_from : ℕ → Bytes → Bytes → Bytes → Bytes
unfolding strip_needle
replace_from zero needle by s = s
replace_from (suc fuel) needle by [] = []
replace_from (suc fuel) needle by (c ∷ s) = elim (strip_needle needle (c ∷ s)) [
  | some rest ↦ by ++ replace_from fuel needle by rest
  | none ↦ c ∷ replace_from fuel needle by s
]

unfoldable pub replace_all : Bytes → Bytes → Bytes → Bytes
unfolding replace_from
replace_all needle by s = replace_from (length s) needle by s

-- `format!("{{P{i}}}")`
unfoldable pub p_placeholder : ℕ → Bytes
p_placeholder i = b'{' ∷ b'P' ∷ (to_decimal i ++ b'}' ∷ [])

-- The last match first.
unfoldable pub restore_from : ℕ → Bytes → List PatternMatch → Bytes
unfolding p_placeholder replace_all
restore_from i text [] = text
restore_from i text (m ∷ ms) =
    replace_all (p_placeholder i) m.matched_text (restore_from (i + 1) text ms)

unfoldable pub restore_patterns : Bytes → List PatternMatch → Bytes
unfolding restore_from
restore_patterns text matches = restore_from 0 text matches

-- Compression and decompression with LZMA; a failure is `none`.
unfoldable pub compress_lzma : (Bytes → Option Bytes) → Bytes → Result Bytes
compress_lzma lzma_compress bytes =
    or_error (lzma_compress bytes) (encoding_error "LZMA compression failed")

unfoldable pub decompress_lzma : (Bytes → Option Bytes) → Bytes → Result Bytes
decompress_lzma lzma_decompress bytes =
    or_error (lzma_decompress bytes) (decompression_error "LZMA decompression failed")

module _ (lzma_compress : Bytes → Option Bytes) where
  -- `self.mode == EncodingMode::Pattern && !encoded.pattern_matches.is_empty()`
  unfoldable pub use_pattern : EncodingMode → List PatternMatch → Bool
  use_pattern pattern [] = false
  use_pattern pattern (m ∷ ms) = true
  use_pattern ngram ms = false

  -- The compressed payload, and whether it is the one of the patterns.
  unfoldable pub choose_payload : EncodingMode → EncodedText → Result (Bytes × Bool)
  unfolding use_pattern compress_lzma
  choose_payload mode e = elim (use_pattern mode e.pattern_matches) [
    | true ↦ do
      direct ← compress_lzma lzma_compress e.original_text
      patterns ← compress_lzma lzma_compress (create_payload e.pattern_matches e.processed_text)
      ok (if ltb (length patterns) (length direct) then (patterns, true) else (direct, false))
    | false ↦ do direct ← compress_lzma lzma_compress e.original_text; ok (direct, false)
  ]

  -- The header with the sizes and the flag.
  unfoldable pub sized_header : ExceptionHeader → Bytes × Bool → ExceptionHeader
  sized_header h chosen = record h {
    compressed_length = length chosen.0 % 2 ^ 32;
    pattern_db_length = if chosen.1 then 1 else 0;
  }

  unfoldable pub exception_frame : ExceptionHeader → Bytes × Bool → Bytes
  unfolding sized_header
  exception_frame h chosen =
      magic ++ (1 ∷ 0 ∷ (Exception.to_bytes (sized_header h chosen) ++ chosen.0))

  unfoldable pub to_bytes : EncodingMode → EncodedText → Result Bytes
  unfolding choose_payload exception_frame
  to_bytes mode e = do chosen ← choose_payload mode e; ok (exception_frame e.header chosen)

unfoldable pub read_header : Bytes → Result ExceptionHeader
read_header bytes =
    if ltb (length bytes) 42
    then err (decompression_error "Data too short")
    else if not (has_magic bytes)
    then err invalid_magic
    else Exception.from_bytes (slice 10 42 bytes)

unfoldable pub verify : Bytes → Result Bool
verify bytes =
    if ltb (length bytes) 42
    then ok false
    else if not (has_magic bytes)
    then ok false
    else if ltb 1 (byte_at 8 bytes)
    then ok false
    else do _ ← Exception.from_bytes (slice 10 42 bytes); ok true

module _ (lzma_decompress : Bytes → Option Bytes) (from_utf8 : Bytes → Option Bytes)
    (from_utf8_lossy : Bytes → Bytes) where
  unfoldable pub decode_pattern : Bytes → Result Bytes
  unfolding restore_patterns
  decode_pattern bytes = do
    parsed ← parse_binary_payload from_utf8_lossy bytes
    ok (restore_patterns parsed.1 parsed.0)

  -- What the decompressed data means.
  unfoldable pub decode_payload : ℕ → Bytes → Result Bytes
  unfolding decode_pattern
  decode_payload flag decompressed =
      if flag == 1
      then decode_pattern decompressed
      else or_error (from_utf8 decompressed) (decompression_error "UTF-8 error")

  unfoldable pub decode_from_bytes : Bytes → Result Bytes
  unfolding decode_payload decompress_lzma
  decode_from_bytes bytes =
      if ltb (length bytes) 42
      then err (decompression_error "Data too short")
      else if not (has_magic bytes)
      then err invalid_magic
      else if ltb 1 (byte_at 8 bytes)
      then err (invalid_version (byte_at 8 bytes) (byte_at 9 bytes))
      else do
        header ← Exception.from_bytes (slice 10 42 bytes)
        decompressed ← decompress_lzma lzma_decompress (drop 42 bytes)
        decode_payload header.pattern_db_length decompressed
