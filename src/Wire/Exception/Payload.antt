-- ===== src/Wire/Exception/Payload.antt =====
-- `create_payload` of `src/exception_encoder.rs` and `parse_binary_payload` of
-- `src/exception_decoder.rs`. The position in the data is the bytes that are left behind it, and
-- `from_utf8_lossy` is an argument.
pub mod RoundTrip
use alice_text.Prelude.{
  ℕ, zero, suc, ◌+◌, ◌%◌, ◌^◌, List, [], ◌∷◌, ◌++◌, ltb, if◌then◌else◌, length, take, drop, get_or,
}
use alice_text.Bytes.{Bytes, to_le, from_le, slice, byte_at}
use alice_text.Error.{Result, ok, err, decompression_error, ◌>>=◌}
use alice_text.Columnar.Payload.{
  PatternType, timestamp, date, time, ipv4, ipv6, uuid, log_level, path, url, number, hex, email,
  custom,
}

pub record PatternMatch : Type 0 where
  pub pattern_type : PatternType
  pub start : ℕ
  pub end : ℕ
  pub matched_text : Bytes
  pub pattern_index : ℕ

unfoldable pub type_byte : PatternType → ℕ
type_byte timestamp = 0
type_byte date = 1
type_byte time = 2
type_byte ipv4 = 3
type_byte ipv6 = 4
type_byte uuid = 5
type_byte log_level = 6
type_byte path = 7
type_byte url = 8
type_byte number = 9
type_byte hex = 10
type_byte email = 11
type_byte custom = 12

-- Every other byte is `Custom`.
unfoldable pub type_from : ℕ → PatternType
type_from b =
    get_or
      (timestamp ∷ date ∷ time ∷ ipv4 ∷ ipv6 ∷ uuid ∷ log_level ∷ path ∷ url ∷ number ∷ hex ∷ email
        ∷ [])
      b custom

-- Type, start, end, the length of the text in 16 bits, and the text.
unfoldable pub match_bytes : PatternMatch → Bytes
unfolding type_byte
match_bytes m =
    type_byte m.pattern_type
    ∷ (to_le 4 (m.start % 2 ^ 32)
        ++ (to_le 4 (m.end % 2 ^ 32)
            ++ (to_le 2 (length m.matched_text % 2 ^ 16) ++ m.matched_text)))

-- The bytes of the matches, with what follows them.
unfoldable pub matches_bytes : List PatternMatch → Bytes → Bytes
unfolding match_bytes
matches_bytes [] rest = rest
matches_bytes (m ∷ ms) rest = match_bytes m ++ matches_bytes ms rest

unfoldable pub create_payload : List PatternMatch → Bytes → Bytes
unfolding matches_bytes
create_payload matches processed =
    to_le 4 (length matches % 2 ^ 32)
    ++ matches_bytes matches (to_le 4 (length processed % 2 ^ 32) ++ processed)

module _ (from_utf8_lossy : Bytes → Bytes) where
  -- A match, and the bytes behind it.
  unfoldable pub parse_match : ℕ → Bytes → Result (PatternMatch × Bytes)
  unfolding type_from
  parse_match i rest =
      let text_len = from_le (slice 9 11 rest) in
      if ltb (length rest) 11
      then err (decompression_error "Truncated match data")
      else if ltb (length (drop 11 rest)) text_len
      then err (decompression_error "Truncated text data")
      else ok (
        record {
          pattern_type = type_from (byte_at 0 rest);
          start = from_le (slice 1 5 rest);
          end = from_le (slice 5 9 rest);
          matched_text = from_utf8_lossy (take text_len (drop 11 rest));
          pattern_index = i;
        },
        drop text_len (drop 11 rest),
      )

  -- `for i in 0..match_count`
  unfoldable pub parse_matches : ℕ → ℕ → Bytes → Result (List PatternMatch × Bytes)
  unfolding parse_match
  parse_matches zero i rest = ok ([], rest)
  parse_matches (suc count) i rest = do
    first ← parse_match i rest
    others ← parse_matches count (i + 1) first.1
    ok (first.0 ∷ others.0, others.1)

  unfoldable pub parse_text : Bytes → Result Bytes
  parse_text rest =
      let text_len = from_le (slice 0 4 rest) in
      if ltb (length rest) 4
      then err (decompression_error "Missing processed text length")
      else if ltb (length (drop 4 rest)) text_len
      then err (decompression_error "Truncated processed text")
      else ok (from_utf8_lossy (take text_len (drop 4 rest)))

  unfoldable pub parse_binary_payload : Bytes → Result (List PatternMatch × Bytes)
  unfolding parse_matches parse_text
  parse_binary_payload bytes =
      if ltb (length bytes) 4 then err (decompression_error "Payload too short") else do
        matches ← parse_matches (from_le (slice 0 4 bytes)) 0 (drop 4 bytes)
        processed ← parse_text matches.1
        ok (matches.0, processed)
