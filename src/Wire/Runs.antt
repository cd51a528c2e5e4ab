-- ===== src/Wire/Runs.antt =====
-- The headers at concrete values.
use alice_text.Prelude.{◌≡◌, refl, [], ◌∷◌, arith, replicate, some, none, true, sym}
use alice_text.Error.{ok, err, decompression_error}
use alice_text.Wire.Exception
use alice_text.Wire.Exception.Files
use alice_text.Wire.Exception.Files.{
  EncodedText, exception_frame, decode_from_bytes, use_pattern, restore_patterns,
}
use alice_text.Wire.Exception.Files.Decoded.{
  smaller, chosen, restored, IsEncoded, decode_from_bytes-to_bytes,
}
use alice_text.Decimal.{to_decimal}
use alice_text.Bytes.{Bytes, to_le}
use alice_text.Wire.Exception.Payload.{PatternMatch, create_payload, parse_binary_payload}
use alice_text.Wire.Exception.Payload.RoundTrip.{renumbered, parse_binary_payload-create_payload}
use alice_text.Columnar.Payload.{date}
use alice_text.Wire.Tuned

abbrev exception_header : Exception.ExceptionHeader
exception_header = record {
  mode = Exception.ngram;
  original_length = 70000;
  token_count = 12;
  exception_count = 3;
  pattern_db_length = 0;
  compressed_length = 512;
}

-- A byte short of a header.
short-header : Tuned.from_bytes (replicate 23 0) ≡ err (decompression_error "Header too short")
unfolding Tuned.from_bytes
short-header = refl

abbrev first_match : PatternMatch
first_match = record {
  pattern_type = date;
  start = 3;
  end = 13;
  matched_text = 0x32 ∷ 0x30 ∷ [];
  pattern_index = 4;
}

parse_binary_payload-create_payload_example :
    parse_binary_payload (λ s. s) (create_payload (first_match ∷ []) (0x61 ∷ []))
    ≡ ok (renumbered 0 (first_match ∷ []), 0x61 ∷ [])
parse_binary_payload-create_payload_example =
    parse_binary_payload-create_payload (λ s. s) (first_match ∷ []) (0x61 ∷ [])
      (record { start = omega arith; end = omega arith; short = omega arith; valid = refl }, tt)
      (omega arith) (omega arith) refl

abbrev encoded : EncodedText
encoded = record {
  header = exception_header;
  pattern_db = none;
  pattern_matches = first_match ∷ [];
  processed_text = b'{' ∷ b'P' ∷ b'0' ∷ b'}' ∷ [];
  original_text = replicate 30 0x61;
  token_count = 1;
  exception_count = 1;
}

abbrev encoded_payload : Bytes
encoded_payload = create_payload encoded.pattern_matches encoded.processed_text

-- The payload of the patterns is the smaller one.
smaller-encoded :
    smaller some some some (λ s. s) Exception.pattern encoded encoded_payload encoded.original_text
    ≡ true
unfolding use_pattern create_payload to_le
smaller-encoded = refl

restored-encoded : restored true encoded ≡ 0x32 ∷ 0x30 ∷ []
unfolding restore_patterns renumbered to_decimal
restored-encoded = refl

encoded-IsEncoded : IsEncoded some (λ s. s) encoded
encoded-IsEncoded = record {
  header = omega arith;
  matches =
      (record { start = omega arith; end = omega arith; short = omega arith; valid = refl }, tt);
  few = omega arith;
  short = omega arith;
  valid = refl;
  original = refl;
}

decode_from_bytes-to_bytes_example :
    let small =
      smaller some some some
        (λ s. s)
        Exception.pattern
        encoded
        encoded_payload
        encoded.original_text in
    let output =
      exception_frame some encoded.header (chosen small encoded_payload encoded.original_text) in
    (Files.to_bytes some Exception.pattern encoded ≡ ok output)
    × (Files.verify output ≡ ok true)
    × (decode_from_bytes some some (λ s. s) output ≡ ok (restored small encoded))
decode_from_bytes-to_bytes_example =
    decode_from_bytes-to_bytes some some some (λ s. s) Exception.pattern encoded encoded_payload
      encoded.original_text (λ b z e. sym e) encoded-IsEncoded refl refl
