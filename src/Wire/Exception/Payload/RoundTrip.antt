-- ===== src/Wire/Exception/Payload/RoundTrip.antt =====
-- What `create_payload` writes is read back.
use alice_text.Prelude.{
  ℕ, ◌≡◌, ◌<◌, ◌+◌, ◌^◌, refl, List, [], ◌∷◌, ◌++◌, false, ltb, length, arith, le→ltb,
  take-append_all, drop-append_all, ap, ◌∙◌, length-append, ◌%◌, drop, take_all,
}
use native.Mathlib.Nat.{mod-eq_of_lt}
use alice_text.Bytes.{Bytes, to_le, from_le, slice}
use alice_text.Bytes.Laws.{from_le-to_le}
use alice_text.Error.{ok}
use alice_text.Columnar.Payload.{
  PatternType, timestamp, date, time, ipv4, ipv6, uuid, log_level, path, url, number, hex, email,
  custom,
}
use alice_text.Wire.Exception.Payload.{
  PatternMatch, type_byte, type_from, match_bytes, matches_bytes, create_payload, parse_match,
  parse_matches, parse_text, parse_binary_payload,
}

-- The places fit into 32 bits, the text into 16 bits of length and is valid UTF-8.
pub record IsMatch (from_utf8_lossy : Bytes → Bytes) (m : PatternMatch) : Type 0 where
  pub start : m.start < 2 ^ 32
  pub end : m.end < 2 ^ 32
  pub short : length m.matched_text < 2 ^ 16
  pub valid : from_utf8_lossy m.matched_text ≡ m.matched_text

abbrev pub AreMatches : (Bytes → Bytes) → List PatternMatch → Type 0
AreMatches from_utf8_lossy [] = Unit
AreMatches from_utf8_lossy (m ∷ ms) = IsMatch from_utf8_lossy m × AreMatches from_utf8_lossy ms

-- The indices of the matches are not stored: they count from `i`.
unfoldable pub renumbered : ℕ → List PatternMatch → List PatternMatch
renumbered i [] = []
renumbered i (m ∷ ms) = record m { pattern_index = i } ∷ renumbered (i + 1) ms

type_from-type_byte : (t : PatternType) → type_from (type_byte t) ≡ t
unfolding type_from type_byte
type_from-type_byte timestamp = refl
type_from-type_byte date = refl
type_from-type_byte time = refl
type_from-type_byte ipv4 = refl
type_from-type_byte ipv6 = refl
type_from-type_byte uuid = refl
type_from-type_byte log_level = refl
type_from-type_byte path = refl
type_from-type_byte url = refl
type_from-type_byte number = refl
type_from-type_byte hex = refl
type_from-type_byte email = refl
type_from-type_byte custom = refl

text_len-match_bytes :
    (m : PatternMatch) (rest : Bytes)
    → length m.matched_text < 2 ^ 16
    → from_le (slice 9 11 (match_bytes m ++ rest)) ≡ length m.matched_text
unfolding match_bytes to_le
text_len-match_bytes m rest short =
    from_le-to_le 2 (length m.matched_text % 2 ^ 16) (omega arith) ∙ omega arith

-- The number at the head of the payload.
counted :
    (n : ℕ) (rest : Bytes)
    → n < 2 ^ 32
    → (ltb (length (to_le 4 (n % 2 ^ 32) ++ rest)) 4 ≡ false)
      × (from_le (slice 0 4 (to_le 4 (n % 2 ^ 32) ++ rest)) ≡ n)
      × (drop 4 (to_le 4 (n % 2 ^ 32) ++ rest) ≡ rest)
unfolding to_le
counted n rest few = (
  le→ltb (length (to_le 4 (n % 2 ^ 32) ++ rest)) 4 (omega arith),
  from_le-to_le 4 (n % 2 ^ 32) (omega arith) ∙ mod-eq_of_lt few,
  refl,
)

module _ (from_utf8_lossy : Bytes → Bytes) where
  parse_match-match_bytes :
      (i : ℕ) (m : PatternMatch) (rest : Bytes)
      → IsMatch from_utf8_lossy m
      → parse_match from_utf8_lossy i (match_bytes m ++ rest)
        ≡ ok (record m { pattern_index = i }, rest)
  unfolding parse_match match_bytes to_le
  parse_match-match_bytes i m rest h =
      let len = text_len-match_bytes m rest h.short in
      let long = le→ltb (length (match_bytes m ++ rest)) 11 (omega arith) in
      let whole =
        le→ltb (length (m.matched_text ++ rest)) (from_le (slice 9 11 (match_bytes m ++ rest)))
          (omega (arith, len, length-append m.matched_text rest)) in
      let start = from_le-to_le 4 (m.start % 2 ^ 32) (omega arith) ∙ mod-eq_of_lt h.start in
      let end = from_le-to_le 4 (m.end % 2 ^ 32) (omega arith) ∙ mod-eq_of_lt h.end in
      let text = ap from_utf8_lossy (take-append_all m.matched_text rest refl) ∙ h.valid in
      let left = drop-append_all m.matched_text rest refl in
      rw (long, whole, len)
        (ap ok λ j. (
          record {
            pattern_type = type_from-type_byte m.pattern_type j;
            start = start j;
            end = end j;
            matched_text = text j;
            pattern_index = i;
          },
          left j,
        ))

  parse_matches-matches_bytes :
      (i : ℕ) (ms : List PatternMatch) (rest : Bytes)
      → AreMatches from_utf8_lossy ms
      → parse_matches from_utf8_lossy (length ms) i (matches_bytes ms rest)
        ≡ ok (renumbered i ms, rest)
  unfolding parse_matches matches_bytes renumbered
  parse_matches-matches_bytes i [] rest h = refl
  parse_matches-matches_bytes i (m ∷ ms) rest h =
      rw
        (
          parse_match-match_bytes i m (matches_bytes ms rest) h.0,
          parse_matches-matches_bytes (i + 1) ms rest h.1,
        )
        refl

  parse_text-to_le :
      (text : Bytes)
      → length text < 2 ^ 32
      → from_utf8_lossy text ≡ text
      → parse_text from_utf8_lossy (to_le 4 (length text % 2 ^ 32) ++ text) ≡ ok text
  unfolding parse_text to_le
  parse_text-to_le text short valid =
      let whole_text = to_le 4 (length text % 2 ^ 32) ++ text in
      let len : from_le (slice 0 4 whole_text) ≡ length text =
        from_le-to_le 4 (length text % 2 ^ 32) (omega arith) ∙ mod-eq_of_lt short in
      let long = le→ltb (length whole_text) 4 (omega arith) in
      let whole = le→ltb (length text) (from_le (slice 0 4 whole_text)) (omega (arith, len)) in
      rw (long, whole, len)
        (ap ok (ap from_utf8_lossy (take_all (length text) text (omega arith)) ∙ valid))

  -- Let there be fewer than 2 ^ 32 matches and a processed text shorter than 2 ^ 32, the places of
  -- the matches in 32 bits and their texts shorter than 2 ^ 16, all texts valid UTF-8. Then the
  -- payload is parsed to the matches, numbered in their order, and the processed text.
  pub parse_binary_payload-create_payload :
      (ms : List PatternMatch) (processed : Bytes)
      → AreMatches from_utf8_lossy ms
      → length ms < 2 ^ 32
      → length processed < 2 ^ 32
      → from_utf8_lossy processed ≡ processed
      → parse_binary_payload from_utf8_lossy (create_payload ms processed)
        ≡ ok (renumbered 0 ms, processed)
  unfolding parse_binary_payload create_payload
  parse_binary_payload-create_payload ms processed h few short valid =
      let rest = to_le 4 (length processed % 2 ^ 32) ++ processed in
      let (long, count, left) = counted (length ms) (matches_bytes ms rest) few in
      rw
        (
          long,
          count,
          left,
          parse_matches-matches_bytes 0 ms rest h,
          parse_text-to_le processed short valid,
        )
        refl
