-- ===== src/Wire/Exception/Encode.antt =====
-- `ExceptionEncoder::encode` and `encode_to_bytes`, and of `src/pattern_learner.rs` `find_matches`
-- and `replace_patterns`. What the regular expressions find and the number of words are arguments.
pub mod Direct
use alice_text.Prelude.{
  ℕ, suc, ◌+◌, ◌%◌, ◌^◌, List, [], ◌∷◌, ◌++◌, Option, some, none, Bool, true, false, leb,
  if◌then◌else◌, length, drop,
}
use alice_text.Bytes.{Bytes, slice}
use alice_text.Error.{Result, ok, ◌>>=◌}
use alice_text.Columnar.Payload.{PatternType}
use alice_text.Columnar.Matches.{Group, uncovered, any_covered, cover}
use alice_text.Learner.{PatternDatabase, learn, found_groups, pattern_types}
use alice_text.Wire.Exception
use alice_text.Wire.Exception.{EncodingMode, pattern, ngram}
use alice_text.Wire.Exception.Payload.{PatternMatch}
use alice_text.Wire.Exception.Files
use alice_text.Wire.Exception.Files.{EncodedText, p_placeholder}

-- A match that meets a covered byte is passed over; the others are numbered.
unfoldable pub collect : Bytes → List Bool → ℕ → List Group → List PatternMatch
collect whole covered i [] = []
collect whole covered i (g ∷ gs) = elim (any_covered g.start g.end covered) [
  | true ↦ collect whole covered i gs
  | false ↦
      record {
        pattern_type = g.pattern_type;
        start = g.start;
        end = g.end;
        matched_text = slice g.start g.end whole;
        pattern_index = i;
      }
      ∷ collect whole (cover g.start g.end covered) (i + 1) gs
]

-- `sort_by_key(|m| m.start)`, which is stable.
unfoldable pub insert_match : PatternMatch → List PatternMatch → List PatternMatch
insert_match m [] = m ∷ []
insert_match m (n ∷ ns) = if leb m.start n.start then m ∷ n ∷ ns else n ∷ insert_match m ns

unfoldable pub sort_matches : List PatternMatch → List PatternMatch
unfolding insert_match
sort_matches [] = []
sort_matches (m ∷ ms) = insert_match m (sort_matches ms)

-- The text from the end of the last match on, with placeholders for the matches.
unfoldable pub replaced_from : Bytes → ℕ → ℕ → List PatternMatch → Bytes
replaced_from whole i last_end [] = drop last_end whole
replaced_from whole i last_end (m ∷ ms) =
    slice last_end m.start whole ++ (p_placeholder i ++ replaced_from whole (i + 1) m.end ms)

module _ (find_iter : PatternType → Bytes → List Group) (count_words : Bytes → ℕ) where
  unfoldable pub find_matches : Bytes → List PatternMatch
  unfolding collect sort_matches
  find_matches whole =
      sort_matches
        (collect whole (uncovered (length whole)) 0 (found_groups find_iter whole pattern_types))

  unfoldable pub replace_patterns : Bytes → Bytes × List PatternMatch
  unfolding replaced_from find_matches
  replace_patterns whole =
      let matches = find_matches whole in (replaced_from whole 0 0 matches, matches)

  unfoldable pub encode_pattern : Bytes → EncodedText
  unfolding replace_patterns
  encode_pattern whole =
      let r = replace_patterns whole in
      record {
        header = record (Exception.new pattern) {
          original_length = length whole % 2 ^ 32;
          token_count = count_words whole % 2 ^ 32;
          exception_count = length r.1 % 2 ^ 32;
        };
        pattern_db = some (learn find_iter whole);
        pattern_matches = r.1;
        processed_text = r.0;
        original_text = whole;
        token_count = count_words whole;
        exception_count = length r.1;
      }

  -- All tokens count as exceptions.
  unfoldable pub encode_ngram : Bytes → EncodedText
  encode_ngram whole = record {
    header = record (Exception.new ngram) {
      original_length = length whole % 2 ^ 32;
      token_count = count_words whole % 2 ^ 32;
      exception_count = count_words whole % 2 ^ 32;
    };
    pattern_db = none;
    pattern_matches = [];
    processed_text = whole;
    original_text = whole;
    token_count = count_words whole;
    exception_count = count_words whole;
  }

  unfoldable pub encode : EncodingMode → Bytes → EncodedText
  unfolding encode_pattern encode_ngram
  encode pattern whole = encode_pattern whole
  encode ngram whole = encode_ngram whole

  unfoldable pub encode_to_bytes : (Bytes → Option Bytes) → EncodingMode → Bytes → Result Bytes
  unfolding encode
  encode_to_bytes lzma_compress mode whole = Files.to_bytes lzma_compress mode (encode mode whole)
