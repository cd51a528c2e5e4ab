-- ===== src/Columnar/Runs/Parts.antt =====
-- The parts of the columnar encoder at concrete values.
use alice_text.Prelude.{ℕ, ◌≡◌, refl, List, [], ◌∷◌, ◌++◌, Option, some, arith, get_elem?}
use alice_text.Prelude.Int.{pos, ◌+ℤ◌}
use alice_text.Bytes.{Bytes}
use alice_text.Columnar.Skeleton.{Span, skeleton_of, parse_skeleton, restore_tokens}
use alice_text.Columnar.Skeleton.RoundTrip.{restore_tokens-parse_skeleton}
use alice_text.Columnar.Timestamps
use alice_text.Columnar.Timestamps.{TimestampColumn, prepare_for_read, get_delta}
use alice_text.Decimal.{parse_u32}
use alice_text.Columnar.Timestamps.Deltas.{total, IsColumn, add_lem, row, raw_row}
use alice_text.Columnar.Matches.{find_matches}
use alice_text.Columnar.Matches.Sorted.{InOrder, find_matches-InOrder}
use alice_text.Columnar.Uuid.{parse_uuid, format_uuid}
use alice_text.Columnar.Uuid.RoundTrip.{parse_uuid-format_uuid}
use alice_text.Columnar.Payload.{ColumnarPayload, new, place, add_match, timestamp}
use alice_text.Columnar.Payload.Values.{Ready, add_match-Ready}
use alice_text.Columnar.Payload.Shown.{shown, value_of, place-shown}
use alice_text.Columnar.Encoder.{encode, decode}
use alice_text.Columnar.Skeleton.Collisions.{empty_braces}
use alice_text.Columnar.Encoder.Lost.{decode-encode-empty_braces}
use alice_text.Columnar.Encoder.Lossless.{new-Ready}
use alice_text.Columnar.Runs.{sample, line, line_captures, line_skeleton, line-CapturesInside}

find_matches-InOrder_example : InOrder line 0 (find_matches line_captures line)
find_matches-InOrder_example = find_matches-InOrder line_captures line line-CapturesInside

-- "ab 7."
abbrev short_text : Bytes
short_text = b'a' ∷ b'b' ∷ b' ' ∷ b'7' ∷ b'.' ∷ []

abbrev short_spans : List Span
short_spans = record { start = 0; end = 2 } ∷ record { start = 3; end = 4 } ∷ []

abbrev short_values : ℕ → Option Bytes
short_values i = get_elem? ((b'a' ∷ b'b' ∷ []) ∷ (b'7' ∷ []) ∷ []) i

restore_tokens-parse_skeleton_example :
    restore_tokens short_values (parse_skeleton (skeleton_of short_text short_spans)) ≡ short_text
restore_tokens-parse_skeleton_example =
    restore_tokens-parse_skeleton short_values short_text short_spans
      (tt, omega arith, omega arith, ((refl, tt), omega arith, omega arith, (refl, tt)))
      (refl, (refl, tt)) (omega arith)

abbrev forty : Bytes
forty = b'4' ∷ b'0' ∷ []

abbrev fifty : Bytes
fifty = b'5' ∷ b'0' ∷ []

-- A column with one timestamp.
abbrev started : TimestampColumn
started = record Timestamps.default {
  base = some forty;
  base_ms = some (pos 40);
  deltas = pos 0 ∷ [];
  last_ms = pos 40;
}

started-IsColumn : IsColumn started
unfolding total ◌+ℤ◌
started-IsColumn = refl

add_lem_example :
    (prepare_for_read (Timestamps.add sample started fifty).1
      ≡ prepare_for_read started ++ row sample (Timestamps.parse_timestamp sample started fifty).0)
    × ((Timestamps.add sample started fifty).1.raw
        ≡ [] ++ raw_row sample (Timestamps.parse_timestamp sample started fifty).0 fifty)
    × IsColumn (Timestamps.add sample started fifty).1
add_lem_example = add_lem sample started fifty started-IsColumn

started-steady : (Timestamps.add sample started fifty).1.base_offset_secs ≡ started.base_offset_secs
unfolding Timestamps.add Timestamps.parse_timestamp parse_u32
started-steady = refl

-- A payload with one timestamp, which gets a second one.
abbrev one_timestamp : ColumnarPayload sample
one_timestamp = add_match sample timestamp forty (new sample line_skeleton)

one_timestamp-Ready : Ready sample 1 one_timestamp
one_timestamp-Ready =
    add_match-Ready sample 0 timestamp forty (new sample line_skeleton)
      (new-Ready sample line_skeleton)

place-shown_example :
    value_of sample (place sample timestamp fifty one_timestamp)
    ≡ shown sample timestamp fifty one_timestamp
place-shown_example =
    place-shown sample 1 fifty one_timestamp one_timestamp-Ready.within (omega arith) timestamp
      one_timestamp-Ready.column

parse_uuid-format_uuid_example :
    parse_uuid (format_uuid 0x550e8400e29b41d4a716446655440000)
    ≡ some 0x550e8400e29b41d4a716446655440000
parse_uuid-format_uuid_example =
    parse_uuid-format_uuid 0x550e8400e29b41d4a716446655440000 (omega arith)

decode-encode-empty_braces_example :
    decode sample (encode sample (λ _. []) (forty ++ (empty_braces ++ fifty)))
    ≡ (forty ++ b'{' ∷ []) ++ fifty
decode-encode-empty_braces_example =
    decode-encode-empty_braces sample (λ _. []) forty fifty (refl, (refl, tt)) (refl, (refl, tt))
      refl
