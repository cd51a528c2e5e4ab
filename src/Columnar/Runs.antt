-- ===== src/Columnar/Runs.antt =====
-- Runs of the columnar encoder, and its theorems at a concrete text.
mod Parts
use alice_text.Prelude.{
  length, zero, map, true, ℕ, ◌≡◌, refl, inl, inr, List, [], ◌∷◌, Option, none, some, arith, true,
}
use alice_text.Prelude.Int.{ℤ, pos, negsuc}
use alice_text.Bytes.{Bytes}
use alice_text.Decimal.{to_decimal, parse_u32}
use alice_text.Columnar.Foreign.{Foreign}
use alice_text.Columnar.Skeleton.{skeleton_of}
use alice_text.Columnar.Skeleton.RoundTrip.{IsPlain}
use alice_text.Columnar.Matches.Order.{CapturesInside}
use alice_text.Columnar.Matches.{
  any_covered, cover, uncovered, free_group, TunedMatch, match_of, Group, find_matches,
  skeleton_with,
}
use alice_text.Columnar.Payload.{PatternType, timestamp, log_level, number, path, new}
use alice_text.Columnar.Payload.{add_match}
use alice_text.Columnar.Payload.Shown.{shown}
use alice_text.Columnar.Timestamps
use alice_text.Columnar.Timestamps.Reads.{shown_as}
use alice_text.Columnar.LogLevel
use alice_text.Columnar.Encoder.{encode, decode}
use alice_text.Columnar.Encoder.Lossless.{decode-encode, Lossless}

abbrev pub moment : ℤ → Option ℕ
moment (pos n) = some n
moment (negsuc n) = none

abbrev pub first_format : ℕ → Option ℕ → Option ℤ
first_format zero (some n) = some (pos n)
first_format idx o = none

-- Numbers, moments and days are decimal numerals; there are no addresses and no time zones.
abbrev pub sample : Foreign
sample = record {
  Float = ℕ;
  parse_f64 = parse_u32;
  f64_zero = 0;
  is_integral = λ _. true;
  i64_to_string = to_decimal;
  f64_to_string = to_decimal;
  parse_ipv4_addr = λ _. none;
  ipv4_to_string = to_decimal;
  parse_ipv6_addr = λ _. none;
  ipv6_to_string = to_decimal;
  to_uppercase = λ s. s;
  naive_parse = λ idx s. first_format idx (parse_u32 s);
  tz_parse = λ _ _. none;
  DateTime = ℕ;
  Offset = ℤ;
  from_timestamp_millis = moment;
  east_opt = λ z. some z;
  format_zulu = to_decimal;
  format_offset = λ n _. to_decimal n;
  format_local = λ n _. to_decimal n;
  format_naive_t = to_decimal;
  format_naive_space = to_decimal;
  date_parse = λ idx s. first_format idx (parse_u32 s);
  format_date = to_decimal;
  time_parse = λ idx s. first_format idx (parse_u32 s);
}

-- "40 INFO 52 /a"
abbrev pub line : Bytes
line = b'4' ∷ b'0' ∷ b' ' ∷ b'I' ∷ b'N' ∷ b'F' ∷ b'O' ∷ b' ' ∷ b'5' ∷ b'2' ∷ b' ' ∷ b'/' ∷ b'a' ∷ []

abbrev pub group : PatternType → ℕ → ℕ → Group
group t s e = record { pattern_type = t; start = s; end = e }

-- Out of order, and with a number that a timestamp covers already.
abbrev pub line_captures : Bytes → List (List Group)
line_captures _ =
    (group timestamp 8 10 ∷ [])
    ∷ (group timestamp 0 2 ∷ [])
    ∷ (group number 0 1 ∷ [])
    ∷ (group log_level 3 7 ∷ [])
    ∷ (group number 0 2 ∷ group path 11 13 ∷ [])
    ∷ []

pub line-IsPlain : IsPlain line
line-IsPlain = (
  refl,
  (
    refl,
    (refl, (refl, (refl, (refl, (refl, (refl, (refl, (refl, (refl, (refl, (refl, tt))))))))))),
  ),
)

pub line-CapturesInside : CapturesInside (length line) (line_captures line)
line-CapturesInside = omega arith

abbrev pub line_matches : List TunedMatch
line_matches =
    map (match_of line)
      (group timestamp 0 2 ∷ group log_level 3 7 ∷ group timestamp 8 10 ∷ group path 11 13 ∷ [])

pub line-matches : find_matches line_captures line ≡ line_matches
unfolding find_matches any_covered cover free_group uncovered
line-matches = refl

-- "{0} {1} {2} {3}"
abbrev pub line_skeleton : Bytes
line_skeleton =
    b'{' ∷ b'0' ∷ b'}' ∷ b' ' ∷ b'{' ∷ b'1' ∷ b'}' ∷ b' ' ∷ b'{' ∷ b'2' ∷ b'}' ∷ b' ' ∷ b'{' ∷ b'3'
    ∷ b'}' ∷ []

pub line-skeleton : skeleton_with line line_matches ≡ line_skeleton
unfolding skeleton_with skeleton_of to_decimal
line-skeleton = refl

pub line-Lossless : Lossless sample (new sample line_skeleton) line_matches
unfolding shown add_match new Timestamps.add Timestamps.parse_timestamp shown_as Timestamps.reading
    Timestamps.format_moment Timestamps.format_like Timestamps.contains_char parse_u32 to_decimal
    LogLevel.parse_level LogLevel.level_of LogLevel.to_str
line-Lossless = (refl, inl refl, (refl, tt, (refl, inr refl, (refl, tt, tt))))

decode-encode_example : decode sample (encode sample line_captures line) ≡ line
decode-encode_example =
    decode-encode sample line_captures line line-IsPlain line-CapturesInside
      (rw (line-matches, line-skeleton) line-Lossless) (rw line-matches (omega arith))
