-- ===== src/Columnar/Timestamps.antt =====
-- `TimestampColumn`: timestamps as differences in milliseconds. An `i64` is an integer: the
-- timestamps that chrono accepts and their differences are far from the limits of the type.
pub mod Deltas
pub mod Reads
use alice_text.Prelude.{
  ℕ, zero, suc, ◌+◌, ◌-◌, List, [], ◌∷◌, ◌++◌, Option, none, some, Bool, true, false, ltb, ◌==◌,
  ◌||◌, ◌&&◌, if◌then◌else◌, length, get_elem?, drop,
}
use alice_text.Prelude.Int.{ℤ, pos, ◌+ℤ◌, ◌-ℤ◌}
use alice_text.Bytes.{Bytes}
use alice_text.Columnar.Foreign.{Foreign}

pub data CachedFormatType : Type 0 where
  no_format : CachedFormatType
  naive : ℕ → CachedFormatType
  tz : ℕ → CachedFormatType

pub record TimestampColumn : Type 0 where
  pub base : Option Bytes
  pub base_ms : Option ℤ
  pub deltas : List ℤ
  pub raw : List Bytes
  pub cached_format_idx : Option CachedFormatType
  pub last_ms : ℤ
  pub base_offset_secs : Option ℤ

abbrev pub default : TimestampColumn
default = record {
  base = none;
  base_ms = none;
  deltas = [];
  raw = [];
  cached_format_idx = none;
  last_ms = pos 0;
  base_offset_secs = none;
}

-- The first format of a table that parses, and what it parses to.
pub find_format {ℓ} : {A : Type ℓ} → (ℕ → Option A) → List ℕ → Option (ℕ × A)
find_format parse [] = none
find_format parse (idx ∷ rest) = elim (parse idx) [
  | some a ↦ some (idx, a)
  | none ↦ find_format parse rest
]

-- Both tables have four formats.
abbrev pub format_indices : List ℕ
format_indices = 0 ∷ 1 ∷ 2 ∷ 3 ∷ []

-- What a parse may change of the column: the cached format and the offset.
pub record Seen : Type 0 where
  pub cached : Option CachedFormatType
  pub offset : Option ℤ

-- The offset is kept once, from the first timestamp that has one.
unfoldable pub capture_offset : ℤ → Option ℤ → Option ℤ
capture_offset offset none = some offset
capture_offset offset (some kept) = some kept

-- `fmts.get(idx)`, then the parse.
abbrev with_index {ℓ} : {A : Type ℓ} → (ℕ → Bytes → Option A) → ℕ → Bytes → Option A
with_index parse idx s = if ltb idx 4 then parse idx s else none

-- The string contains the character.
unfoldable pub contains_char : ℕ → Bytes → Bool
contains_char c [] = false
contains_char c (b ∷ bs) = b == c || contains_char c bs

unfoldable pub ends_with_char : ℕ → Bytes → Bool
ends_with_char c [] = false
ends_with_char c (b ∷ []) = b == c
ends_with_char c (b ∷ d ∷ bs) = ends_with_char c (d ∷ bs)

unfoldable pub prefix_sums : ℤ → List ℤ → List ℤ
prefix_sums sum [] = []
prefix_sums sum (d ∷ ds) = let next = sum +ℤ d in next ∷ prefix_sums next ds

unfoldable pub prepare_for_read : TimestampColumn → List ℤ
unfolding prefix_sums
prepare_for_read c = prefix_sums (elim c.base_ms [ none ↦ pos 0 | some b ↦ b ]) c.deltas

unfoldable pub len : TimestampColumn → ℕ
len c = length c.deltas + length c.raw

unfoldable pub is_empty : TimestampColumn → Bool
is_empty c = length c.deltas == 0 && length c.raw == 0

module _ (foreign : Foreign) where
  open foreign use {
    naive_parse, tz_parse, DateTime, Offset, from_timestamp_millis, east_opt, format_zulu,
    format_offset, format_local, format_naive_t, format_naive_space,
  }

  -- The fast path: the cached format, if it parses.
  cached_parse : Option CachedFormatType → Seen → Bytes → Option (ℤ × Seen)
  cached_parse (some (naive idx)) seen s = elim (with_index naive_parse idx s) [
    | some ms ↦ some (ms, seen)
    | none ↦ none
  ]
  cached_parse (some (tz idx)) seen s = elim (with_index tz_parse idx s) [
    | some (ms, offset) ↦ some (ms, record seen { offset = capture_offset offset seen.offset })
    | none ↦ none
  ]
  cached_parse _ seen s = none

  -- The naive formats, after all else.
  parse_naive : Seen → Option (ℕ × ℤ) → Option ℤ × Seen
  parse_naive seen (some (idx, ms)) = (some ms, record seen { cached = some (naive idx) })
  parse_naive seen none = (none, seen)

  -- The formats with a time zone go first.
  parse_tz : Seen → Bytes → Option (ℕ × (ℤ × ℤ)) → Option ℤ × Seen
  parse_tz seen s (some (idx, (ms, offset))) =
      (some ms, record { cached = some (tz idx); offset = capture_offset offset seen.offset })
  parse_tz seen s none = parse_naive seen (find_format (λ idx. naive_parse idx s) format_indices)

  parse_slow : Seen → Bytes → Option (ℤ × Seen) → Option ℤ × Seen
  parse_slow seen s (some (ms, seen')) = (some ms, seen')
  parse_slow seen s none = parse_tz seen s (find_format (λ idx. tz_parse idx s) format_indices)

  parse_seen : Seen → Bytes → Option ℤ × Seen
  unfolding cached_parse parse_naive parse_tz parse_slow find_format capture_offset
  parse_seen seen s = parse_slow seen s (cached_parse seen.cached seen s)

  unfoldable pub parse_timestamp : TimestampColumn → Bytes → Option ℤ × TimestampColumn
  unfolding parse_seen
  parse_timestamp c s =
      let r = parse_seen (record { cached = c.cached_format_idx; offset = c.base_offset_secs }) s in
      (r.0, record c { cached_format_idx = r.1.cached; base_offset_secs = r.1.offset })

  -- The first timestamp is the base, each later one a difference.
  push_delta : ℤ → Bytes → TimestampColumn → Option ℤ → TimestampColumn
  push_delta ts_ms s c none = record c {
    base = some s;
    base_ms = some ts_ms;
    last_ms = ts_ms;
    deltas = c.deltas ++ pos 0 ∷ [];
  }
  push_delta ts_ms s c (some _) = record c {
    last_ms = ts_ms;
    deltas = c.deltas ++ (ts_ms -ℤ c.last_ms) ∷ [];
  }

  push_parsed : Bytes → Option ℤ → TimestampColumn → (Bool × ℕ) × TimestampColumn
  push_parsed s (some ts_ms) c = ((true, length c.deltas), push_delta ts_ms s c c.base_ms)
  push_parsed s none c = ((false, length c.raw), record c { raw = c.raw ++ s ∷ [] })

  -- Whether the timestamp went to the differences, its index there, and the new column.
  unfoldable pub add : TimestampColumn → Bytes → (Bool × ℕ) × TimestampColumn
  unfolding push_delta push_parsed
  add c s = let r = parse_timestamp c s in push_parsed s r.0 r.1

  -- The text of a moment, with the form of the base string.
  unfoldable pub format_like : Bytes → Option ℤ → DateTime → Option Bytes
  format_like base none dt =
      if contains_char b'T' base then some (format_naive_t dt) else some (format_naive_space dt)
  format_like base (some offset_secs) dt = elim (east_opt offset_secs) [
    | none ↦ none
    | some offset ↦
        if ends_with_char b'Z' base
        then some (format_zulu dt)
        else if contains_char b'+' base || contains_char b'-' base && ltb 19 (length base)
        then some (format_offset dt offset)
        else some (format_local dt offset)
  ]

  unfoldable pub format_moment : Bytes → Option ℤ → Option ℤ → Option Bytes
  format_moment base offset none = none
  format_moment base offset (some total_ms) = elim (from_timestamp_millis total_ms) [
    | none ↦ none
    | some dt ↦ format_like base offset dt
  ]

  -- Without a base there is no text.
  unfoldable pub reading : Option Bytes → Option ℤ → Option ℤ → Option Bytes
  reading none offset total_ms = none
  reading (some base) offset total_ms = format_moment base offset total_ms

  unfoldable pub get_delta : TimestampColumn → ℕ → List ℤ → Option Bytes
  unfolding format_like format_moment reading
  get_delta c delta_idx sums = reading c.base c.base_offset_secs (get_elem? sums delta_idx)

  unfoldable pub get : TimestampColumn → ℕ → Option Bytes
  get c idx =
      if ltb idx (length c.deltas)
      then get_delta c idx (prepare_for_read c)
      else get_elem? c.raw (idx - length c.deltas)
