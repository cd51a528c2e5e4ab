-- ===== src/Columnar/Payload.antt =====
-- `ColumnarPayload`: the columns, `add_match`, `get_value` and `restore`.
pub mod Shown
pub mod Grows
pub mod Within
pub mod Values
pub mod Tokens
use alice_text.Prelude.{
  ℕ, ◌-◌, ◌%◌, ◌^◌, List, [], ◌∷◌, ◌++◌, Option, none, some, true, false, length, get_elem?, Bool,
}
use mathlib.Core.Option
use mathlib.Core.Option.{get_or}
use alice_text.Prelude.Int.{ℤ}
use alice_text.Bytes.{Bytes}
use alice_text.Columnar.Foreign.{Foreign}
use alice_text.Columnar.Skeleton.{SkeletonToken, parse_skeleton, restore_tokens}
use alice_text.Columnar.LogLevel
use alice_text.Columnar.Uuid.{parse_uuid, format_uuid}
use alice_text.Columnar.Text.{
  format_time_from_ms, format_number, parse_date_to_days, parse_time_to_ms,
}
use alice_text.Columnar.Timestamps
use alice_text.Columnar.Timestamps.{TimestampColumn}

pub data PatternType : Type 0 where
  timestamp date time ipv4 ipv6 uuid log_level path url number hex email custom : PatternType

-- An unknown column type has no value.
unfoldable pub pick_arm : List (Option Bytes) → ℕ → Option Bytes
pick_arm arms col_type = elim (get_elem? arms col_type) [ some value ↦ value | none ↦ none ]

module _ (foreign : Foreign) where
  open foreign use {
    Float, parse_f64, f64_zero, parse_ipv4_addr, ipv4_to_string, parse_ipv6_addr, ipv6_to_string,
    to_uppercase,
  }

  pub record ColumnarPayload : Type 0 where
    pub skeleton_tokens : List SkeletonToken
    pub placeholder_map : List (ℕ × ℕ)
    pub timestamps : TimestampColumn
    pub ipv4_addrs : List ℕ
    pub ipv6_addrs : List ℕ
    pub log_levels : List ℕ
    pub numbers : List Float
    pub uuids : List ℕ
    pub emails : List Bytes
    pub urls : List Bytes
    pub paths : List Bytes
    pub date_days : List ℕ
    pub dates : List Bytes
    pub time_ms : List ℕ
    pub times : List Bytes
    pub hex_values : List Bytes
    pub others : List Bytes

  unfoldable pub new : Bytes → ColumnarPayload
  new skeleton = record {
    skeleton_tokens = parse_skeleton skeleton;
    placeholder_map = [];
    timestamps = Timestamps.default;
    ipv4_addrs = [];
    ipv6_addrs = [];
    log_levels = [];
    numbers = [];
    uuids = [];
    emails = [];
    urls = [];
    paths = [];
    date_days = [];
    dates = [];
    time_ms = [];
    times = [];
    hex_values = [];
    others = [];
  }

  -- `(col_type, (len - 1) as u32)` after the push.
  abbrev pub last_of {ℓ} : {A : Type ℓ} → ℕ → List A → ℕ × ℕ
  last_of col_type col = (col_type, (length col - 1) % 2 ^ 32)

  pub place_timestamp : (Bool × ℕ) × TimestampColumn → ColumnarPayload → (ℕ × ℕ) × ColumnarPayload
  place_timestamp ((true, idx), col) p = ((0, idx % 2 ^ 32), record p { timestamps = col })
  place_timestamp ((false, idx), col) p = ((13, idx % 2 ^ 32), record p { timestamps = col })

  pub place_date : Bytes → Option ℕ → ColumnarPayload → (ℕ × ℕ) × ColumnarPayload
  place_date s (some days) p =
      let col = p.date_days ++ days ∷ [] in (last_of 8 col, record p { date_days = col })
  place_date s none p = let col = p.dates ++ s ∷ [] in (last_of 14 col, record p { dates = col })

  pub place_time : Bytes → Option ℕ → ColumnarPayload → (ℕ × ℕ) × ColumnarPayload
  place_time s (some ms) p =
      let col = p.time_ms ++ ms ∷ [] in (last_of 9 col, record p { time_ms = col })
  place_time s none p = let col = p.times ++ s ∷ [] in (last_of 15 col, record p { times = col })

  pub place_ipv6 : Bytes → Option ℕ → ColumnarPayload → (ℕ × ℕ) × ColumnarPayload
  place_ipv6 s (some ip) p =
      let col = p.ipv6_addrs ++ ip ∷ [] in (last_of 12 col, record p { ipv6_addrs = col })
  place_ipv6 s none p = let col = p.others ++ s ∷ [] in (last_of 11 col, record p { others = col })

  -- The `match` of `add_match`: the column and the index of the text, and the payload with it.
  pub place : PatternType → Bytes → ColumnarPayload → (ℕ × ℕ) × ColumnarPayload
  unfolding place_timestamp place_date place_time place_ipv6
  place timestamp s p = place_timestamp (Timestamps.add foreign p.timestamps s) p
  place ipv4 s p =
      let col = p.ipv4_addrs ++ get_or (parse_ipv4_addr s) 0 ∷ [] in
      (last_of 1 col, record p { ipv4_addrs = col })
  place log_level s p =
      let col = p.log_levels ++ LogLevel.as_u8 (LogLevel.parse_level to_uppercase s) ∷ [] in
      (last_of 2 col, record p { log_levels = col })
  place number s p =
      let col = p.numbers ++ get_or (parse_f64 s) f64_zero ∷ [] in
      (last_of 3 col, record p { numbers = col })
  place uuid s p =
      let col = p.uuids ++ get_or (parse_uuid s) 0 ∷ [] in (last_of 4 col, record p { uuids = col })
  place email s p = let col = p.emails ++ s ∷ [] in (last_of 5 col, record p { emails = col })
  place url s p = let col = p.urls ++ s ∷ [] in (last_of 6 col, record p { urls = col })
  place path s p = let col = p.paths ++ s ∷ [] in (last_of 7 col, record p { paths = col })
  place date s p = place_date s (parse_date_to_days foreign s) p
  place time s p = place_time s (parse_time_to_ms foreign s) p
  place hex s p =
      let col = p.hex_values ++ s ∷ [] in (last_of 10 col, record p { hex_values = col })
  place ipv6 s p = place_ipv6 s (parse_ipv6_addr s) p
  place custom s p = let col = p.others ++ s ∷ [] in (last_of 11 col, record p { others = col })

  unfoldable pub add_match : PatternType → Bytes → ColumnarPayload → ColumnarPayload
  unfolding place
  add_match pattern_type s p =
      let (entry, p') = place pattern_type s p in
      record p' { placeholder_map = p.placeholder_map ++ entry ∷ [] }

  -- The arms `0` to `15` of `get_value_fast`, at an index of the column.
  pub arms : ColumnarPayload → List ℤ → ℕ → List (Option Bytes)
  arms p sums idx =
      Timestamps.get_delta foreign p.timestamps idx sums
      ∷ Option.map ipv4_to_string (get_elem? p.ipv4_addrs idx)
      ∷ Option.map (λ v. LogLevel.to_str (LogLevel.from_u8 v)) (get_elem? p.log_levels idx)
      ∷ Option.map (format_number foreign) (get_elem? p.numbers idx)
      ∷ Option.map format_uuid (get_elem? p.uuids idx)
      ∷ get_elem? p.emails idx
      ∷ get_elem? p.urls idx
      ∷ get_elem? p.paths idx
      ∷ Option.map foreign.format_date (get_elem? p.date_days idx)
      ∷ Option.map format_time_from_ms (get_elem? p.time_ms idx)
      ∷ get_elem? p.hex_values idx
      ∷ get_elem? p.others idx
      ∷ Option.map ipv6_to_string (get_elem? p.ipv6_addrs idx)
      ∷ get_elem? p.timestamps.raw idx
      ∷ get_elem? p.dates idx
      ∷ get_elem? p.times idx
      ∷ []

  pub column_value : ColumnarPayload → List ℤ → ℕ → ℕ → Option Bytes
  unfolding arms
  column_value p sums col_type idx = elim (get_elem? (arms p sums idx) col_type) [
    | some value ↦ value
    | none ↦ none
  ]

  unfoldable pub get_value_fast : ColumnarPayload → ℕ → List ℤ → Option Bytes
  unfolding column_value
  get_value_fast p placeholder_idx sums = elim (get_elem? p.placeholder_map placeholder_idx) [
    | some (col_type, col_idx) ↦ column_value p sums col_type col_idx
    | none ↦ none
  ]

  unfoldable pub get_value : ColumnarPayload → ℕ → Option Bytes
  unfolding get_value_fast
  get_value p placeholder_idx =
      get_value_fast p placeholder_idx (Timestamps.prepare_for_read p.timestamps)

  unfoldable pub restore : ColumnarPayload → Bytes
  unfolding get_value_fast
  restore p =
      let sums = Timestamps.prepare_for_read p.timestamps in
      restore_tokens (λ idx. get_value_fast p idx sums) p.skeleton_tokens
