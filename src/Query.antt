-- ===== src/Query.antt =====
-- The query engine of `src/query_engine.rs`: operators, scans, names of columns and results. Names
-- and values are bytes. Of several columns that fail in one parallel read, the model gives the
-- error of the first, where the source gives that of any.
pub mod Text
pub mod Values
pub mod Results
pub mod Engine
pub mod Builder
pub mod Scan
pub mod Names
pub mod Agree
pub mod Strings
pub mod Answers
pub mod Wording
pub mod Cells
pub mod Rows
mod Runs
use alice_text.Prelude.{
  ℕ, zero, suc, List, [], ◌∷◌, Option, none, some, Bool, true, false, not, ◌==◌, same_list,
  if◌then◌else◌, ltb, ◌&&◌, leb,
}
use alice_text.Bytes.{Bytes}
use alice_text.Error.{Result, ok, err, decompression_error, or_error}
use alice_text.Prelude.Int.{ℤ, ltb_ℤ}
use alice_text.Columnar.Foreign.{Foreign}
use alice_text.Wire.Columns.Types.{
  ColumnType, name, skeleton, timestamps, ipv4, ipv6, log_levels, numbers, uuids, emails, urls,
  paths, date_days, dates_raw, time_ms, times_raw, hex_values, others, placeholder_map,
  timestamps_raw,
}
use Text.{codes, lt_bytes, contains, starts_with, ends_with, lookup}

pub data Op : Type 0 where
  op_eq op_ne op_lt op_le op_gt op_ge op_contains op_starts_with op_ends_with : Op

-- `PartialEq` and `PartialOrd` of a primitive type.
pub record Comparison (A : Type 0) : Type 0 where
  pub eq : A → A → Bool
  pub lt : A → A → Bool
  pub le : A → A → Bool

abbrev pub number_order : Comparison ℕ
number_order = record { eq = ◌==◌; lt = ltb; le = leb }

abbrev pub same_ℤ : ℤ → ℤ → Bool
same_ℤ a b = not (ltb_ℤ a b) && not (ltb_ℤ b a)

abbrev pub integer_order : Comparison ℤ
integer_order = record { eq = same_ℤ; lt = ltb_ℤ; le = λ a b. not (ltb_ℤ b a) }

-- The closure of `scan_primitive`.
unfoldable pub test_primitive : {A : Type 0} → Comparison A → Op → A → A → Bool
test_primitive c op_eq v target = c.eq v target
test_primitive c op_ne v target = not (c.eq v target)
test_primitive c op_lt v target = c.lt v target
test_primitive c op_le v target = c.le v target
test_primitive c op_gt v target = c.lt target v
test_primitive c op_ge v target = c.le target v
test_primitive c op_contains v target = false
test_primitive c op_starts_with v target = false
test_primitive c op_ends_with v target = false

-- The closure of `scan_strings`.
unfoldable pub test_string : Op → Bytes → Bytes → Bool
test_string op_eq v target = same_list v target
test_string op_ne v target = not (same_list v target)
test_string op_lt v target = lt_bytes v target
test_string op_le v target = not (lt_bytes target v)
test_string op_gt v target = lt_bytes target v
test_string op_ge v target = not (lt_bytes v target)
test_string op_contains v target = contains v target
test_string op_starts_with v target = starts_with v target
test_string op_ends_with v target = ends_with v target

-- `enumerate().filter(..).map(|(i, _)| i)`, from an index on.
unfoldable pub scan_from {ℓ} : {A : Type ℓ} → ℕ → (A → Bool) → List A → List ℕ
scan_from i test [] = []
scan_from i test (v ∷ vs) =
    let rest = scan_from (suc i) test vs in if test v then i ∷ rest else rest

unfoldable pub scan_primitive : {A : Type 0} → Comparison A → List A → Op → A → List ℕ
unfolding scan_from test_primitive
scan_primitive c values op target = scan_from 0 (λ v. test_primitive c op v target) values

unfoldable pub scan_strings : List Bytes → Op → Bytes → List ℕ
unfolding scan_from test_string
scan_strings values op target = scan_from 0 (λ v. test_string op v target) values

-- What the engine takes from other code: the tests on `f64`, its absolute difference against
-- `f64::EPSILON`, chrono's parse of a moment with the format of that number, and of a date, whose
-- midnight it is; milliseconds.
pub record Services (foreign : Foreign) : Type 0 where
  pub near : foreign.Float → foreign.Float → Bool
  pub apart : foreign.Float → foreign.Float → Bool
  pub f64_lt : foreign.Float → foreign.Float → Bool
  pub f64_le : foreign.Float → foreign.Float → Bool
  pub moment_parse : ℕ → Bytes → Option ℤ
  pub midnight_parse : Bytes → Option ℤ

module _ (foreign : Foreign) (services : Services foreign) where
  open foreign use {Float}

  -- The closure of `scan_f64`.
  unfoldable pub test_f64 : Op → Float → Float → Bool
  test_f64 op_eq v target = services.near v target
  test_f64 op_ne v target = services.apart v target
  test_f64 op_lt v target = services.f64_lt v target
  test_f64 op_le v target = services.f64_le v target
  test_f64 op_gt v target = services.f64_lt target v
  test_f64 op_ge v target = services.f64_le target v
  test_f64 op_contains v target = false
  test_f64 op_starts_with v target = false
  test_f64 op_ends_with v target = false

  unfoldable pub scan_f64 : List Float → Op → Float → List ℕ
  unfolding scan_from test_f64
  scan_f64 values op target = scan_from 0 (λ v. test_f64 op v target) values

  -- The loop over the formats.
  unfoldable pub first_moment : List ℕ → Bytes → Option ℤ
  first_moment [] s = services.midnight_parse s
  first_moment (f ∷ fs) s = elim (services.moment_parse f s) [
    | some ms ↦ some ms
    | none ↦ first_moment fs s
  ]

  unfoldable pub parse_query_timestamp : Bytes → Result ℤ
  unfolding first_moment
  parse_query_timestamp s =
      or_error (first_moment (0 ∷ 1 ∷ 2 ∷ 3 ∷ 4 ∷ []) s)
        (decompression_error "Invalid timestamp format")

-- The arms of `name_to_type`.
abbrev pub name_arms : List (Bytes × ColumnType)
name_arms =
    (codes "skeleton", skeleton)
    ∷ (codes "timestamps", timestamps)
    ∷ (codes "ipv4", ipv4)
    ∷ (codes "ipv6", ipv6)
    ∷ (codes "log_levels", log_levels)
    ∷ (codes "numbers", numbers)
    ∷ (codes "uuids", uuids)
    ∷ (codes "emails", emails)
    ∷ (codes "urls", urls)
    ∷ (codes "paths", paths)
    ∷ (codes "date_days", date_days)
    ∷ (codes "dates_raw", dates_raw)
    ∷ (codes "time_ms", time_ms)
    ∷ (codes "times_raw", times_raw)
    ∷ (codes "hex_values", hex_values)
    ∷ (codes "others", others)
    ∷ (codes "placeholder_map", placeholder_map)
    ∷ (codes "timestamps_raw", timestamps_raw)
    ∷ []

unfoldable pub name_to_type : Bytes → Result ColumnType
name_to_type s = or_error (lookup s name_arms) (decompression_error "Unknown column")
