-- ===== src/Columnar/Foreign.antt =====
-- What the columnar encoder takes from other code: floating-point numbers, network addresses and
-- dates and times. Every operation is a parameter of the model.
use alice_text.Prelude.{ℕ, Bool, Option}
use alice_text.Prelude.Int.{ℤ}
use alice_text.Bytes.{Bytes}

pub record Foreign : Type 1 where
  -- `f64`: `parse`, `0.0`, the test of `format_number`, and its two ways to print
  pub Float : Type 0
  pub parse_f64 : Bytes → Option Float
  pub f64_zero : Float
  pub is_integral : Float → Bool
  pub i64_to_string : Float → Bytes
  pub f64_to_string : Float → Bytes
  -- `Ipv4Addr` and `Ipv6Addr`: `parse` and `to_string`
  pub parse_ipv4_addr : Bytes → Option ℕ
  pub ipv4_to_string : ℕ → Bytes
  pub parse_ipv6_addr : Bytes → Option ℕ
  pub ipv6_to_string : ℕ → Bytes
  -- `str::to_uppercase`
  pub to_uppercase : Bytes → Bytes
  -- `NaiveDateTime::parse_from_str` and `DateTime::parse_from_str` with the format of that number:
  -- milliseconds since the epoch, and the offset in seconds
  pub naive_parse : ℕ → Bytes → Option ℤ
  pub tz_parse : ℕ → Bytes → Option (ℤ × ℤ)
  -- `DateTime::from_timestamp_millis`, `FixedOffset::east_opt`
  pub DateTime : Type 0
  pub Offset : Type 0
  pub from_timestamp_millis : ℤ → Option DateTime
  pub east_opt : ℤ → Option Offset
  -- The formats of `get_delta`: UTC with `Z`, local with the offset, local without it, and the two
  -- naive ones
  pub format_zulu : DateTime → Bytes
  pub format_offset : DateTime → Offset → Bytes
  pub format_local : DateTime → Offset → Bytes
  pub format_naive_t : DateTime → Bytes
  pub format_naive_space : DateTime → Bytes
  -- `NaiveDate::parse_from_str`: days since the epoch; and the date that many days after it
  pub date_parse : ℕ → Bytes → Option ℤ
  pub format_date : ℕ → Bytes
  -- `NaiveTime::parse_from_str`: milliseconds since midnight
  pub time_parse : ℕ → Bytes → Option ℤ
