-- ===== src/Wire/Columns/Types.antt =====
-- `ColumnType` of `src/format_v3.rs`: its numbers and its names.
use alice_text.Prelude.{ℕ, List, Option, ◌≡◌, get_elem?, some, refl, ◌∷◌, []}
use Prim.Native.String.{String}

pub data ColumnType : Type 0 where
  skeleton : ColumnType
  timestamps : ColumnType
  ipv4 : ColumnType
  ipv6 : ColumnType
  log_levels : ColumnType
  numbers : ColumnType
  uuids : ColumnType
  emails : ColumnType
  urls : ColumnType
  paths : ColumnType
  date_days : ColumnType
  dates_raw : ColumnType
  time_ms : ColumnType
  times_raw : ColumnType
  hex_values : ColumnType
  others : ColumnType
  placeholder_map : ColumnType
  timestamps_raw : ColumnType

-- `self as u8`
unfoldable pub as_u8 : ColumnType → ℕ
as_u8 skeleton = 0
as_u8 timestamps = 1
as_u8 ipv4 = 2
as_u8 ipv6 = 3
as_u8 log_levels = 4
as_u8 numbers = 5
as_u8 uuids = 6
as_u8 emails = 7
as_u8 urls = 8
as_u8 paths = 9
as_u8 date_days = 10
as_u8 dates_raw = 11
as_u8 time_ms = 12
as_u8 times_raw = 13
as_u8 hex_values = 14
as_u8 others = 15
as_u8 placeholder_map = 16
as_u8 timestamps_raw = 17

abbrev all_types : List ColumnType
all_types =
    skeleton ∷ timestamps ∷ ipv4 ∷ ipv6 ∷ log_levels ∷ numbers ∷ uuids ∷ emails ∷ urls ∷ paths
    ∷ date_days ∷ dates_raw ∷ time_ms ∷ times_raw ∷ hex_values ∷ others ∷ placeholder_map
    ∷ timestamps_raw ∷ []

-- The arms `0`, `1`, … of the `match`, in their order.
unfoldable pub from_u8 : ℕ → Option ColumnType
from_u8 v = get_elem? all_types v

unfoldable pub name : ColumnType → String
name skeleton = "skeleton"
name timestamps = "timestamps"
name ipv4 = "ipv4"
name ipv6 = "ipv6"
name log_levels = "log_levels"
name numbers = "numbers"
name uuids = "uuids"
name emails = "emails"
name urls = "urls"
name paths = "paths"
name date_days = "date_days"
name dates_raw = "dates_raw"
name time_ms = "time_ms"
name times_raw = "times_raw"
name hex_values = "hex_values"
name others = "others"
name placeholder_map = "placeholder_map"
name timestamps_raw = "timestamps_raw"

pub from_u8-as_u8 : (t : ColumnType) → from_u8 (as_u8 t) ≡ some t
unfolding from_u8 as_u8
from_u8-as_u8 skeleton = refl
from_u8-as_u8 timestamps = refl
from_u8-as_u8 ipv4 = refl
from_u8-as_u8 ipv6 = refl
from_u8-as_u8 log_levels = refl
from_u8-as_u8 numbers = refl
from_u8-as_u8 uuids = refl
from_u8-as_u8 emails = refl
from_u8-as_u8 urls = refl
from_u8-as_u8 paths = refl
from_u8-as_u8 date_days = refl
from_u8-as_u8 dates_raw = refl
from_u8-as_u8 time_ms = refl
from_u8-as_u8 times_raw = refl
from_u8-as_u8 hex_values = refl
from_u8-as_u8 others = refl
from_u8-as_u8 placeholder_map = refl
from_u8-as_u8 timestamps_raw = refl

pub ColumnType-discrete : Discrete ColumnType
ColumnType-discrete = hlevel
