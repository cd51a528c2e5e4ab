-- ===== src/Columnar/LogLevel.antt =====
-- `LogLevel`.
use alice_text.Prelude.{ℕ, if◌then◌else◌, [], ◌∷◌, ◌||◌, ◌≡◌, refl, same_list}
use alice_text.Prelude.{get_or}
use alice_text.Bytes.{Bytes}

pub data LogLevel : Type 0 where
  trace debug info warn error fatal critical unknown : LogLevel

-- The names, as bytes.
abbrev pub level_name : LogLevel → Bytes
level_name trace = b'T' ∷ b'R' ∷ b'A' ∷ b'C' ∷ b'E' ∷ []
level_name debug = b'D' ∷ b'E' ∷ b'B' ∷ b'U' ∷ b'G' ∷ []
level_name info = b'I' ∷ b'N' ∷ b'F' ∷ b'O' ∷ []
level_name warn = b'W' ∷ b'A' ∷ b'R' ∷ b'N' ∷ []
level_name error = b'E' ∷ b'R' ∷ b'R' ∷ b'O' ∷ b'R' ∷ []
level_name fatal = b'F' ∷ b'A' ∷ b'T' ∷ b'A' ∷ b'L' ∷ []
level_name critical = b'C' ∷ b'R' ∷ b'I' ∷ b'T' ∷ b'I' ∷ b'C' ∷ b'A' ∷ b'L' ∷ []
level_name unknown = b'U' ∷ b'N' ∷ b'K' ∷ b'N' ∷ b'O' ∷ b'W' ∷ b'N' ∷ []

abbrev warning : Bytes
warning = b'W' ∷ b'A' ∷ b'R' ∷ b'N' ∷ b'I' ∷ b'N' ∷ b'G' ∷ []

unfoldable pub to_str : LogLevel → Bytes
to_str level = level_name level

-- `match` on the upper-case text.
unfoldable pub level_of : Bytes → LogLevel
unfolding same_list
level_of s =
    if same_list s (level_name trace)
    then trace
    else if same_list s (level_name debug)
    then debug
    else if same_list s (level_name info)
    then info
    else if same_list s (level_name warn) || same_list s warning
    then warn
    else if same_list s (level_name error)
    then error
    else if same_list s (level_name fatal)
    then fatal
    else if same_list s (level_name critical)
    then critical
    else unknown

unfoldable pub parse_level : (Bytes → Bytes) → Bytes → LogLevel
unfolding level_of
parse_level to_uppercase s = level_of (to_uppercase s)

-- `level as u8`
unfoldable pub as_u8 : LogLevel → ℕ
as_u8 trace = 0
as_u8 debug = 1
as_u8 info = 2
as_u8 warn = 3
as_u8 error = 4
as_u8 fatal = 5
as_u8 critical = 6
as_u8 unknown = 7

-- The arms `0` to `6`; every other number is `Unknown`.
unfoldable pub from_u8 : ℕ → LogLevel
from_u8 v = get_or (trace ∷ debug ∷ info ∷ warn ∷ error ∷ fatal ∷ critical ∷ []) v unknown

pub from_u8-as_u8 : (l : LogLevel) → from_u8 (as_u8 l) ≡ l
unfolding from_u8 as_u8
from_u8-as_u8 trace = refl
from_u8-as_u8 debug = refl
from_u8-as_u8 info = refl
from_u8-as_u8 warn = refl
from_u8-as_u8 error = refl
from_u8-as_u8 fatal = refl
from_u8-as_u8 critical = refl
from_u8-as_u8 unknown = refl

-- Each name is read as its level, in any spelling that `to_uppercase` maps to it.
pub parse_level-to_str :
    (to_uppercase : Bytes → Bytes) (l : LogLevel) (s : Bytes)
    → to_uppercase s ≡ to_str l
    → parse_level to_uppercase s ≡ l
unfolding parse_level to_str
parse_level-to_str up trace s e = rw e
parse_level-to_str up debug s e = rw e
parse_level-to_str up info s e = rw e
parse_level-to_str up warn s e = rw e
parse_level-to_str up error s e = rw e
parse_level-to_str up fatal s e = rw e
parse_level-to_str up critical s e = rw e
parse_level-to_str up unknown s e = rw e
