-- ===== src/TunedLearner.antt =====
-- The rest of `src/tuned_pattern_learner.rs`: the bytes of the pattern types, the table of patterns and
-- the fused expression, restoring by textual replacement, and the statistics. A map is a list of
-- pairs.
pub mod Stats
mod Runs
use alice_text.Prelude.{
  ℕ, ◌+◌, List, [], ◌∷◌, ◌++◌, Option, none, some, Bool, true, false, get_or, map, if◌then◌else◌,
  ◌≡◌, refl,
}
use Prim.Native.String.{String}
use alice_text.Bytes.{Bytes}
use alice_text.Decimal.{to_decimal}
use alice_text.Columnar.Payload.{
  PatternType, timestamp, date, time, ipv4, ipv6, uuid, log_level, path, url, number, hex, email,
  custom,
}
use alice_text.Columnar.Matches.{TunedMatch}
use alice_text.Learner.{discriminant, same_type}
use alice_text.Wire.Exception.Files.{replace_all}
use alice_text.Query.Text.{codes, join}

-- `self as u8`
unfoldable pub as_u8 : PatternType → ℕ
as_u8 t = discriminant t

-- The arms `0` to `11`; every other number is `Custom`.
unfoldable pub from_u8 : ℕ → PatternType
from_u8 v =
    get_or
      (timestamp ∷ date ∷ time ∷ ipv4 ∷ ipv6 ∷ uuid ∷ log_level ∷ path ∷ url ∷ number ∷ hex ∷ email
        ∷ [])
      v custom

pub record OwnedMatch : Type 0 where
  pub pattern_type : PatternType
  pub start : ℕ
  pub end : ℕ
  pub matched_text : Bytes

unfoldable pub owned : TunedMatch → OwnedMatch
owned m = record {
  pattern_type = m.pattern_type;
  start = m.start;
  end = m.end;
  matched_text = m.matched_text;
}

pub record PatternDef : Type 0 where
  pub name : Bytes
  pub pattern : Bytes
  pub pattern_type : PatternType

abbrev def : String → String → PatternType → PatternDef
def name pattern t = record { name = codes name; pattern = codes pattern; pattern_type = t }

-- `PATTERNS`
abbrev pub patterns : List PatternDef
patterns =
    def "TIMESTAMP"
      "\\d{4}-\\d{2}-\\d{2}[T ]\\d{2}:\\d{2}:\\d{2}(?:\\.\\d+)?(?:Z|[+-]\\d{2}:?\\d{2})?" timestamp
    ∷ def "UUID" "[0-9a-fA-F]{8}-[0-9a-fA-F]{4}-[0-9a-fA-F]{4}-[0-9a-fA-F]{4}-[0-9a-fA-F]{12}" uuid
    ∷ def "EMAIL" "[a-zA-Z0-9._%+-]+@[a-zA-Z0-9.-]+\\.[a-zA-Z]{2,}" email
    ∷ def "URL" "https?://[^\\s<>\"']+" url
    ∷ def "IPV6" "(?:[0-9a-fA-F]{1,4}:){7}[0-9a-fA-F]{1,4}" ipv6
    ∷ def "IPV4"
        "(?:(?:25[0-5]|2[0-4][0-9]|[01]?[0-9][0-9]?)\\.){3}(?:25[0-5]|2[0-4][0-9]|[01]?[0-9][0-9]?)"
        ipv4
    ∷ def "DATE" "\\d{4}-\\d{2}-\\d{2}" date
    ∷ def "TIME" "\\d{2}:\\d{2}:\\d{2}(?:\\.\\d+)?" time
    ∷ def "PATH" "(?:/[a-zA-Z0-9._-]+)+/?" path
    ∷ def "HEX" "0x[0-9a-fA-F]+" hex
    ∷ def "LOGLEVEL" "(?:DEBUG|INFO|WARN(?:ING)?|ERROR|FATAL|TRACE|CRITICAL)" log_level
    ∷ def "NUMBER" "\\d+(?:\\.\\d+)?" number
    ∷ []

-- `format!("(?P<{}>{})", p.name, p.pattern)`
unfoldable pub named_group : PatternDef → Bytes
named_group p = codes "(?P<" ++ (p.name ++ (codes ">" ++ (p.pattern ++ codes ")")))

-- The expression that `new` compiles, the names of its groups and their types.
unfoldable pub fused_expr : Bytes
unfolding named_group join
fused_expr = join (codes "|") (map named_group patterns)

unfoldable pub group_names : List Bytes
group_names = map (λ p. p.name) patterns

unfoldable pub group_map : List (Bytes × PatternType)
group_map = map (λ p. (p.name, p.pattern_type)) patterns

-- `format!("{{{i}}}")`
unfoldable pub placeholder : ℕ → Bytes
placeholder i = b'{' ∷ (to_decimal i ++ b'}' ∷ [])

-- The last match first.
unfoldable pub restore_from : ℕ → Bytes → List OwnedMatch → Bytes
unfolding placeholder replace_all
restore_from i skeleton [] = skeleton
restore_from i skeleton (m ∷ ms) =
    replace_all (placeholder i) m.matched_text (restore_from (i + 1) skeleton ms)

unfoldable pub restore_text : Bytes → List OwnedMatch → Bytes
unfolding restore_from
restore_text skeleton matches = restore_from 0 skeleton matches

-- `*stats.entry(t).or_insert(0) += 1`
unfoldable pub count_type : PatternType → List (PatternType × ℕ) → List (PatternType × ℕ)
unfolding same_type
count_type t [] = (t, 1) ∷ []
count_type t ((u, n) ∷ rest) =
    let counted = count_type t rest in if same_type u t then (u, n + 1) ∷ rest else (u, n) ∷ counted

unfoldable pub count_matches : List TunedMatch → List (PatternType × ℕ) → List (PatternType × ℕ)
unfolding count_type
count_matches [] stats = stats
count_matches (m ∷ ms) stats = count_matches ms (count_type m.pattern_type stats)

unfoldable pub get_stats : List TunedMatch → List (PatternType × ℕ)
unfolding count_matches
get_stats matches = count_matches matches []

pub from_u8-as_u8 : (t : PatternType) → from_u8 (as_u8 t) ≡ t
unfolding from_u8 as_u8 discriminant
from_u8-as_u8 timestamp = refl
from_u8-as_u8 date = refl
from_u8-as_u8 time = refl
from_u8-as_u8 ipv4 = refl
from_u8-as_u8 ipv6 = refl
from_u8-as_u8 uuid = refl
from_u8-as_u8 log_level = refl
from_u8-as_u8 path = refl
from_u8-as_u8 url = refl
from_u8-as_u8 number = refl
from_u8-as_u8 hex = refl
from_u8-as_u8 email = refl
from_u8-as_u8 custom = refl
