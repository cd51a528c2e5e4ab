-- ===== src/Learner.antt =====
-- `src/pattern_learner.rs`: the priorities, the pattern database, and `learn`. Its pattern types are
-- those of the columnar encoder; what each regular expression finds is an argument.
pub mod Examples
pub mod Counts
pub mod Top
mod Runs
use alice_text.Prelude.{
  ℕ, ◌+◌, List, [], ◌∷◌, ◌++◌, Option, none, some, Bool, true, false, ◌||◌, ◌&&◌, ◌==◌, leb, ltb,
  not, if◌then◌else◌, length, same_list, map,
}
use Prim.Native.String.{String}
use alice_text.Bytes.{Bytes, slice}
use alice_text.Columnar.Payload.{
  PatternType, timestamp, date, time, ipv4, ipv6, uuid, log_level, path, url, number, hex, email,
  custom,
}
use alice_text.Columnar.Matches.{Group, uncovered, any_covered, cover}

-- The regular expressions.
unfoldable pub regex_pattern : PatternType → String
regex_pattern timestamp =
    "\\d{4}-\\d{2}-\\d{2}[T ]\\d{2}:\\d{2}:\\d{2}(?:\\.\\d+)?(?:Z|[+-]\\d{2}:?\\d{2})?"
regex_pattern date = "\\b\\d{4}-\\d{2}-\\d{2}\\b"
regex_pattern time = "\\b\\d{2}:\\d{2}:\\d{2}(?:\\.\\d+)?\\b"
regex_pattern ipv4 =
    "\\b(?:(?:25[0-5]|2[0-4][0-9]|[01]?[0-9][0-9]?)\\.){3}(?:25[0-5]|2[0-4][0-9]|[01]?[0-9][0-9]?)\\b"
regex_pattern ipv6 = "\\b(?:[0-9a-fA-F]{1,4}:){7}[0-9a-fA-F]{1,4}\\b"
regex_pattern uuid =
    "\\b[0-9a-fA-F]{8}-[0-9a-fA-F]{4}-[0-9a-fA-F]{4}-[0-9a-fA-F]{4}-[0-9a-fA-F]{12}\\b"
regex_pattern log_level = "\\b(?:DEBUG|INFO|WARN(?:ING)?|ERROR|FATAL|TRACE|CRITICAL)\\b"
regex_pattern path = "(?:/[a-zA-Z0-9._-]+)+/?"
regex_pattern url = "https?://[^\\s<>\"']+"
regex_pattern number = "\\b\\d+(?:\\.\\d+)?\\b"
regex_pattern hex = "\\b0x[0-9a-fA-F]+\\b"
regex_pattern email = "\\b[a-zA-Z0-9._%+-]+@[a-zA-Z0-9.-]+\\.[a-zA-Z]{2,}\\b"
regex_pattern custom = ".*"

unfoldable pub priority : PatternType → ℕ
priority timestamp = 100
priority uuid = 95
priority email = 90
priority url = 85
priority ipv6 = 80
priority ipv4 = 75
priority date = 70
priority time = 65
priority path = 60
priority hex = 55
priority log_level = 50
priority number = 40
priority custom = 10

-- `sort_by_key(|b| Reverse(b.priority()))`, which is stable.
unfoldable pub insert_type : PatternType → List PatternType → List PatternType
insert_type t [] = t ∷ []
insert_type t (u ∷ us) = if leb (priority u) (priority t) then t ∷ u ∷ us else u ∷ insert_type t us

unfoldable pub sort_types : List PatternType → List PatternType
unfolding insert_type
sort_types [] = []
sort_types (t ∷ ts) = insert_type t (sort_types ts)

-- The types that `new` lists, and their order in the learner.
abbrev pub listed_types : List PatternType
listed_types =
    timestamp ∷ uuid ∷ email ∷ url ∷ ipv6 ∷ ipv4 ∷ date ∷ time ∷ path ∷ hex ∷ log_level ∷ number
    ∷ []

unfoldable pub pattern_types : List PatternType
unfolding sort_types
pattern_types = sort_types listed_types

-- The derived equality of the enumeration, by its discriminants.
unfoldable pub discriminant : PatternType → ℕ
discriminant timestamp = 0
discriminant date = 1
discriminant time = 2
discriminant ipv4 = 3
discriminant ipv6 = 4
discriminant uuid = 5
discriminant log_level = 6
discriminant path = 7
discriminant url = 8
discriminant number = 9
discriminant hex = 10
discriminant email = 11
discriminant custom = 12

unfoldable pub same_type : PatternType → PatternType → Bool
same_type t u = discriminant t == discriminant u

pub record LearnedPattern : Type 0 where
  pub pattern_type : PatternType
  pub pattern : String
  pub count : ℕ
  pub examples : List Bytes

unfoldable pub new_pattern : PatternType → LearnedPattern
new_pattern t = record { pattern_type = t; pattern = regex_pattern t; count = 0; examples = [] }

unfoldable pub contains : List Bytes → Bytes → Bool
contains [] s = false
contains (e ∷ es) s = same_list e s || contains es s

-- At most five examples, each once.
unfoldable pub add_example : Bytes → LearnedPattern → LearnedPattern
add_example example p = record p {
  count = p.count + 1;
  examples =
      if ltb (length p.examples) 5 && not (contains p.examples example)
      then p.examples ++ example ∷ []
      else p.examples;
}

-- The map from types to patterns is a list of patterns with different types.
pub record PatternDatabase : Type 0 where
  pub patterns : List (PatternType × LearnedPattern)
  pub custom_patterns : List LearnedPattern
  pub total_matches : ℕ

abbrev pub empty_database : PatternDatabase
empty_database = record { patterns = []; custom_patterns = []; total_matches = 0 }

-- `patterns.get(&t)`
unfoldable pub lookup : PatternType → List (PatternType × LearnedPattern) → Option LearnedPattern
lookup t [] = none
lookup t ((u, p) ∷ rest) = if same_type u t then some p else lookup t rest

-- `entry(t).or_insert_with(..).add_example(s)`
unfoldable pub add_entry :
    PatternType → Bytes → List (PatternType × LearnedPattern) → List (PatternType × LearnedPattern)
add_entry t s [] = (t, add_example s (new_pattern t)) ∷ []
add_entry t s ((u, p) ∷ rest) =
    if same_type u t then (u, add_example s p) ∷ rest else (u, p) ∷ add_entry t s rest

unfoldable pub add_match : PatternType → Bytes → PatternDatabase → PatternDatabase
add_match t s db = record db {
  patterns = add_entry t s db.patterns;
  total_matches = db.total_matches + 1;
}

-- The two loops over what the expressions find: a match that meets a covered byte is passed over.
unfoldable pub learn_groups : Bytes → List Bool → List Group → PatternDatabase → PatternDatabase
learn_groups whole covered [] db = db
learn_groups whole covered (g ∷ gs) db = elim (any_covered g.start g.end covered) [
  | true ↦ learn_groups whole covered gs db
  | false ↦
      learn_groups whole (cover g.start g.end covered) gs
        (add_match g.pattern_type (slice g.start g.end whole) db)
]

-- All that the expressions find, type after type.
unfoldable pub found_groups :
    (PatternType → Bytes → List Group) → Bytes → List PatternType → List Group
found_groups find_iter whole [] = []
found_groups find_iter whole (t ∷ ts) = find_iter t whole ++ found_groups find_iter whole ts

unfoldable pub learn : (PatternType → Bytes → List Group) → Bytes → PatternDatabase
unfolding learn_groups found_groups
learn find_iter whole =
    learn_groups whole (uncovered (length whole)) (found_groups find_iter whole pattern_types)
      empty_database
