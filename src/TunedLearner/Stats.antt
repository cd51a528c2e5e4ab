-- ===== src/TunedLearner/Stats.antt =====
-- What `get_stats` counts.
use alice_text.Prelude.{ℕ, ◌+◌, ◌≡◌, List, [], ◌∷◌, arith, if◌then◌else◌}
use alice_text.Columnar.Payload.{PatternType}
use alice_text.Columnar.Matches.{TunedMatch}
use alice_text.Learner.{same_type}
use alice_text.Learner.Counts.{one_if}
use alice_text.TunedLearner.{count_type, count_matches, get_stats}

-- The count of a type; a type that is not in the map has none.
abbrev pub count_in : PatternType → List (PatternType × ℕ) → ℕ
count_in u [] = 0
count_in u ((t, n) ∷ rest) = if same_type t u then n else count_in u rest

-- How many of the matches have the type.
pub number_of : PatternType → List TunedMatch → ℕ
number_of u [] = 0
number_of u (m ∷ ms) = one_if (same_type m.pattern_type u) + number_of u ms

count_in-count_type :
    (u t : PatternType) (stats : List (PatternType × ℕ))
    → count_in u (count_type t stats) ≡ one_if (same_type t u) + count_in u stats
unfolding count_type same_type
count_in-count_type u t [] = ground arith
count_in-count_type u t ((v, n) ∷ rest) = ground (arith, count_in-count_type u t rest)

count_in-count_matches :
    (u : PatternType) (ms : List TunedMatch) (stats : List (PatternType × ℕ))
    → count_in u (count_matches ms stats) ≡ number_of u ms + count_in u stats
unfolding count_matches number_of
count_in-count_matches u [] stats = omega arith
count_in-count_matches u (m ∷ ms) stats = omega (
  arith,
  count_in-count_matches u ms (count_type m.pattern_type stats),
  count_in-count_type u m.pattern_type stats,
)

-- The statistics of some matches have for every type the number of the matches of that type.
pub count_in-get_stats :
    (u : PatternType) (matches : List TunedMatch)
    → count_in u (get_stats matches) ≡ number_of u matches
unfolding get_stats
count_in-get_stats u matches = omega (arith, count_in-count_matches u matches [])
