-- ===== src/Learner/Runs.antt =====
-- Runs of the pattern learner.
use alice_text.Prelude.{◌≡◌, refl, List, [], ◌∷◌, length}
use alice_text.Bytes.{Bytes}
use alice_text.Columnar.Payload.{PatternType, timestamp, number, path}
use alice_text.Columnar.Matches.{Group, uncovered}
use alice_text.Columnar.Runs.{line, group}
use alice_text.Learner.{pattern_types, listed_types, learn, priority}
use alice_text.Learner.Counts.{candidates, Counts, taken, occurrences, learn-Counts}
use alice_text.Learner.Examples.{ArePatterns, learn-ArePatterns}

-- The list in the source is in the order of the priorities already.
pattern_types-listed : pattern_types ≡ listed_types
unfolding pattern_types priority
pattern_types-listed = refl

-- Two numbers, one of them inside a timestamp, and a path.
abbrev line_finds : PatternType → Bytes → List Group
line_finds timestamp _ = group timestamp 0 2 ∷ []
line_finds number _ = group number 0 1 ∷ group number 8 10 ∷ []
line_finds path _ = group path 11 13 ∷ []
line_finds _ _ = []

learn-Counts_example :
    (let gs = taken (uncovered (length line)) (candidates line_finds line) in
      Counts (learn line_finds line) number (occurrences number gs) (length gs))
learn-Counts_example = learn-Counts line_finds line number

learn-ArePatterns_example : ArePatterns (learn line_finds line).patterns
learn-ArePatterns_example = learn-ArePatterns line_finds line
