-- ===== src/Columnar/Matches.antt =====
-- `TunedPatternLearner::find_matches` and `extract_skeleton`. What the fused regular expression
-- captures is an argument: for each capture, the named groups that took part, in the order of the
-- group names.
pub mod Order
pub mod Sorted
use alice_text.Prelude.{
  ℕ, Option, none, some, zero, suc, List, [], ◌∷◌, Bool, true, false, ◌||◌, leb, if◌then◌else◌,
  length,
}
use mathlib.Core.List.{map}
use alice_text.Bytes.{Bytes, slice}
use alice_text.Columnar.Skeleton.{Span, skeleton_of}
use alice_text.Columnar.Payload.{PatternType}

pub record Group : Type 0 where
  pub pattern_type : PatternType
  pub start : ℕ
  pub end : ℕ

pub record TunedMatch : Type 0 where
  pub pattern_type : PatternType
  pub start : ℕ
  pub end : ℕ
  pub matched_text : Bytes

-- `vec![false; n]`
unfoldable pub uncovered : ℕ → List Bool
uncovered zero = []
uncovered (suc n) = false ∷ uncovered n

-- `covered[start..end].iter().any(|&c| c)`
unfoldable pub any_covered : ℕ → ℕ → List Bool → Bool
any_covered start end [] = false
any_covered start zero (c ∷ cs) = false
any_covered zero (suc end) (c ∷ cs) = c || any_covered zero end cs
any_covered (suc start) (suc end) (c ∷ cs) = any_covered start end cs

-- `for c in &mut covered[start..end] { *c = true }`
unfoldable pub cover : ℕ → ℕ → List Bool → List Bool
cover start end [] = []
cover start zero (c ∷ cs) = c ∷ cs
cover zero (suc end) (c ∷ cs) = true ∷ cover zero end cs
cover (suc start) (suc end) (c ∷ cs) = c ∷ cover start end cs

abbrev pub match_of : Bytes → Group → TunedMatch
match_of whole g = record {
  pattern_type = g.pattern_type;
  start = g.start;
  end = g.end;
  matched_text = slice g.start g.end whole;
}

-- The groups of a capture: the first that meets no covered byte is taken.
unfoldable pub free_group : List Bool → List Group → Option Group
free_group covered [] = none
free_group covered (g ∷ gs) =
    if any_covered g.start g.end covered then free_group covered gs else some g

-- The loop over the captures, with the groups that are taken.
unfoldable pub claim : List Bool → List (List Group) → List Group
claim covered [] = []
claim covered (caps ∷ rest) = elim (free_group covered caps) [
  | none ↦ claim covered rest
  | some g ↦ g ∷ claim (cover g.start g.end covered) rest
]

-- `sort_by_key(|m| m.start)`, which is stable.
unfoldable pub insert : TunedMatch → List TunedMatch → List TunedMatch
insert m [] = m ∷ []
insert m (n ∷ ns) = if leb m.start n.start then m ∷ n ∷ ns else n ∷ insert m ns

unfoldable pub sort : List TunedMatch → List TunedMatch
unfolding insert
sort [] = []
sort (m ∷ ms) = insert m (sort ms)

unfoldable pub find_matches : (Bytes → List (List Group)) → Bytes → List TunedMatch
unfolding claim sort
find_matches captures_iter whole =
    sort (map (match_of whole) (claim (uncovered (length whole)) (captures_iter whole)))

abbrev pub span : TunedMatch → Span
span m = record { start = m.start; end = m.end }

-- The skeleton of a text with its matches; without matches it is the text.
unfoldable pub skeleton_with : Bytes → List TunedMatch → Bytes
skeleton_with whole [] = whole
skeleton_with whole (m ∷ ms) = skeleton_of whole (map span (m ∷ ms))

unfoldable pub extract_skeleton : (Bytes → List (List Group)) → Bytes → Bytes × List TunedMatch
unfolding skeleton_with
extract_skeleton captures_iter whole =
    let matches = find_matches captures_iter whole in (skeleton_with whole matches, matches)
