-- ===== src/Entropy.antt =====
-- `src/entropy_estimator.rs`. Floating-point numbers and what the code computes with them are a
-- parameter; the counts are exact. A map is a list of pairs, and its values come in the list's order.
pub mod Counts
mod Runs
use alice_text.Prelude.{ℕ, ◌+◌, ◌-◌, List, [], ◌∷◌, Bool, if◌then◌else◌, length, ◌==◌, ltb}
use Prim.Native.Nat.{min, max}
use Prim.Native.String.{String}
use alice_text.Bytes.{Bytes}
use alice_text.Wire.Exception.Payload.{PatternMatch}

-- `f64`: `literal m k` is the decimal `m` with `k` digits after the point.
pub record Floats : Type 1 where
  pub Float : Type 0
  pub literal : ℕ → ℕ → Float
  pub of_usize : ℕ → Float
  pub add : Float → Float → Float
  pub sub : Float → Float → Float
  pub mul : Float → Float → Float
  pub div : Float → Float → Float
  pub neg : Float → Float
  pub mul_add : Float → Float → Float → Float
  pub log2 : Float → Float
  pub ceil_usize : Float → ℕ
  pub f64_max : Float → Float → Float
  pub clamp : Float → Float → Float → Float
  pub f64_lt : Float → Float → Bool

-- Magic, version and header.
abbrev pub header_overhead : ℕ
header_overhead = 42

-- `*freq.entry(byte).or_insert(0) += 1`
unfoldable pub count_byte : ℕ → List (ℕ × ℕ) → List (ℕ × ℕ)
count_byte b [] = (b, 1) ∷ []
count_byte b ((c, n) ∷ freq) =
    let counted = count_byte b freq in if c == b then (c, n + 1) ∷ freq else (c, n) ∷ counted

unfoldable pub count_bytes : Bytes → List (ℕ × ℕ) → List (ℕ × ℕ)
unfolding count_byte
count_bytes [] freq = freq
count_bytes (b ∷ bs) freq = count_bytes bs (count_byte b freq)

-- `values().max().unwrap_or(&0)`
unfoldable pub max_count : List (ℕ × ℕ) → ℕ
max_count [] = 0
max_count ((c, n) ∷ freq) = max n (max_count freq)

-- The sum of `m.end - m.start`; a match does not end before it starts.
unfoldable pub covered_chars : List PatternMatch → ℕ
covered_chars [] = 0
covered_chars (m ∷ ms) = m.end - m.start + covered_chars ms

module _ (floats : Floats) where
  open floats use {
    Float, literal, of_usize, add, sub, mul, div, neg, mul_add, log2, ceil_usize, f64_max, clamp,
    f64_lt,
  }

  pub record EntropyEstimate : Type 0 where
    pub shannon_entropy : Float
    pub estimated_ratio : Float
    pub estimated_size : ℕ
    pub original_size : ℕ
    pub space_savings : Float
    pub pattern_coverage : Float
    pub unique_bytes : ℕ
    pub repetition_score : Float

  unfoldable pub is_compressible : EntropyEstimate → Bool
  is_compressible e = f64_lt e.estimated_ratio (literal 9 1)

  unfoldable pub quality : EntropyEstimate → String
  quality e =
      if f64_lt e.estimated_ratio (literal 1 1)
      then "Excellent"
      else if f64_lt e.estimated_ratio (literal 3 1)
      then "Very Good"
      else if f64_lt e.estimated_ratio (literal 5 1)
      then "Good"
      else if f64_lt e.estimated_ratio (literal 7 1)
      then "Fair"
      else if f64_lt e.estimated_ratio (literal 9 1)
      then "Poor"
      else "Not Recommended"

  -- The loop over the counts.
  unfoldable pub entropy_from : Float → Float → List (ℕ × ℕ) → Float
  entropy_from inv_len entropy [] = entropy
  entropy_from inv_len entropy ((c, n) ∷ freq) =
      let p = mul (of_usize n) inv_len in
      entropy_from inv_len (if ltb 0 n then sub entropy (mul p (log2 p)) else entropy) freq

  unfoldable pub calculate_shannon_entropy : Bytes → Float
  unfolding entropy_from count_bytes
  calculate_shannon_entropy bytes =
      if length bytes == 0
      then literal 0 1
      else entropy_from (div (literal 10 1) (of_usize (length bytes))) (literal 0 1)
          (count_bytes bytes [])

  unfoldable pub calculate_pattern_coverage : List PatternMatch → Bytes → Float
  unfolding covered_chars
  calculate_pattern_coverage matches bytes =
      if length bytes == 0
      then literal 0 1
      else mul (of_usize (covered_chars matches)) (div (literal 10 1) (of_usize (length bytes)))

  unfoldable pub combined_score : ℕ → ℕ → ℕ → Float
  combined_score unique_bytes max_freq n =
      let inv_max_unique = div (literal 10 1) (of_usize (min 256 n)) in
      let repetition_score = mul_add (of_usize unique_bytes) (neg inv_max_unique) (literal 10 1) in
      let freq_factor = mul (of_usize max_freq) (div (literal 10 1) (of_usize n)) in
      mul (add repetition_score freq_factor) (literal 5 1)

  unfoldable pub calculate_repetition : Bytes → Float × ℕ
  unfolding combined_score count_bytes max_count
  calculate_repetition bytes =
      let freq = count_bytes bytes [] in
      if length bytes == 0
      then (literal 0 1, 0)
      else (combined_score (length freq) (max_count freq) (length bytes), length freq)

  unfoldable pub lzma_efficiency : ℕ → Float
  lzma_efficiency original_size =
      if ltb original_size 100
      then literal 15 1
      else if ltb original_size 1000
      then literal 9 1
      else literal 7 1

  unfoldable pub estimate_ratio : ℕ → Float → Float → Float → Float
  unfolding lzma_efficiency
  estimate_ratio original_size shannon_entropy pattern_coverage repetition_score =
      let entropy_ratio = mul shannon_entropy (div (literal 10 1) (literal 80 1)) in
      let pattern_factor = mul_add pattern_coverage (neg (literal 3 1)) (literal 10 1) in
      let repetition_factor = mul_add repetition_score (neg (literal 2 1)) (literal 10 1) in
      let estimated =
        mul (mul (mul entropy_ratio pattern_factor) repetition_factor)
          (lzma_efficiency original_size) in
      clamp estimated (literal 5 2) (literal 15 1)

  -- The estimate of a text that is not empty.
  unfoldable pub estimate_some : List PatternMatch → Bytes → EntropyEstimate
  unfolding calculate_shannon_entropy calculate_pattern_coverage calculate_repetition estimate_ratio
  estimate_some matches bytes =
      let original_size = length bytes in
      let shannon_entropy = calculate_shannon_entropy bytes in
      let pattern_coverage = calculate_pattern_coverage matches bytes in
      let repetition = calculate_repetition bytes in
      let ratio = estimate_ratio original_size shannon_entropy pattern_coverage repetition.0 in
      let estimated_size = ceil_usize (mul (of_usize original_size) ratio) + header_overhead in
      let actual_ratio =
        mul (of_usize estimated_size) (div (literal 10 1) (of_usize original_size)) in
      record {
        shannon_entropy = shannon_entropy;
        estimated_ratio = actual_ratio;
        estimated_size = estimated_size;
        original_size = original_size;
        space_savings = f64_max (sub (literal 10 1) actual_ratio) (literal 0 1);
        pattern_coverage = pattern_coverage;
        unique_bytes = repetition.1;
        repetition_score = repetition.0;
      }

  -- `find_matches` is that of the pattern learner.
  unfoldable pub estimate : (Bytes → List PatternMatch) → Bytes → EntropyEstimate
  unfolding estimate_some
  estimate find_matches bytes =
      if length bytes == 0
      then record {
        shannon_entropy = literal 0 1;
        estimated_ratio = literal 10 1;
        estimated_size = header_overhead;
        original_size = 0;
        space_savings = literal 0 1;
        pattern_coverage = literal 0 1;
        unique_bytes = 0;
        repetition_score = literal 0 1;
      }
      else estimate_some (find_matches bytes) bytes

  unfoldable pub is_compressible_text : (Bytes → List PatternMatch) → Bytes → Bool
  unfolding is_compressible estimate
  is_compressible_text find_matches bytes = is_compressible (estimate find_matches bytes)
