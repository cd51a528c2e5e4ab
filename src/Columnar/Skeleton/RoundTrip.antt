-- ===== src/Columnar/Skeleton/RoundTrip.antt =====
-- A skeleton is restored to its text: scanning plain text adds it to the current text, scanning a
-- placeholder adds one reference.
use alice_text.Prelude.{
  ℕ, suc, ◌+◌, ◌^◌, ◌<◌, ◌≡◌, refl, sym, ap, ◌∙◌, List, [], ◌∷◌, ◌++◌, true, false, ◌==◌, Option,
  some, arith, drop, length, ◌≤◌,
}
use mathlib.Core.Path.{ap₂}
use alice_text.Prelude.{slice-append-drop, ◌≤◌}
use mathlib.Core.List.{foldl, foldl-append, append-nil, append_assoc}
use alice_text.Bytes.{Bytes, slice}
use alice_text.Decimal.{to_decimal, parse_u32, is_ascii_digit}
use alice_text.Decimal.Laws.{AreDigits, to_decimal-AreDigits, parse_u32-to_decimal}
use alice_text.Columnar.Skeleton.{
  SkeletonToken, text, ref, Mode, outside, inside, Scan, flush, end_digits, scan_inside, scan_char,
  close_mode, finished, parse_skeleton, Span, placeholder, skeleton_from, skeleton_of,
  restore_tokens, value_or_nothing,
}

-- A text without an opening brace.
abbrev pub IsPlain : Bytes → Type 0
IsPlain [] = Unit
IsPlain (c ∷ cs) = ((c == b'{') ≡ false) × IsPlain cs

abbrev pub at : List SkeletonToken → Bytes → Mode → Scan
at tokens current m = record { tokens = tokens; current_text = current; mode = m }

pub scan_plain :
    (ts : List SkeletonToken) (cur t : Bytes)
    → IsPlain t
    → foldl scan_char (at ts cur outside) t ≡ at ts (cur ++ t) outside
unfolding scan_char
scan_plain ts cur [] h = ap (λ c. at ts c outside) (sym (append-nil cur))
scan_plain ts cur (c ∷ t) h =
    rw (h.0) (
      scan_plain ts (cur ++ c ∷ []) t h.1 ∙ ap (λ c. at ts c outside) (append_assoc cur (c ∷ []) t))

scan_inside_digit :
    (ts : List SkeletonToken) (cur num : Bytes) (c : ℕ)
    → is_ascii_digit c ≡ true
    → scan_inside (at ts cur (inside num)) num c ≡ at ts cur (inside (num ++ c ∷ []))
unfolding scan_inside
scan_inside_digit ts cur num c h = ground arith

scan_digits :
    (ts : List SkeletonToken) (cur num ds rest : Bytes)
    → AreDigits ds
    → foldl scan_char (at ts cur (inside num)) (ds ++ rest)
      ≡ foldl scan_char (at ts cur (inside (num ++ ds))) rest
unfolding scan_char
scan_digits ts cur num [] rest h =
    ap (λ d. foldl scan_char (at ts cur (inside d)) rest) (sym (append-nil num))
scan_digits ts cur num (c ∷ ds) rest h =
    ap (λ s. foldl scan_char s (ds ++ rest)) (scan_inside_digit ts cur num c h.0)
    ∙ scan_digits ts cur (num ++ c ∷ []) ds rest h.1
    ∙ ap (λ d. foldl scan_char (at ts cur (inside d)) rest) (append_assoc num (c ∷ []) ds)

end_digits_found :
    (ts : List SkeletonToken) (cur num : Bytes) (i : ℕ)
    → parse_u32 num ≡ some i
    → end_digits (at ts cur (inside num)) num ≡ at (flush ts cur ++ ref i ∷ []) [] outside
unfolding end_digits
end_digits_found ts cur num i e = rw (e, end_digits)

scan_placeholder :
    (ts : List SkeletonToken) (cur : Bytes) (i : ℕ)
    → i < 2 ^ 32
    → foldl scan_char (at ts cur outside) (placeholder i)
      ≡ at (flush ts cur ++ ref i ∷ []) [] outside
unfolding scan_char placeholder
scan_placeholder ts cur i h =
    scan_digits ts cur [] (to_decimal i) (b'}' ∷ []) (to_decimal-AreDigits i)
    ∙ end_digits_found ts cur (to_decimal i) i (parse_u32-to_decimal i h)

-- Plain text and a placeholder behind it.
scan_segment :
    (ts : List SkeletonToken) (cur t : Bytes) (i : ℕ) (more : Bytes)
    → IsPlain t
    → i < 2 ^ 32
    → foldl scan_char (at ts cur outside) (t ++ (placeholder i ++ more))
      ≡ foldl scan_char (at (flush ts (cur ++ t) ++ ref i ∷ []) [] outside) more
scan_segment ts cur t i more h fits =
    foldl-append scan_char (at ts cur outside) t (placeholder i ++ more)
    ∙ ap (λ s. foldl scan_char s (placeholder i ++ more)) (scan_plain ts cur t h)
    ∙ foldl-append scan_char (at ts (cur ++ t) outside) (placeholder i) more
    ∙ ap (λ s. foldl scan_char s more) (scan_placeholder ts (cur ++ t) i fits)

regroup :
    (front cur gap match tail from_match from_gap : Bytes)
    → match ++ tail ≡ from_match
    → gap ++ from_match ≡ from_gap
    → (front ++ ((cur ++ gap) ++ match)) ++ tail ≡ front ++ (cur ++ from_gap)
regroup front cur gap match tail from_match from_gap e f = rw (← f, ← e) (simp append_assoc)

-- The matches stand in order inside the text, and the text around them is plain.
abbrev pub Splits : Bytes → ℕ → List Span → Type 0
Splits whole last_end [] = IsPlain (drop last_end whole)
Splits whole last_end (m ∷ ms) =
    IsPlain (slice last_end m.start whole)
    × (last_end ≤ m.start)
    × (m.start ≤ m.end)
    × Splits whole m.end ms

-- The references have the matched texts as their values, from the index `i` on.
abbrev pub Values : (ℕ → Option Bytes) → Bytes → ℕ → List Span → Type 0
Values value whole i [] = Unit
Values value whole i (m ∷ ms) =
    (value i ≡ some (slice m.start m.end whole)) × Values value whole (suc i) ms

module _ (value : ℕ → Option Bytes) where
  restore_tokens-append :
      (s t : List SkeletonToken)
      → restore_tokens value (s ++ t) ≡ restore_tokens value s ++ restore_tokens value t
  unfolding restore_tokens
  restore_tokens-append [] t = refl
  restore_tokens-append (text c ∷ s) t =
      ap (λ r. c ++ r) (restore_tokens-append s t) ∙ sym (append_assoc c _ _)
  restore_tokens-append (ref i ∷ s) t =
      ap (λ r. value_or_nothing (value i) ++ r) (restore_tokens-append s t)
      ∙ sym (append_assoc (value_or_nothing (value i)) _ _)

  pub restore_tokens-flush :
      (ts : List SkeletonToken) (cur : Bytes)
      → restore_tokens value (flush ts cur) ≡ restore_tokens value ts ++ cur
  unfolding flush
  restore_tokens-flush ts [] = sym (append-nil _)
  restore_tokens-flush ts (c ∷ cs) =
      restore_tokens-append ts (text (c ∷ cs) ∷ [])
      ∙ ap (λ r. restore_tokens value ts ++ r) (unfold restore_tokens in append-nil (c ∷ cs))

  -- The text that a scan stands for when it ends.
  abbrev restored : Scan → Bytes
  restored s = restore_tokens value (finished (close_mode s.mode s))

  reference-value : (i : ℕ) (v : Bytes) → value i ≡ some v → restore_tokens value (ref i ∷ []) ≡ v
  unfolding restore_tokens
  reference-value i v e = rw e (append-nil v)

  restore_tokens-segment :
      (ts : List SkeletonToken) (cur : Bytes) (i : ℕ) (v : Bytes)
      → value i ≡ some v
      → restore_tokens value (flush ts cur ++ ref i ∷ []) ≡ restore_tokens value ts ++ (cur ++ v)
  restore_tokens-segment ts cur i v e =
      restore_tokens-append (flush ts cur) (ref i ∷ [])
      ∙ ap₂ ◌++◌ (restore_tokens-flush ts cur) (reference-value i v e)
      ∙ append_assoc (restore_tokens value ts) cur v

  module _ (whole : Bytes) where
    restored-skeleton_from :
        (ms : List Span) (i last_end : ℕ) (ts : List SkeletonToken) (cur : Bytes)
        → Splits whole last_end ms
        → Values value whole i ms
        → i + length ms ≤ 2 ^ 32
        → restored (foldl scan_char (at ts cur outside) (skeleton_from whole i last_end ms))
          ≡ restore_tokens value ts ++ (cur ++ drop last_end whole)
    unfolding skeleton_from close_mode
    restored-skeleton_from [] i last_end ts cur sp va fits =
        ap restored (scan_plain ts cur (drop last_end whole) sp)
        ∙ restore_tokens-flush ts (cur ++ drop last_end whole)
    restored-skeleton_from (m ∷ ms) i last_end ts cur sp va fits =
        ap restored (
          scan_segment ts cur (slice last_end m.start whole) i
            (skeleton_from whole (suc i) m.end ms) sp.0 (omega arith))
        ∙ restored-skeleton_from ms (suc i) m.end
            (flush ts (cur ++ slice last_end m.start whole) ++ ref i ∷ []) [] sp.3 va.1
            (omega arith)
        ∙ ap (λ r. r ++ drop m.end whole)
            (restore_tokens-segment ts (cur ++ slice last_end m.start whole) i _ va.0)
        ∙ regroup (restore_tokens value ts) cur (slice last_end m.start whole)
            (slice m.start m.end whole) (drop m.end whole) (drop m.start whole)
            (drop last_end whole) (slice-append-drop m.start m.end whole sp.2)
            (slice-append-drop last_end m.start whole sp.1)

-- Let the matches stand in order in a text, with no opening brace outside them, and let the
-- reference to each have the matched text as its value. Then parsing the skeleton and restoring its
-- tokens gives the text back, for up to 2^32 matches.
pub restore_tokens-parse_skeleton :
    (value : ℕ → Option Bytes) (whole : Bytes) (ms : List Span)
    → Splits whole 0 ms
    → Values value whole 0 ms
    → length ms ≤ 2 ^ 32
    → restore_tokens value (parse_skeleton (skeleton_of whole ms)) ≡ whole
unfolding parse_skeleton skeleton_of
restore_tokens-parse_skeleton value whole ms sp va fits =
    restored-skeleton_from value whole ms 0 0 [] [] sp va (omega arith)
    ∙ unfold restore_tokens in refl
