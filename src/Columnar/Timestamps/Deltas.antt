-- ===== src/Columnar/Timestamps/Deltas.antt =====
-- The differences of a timestamp column: their sums are the parsed timestamps, in order.
use alice_text.Prelude.{◌≡◌, refl, sym, ap, ◌∙◌, List, [], ◌∷◌, ◌++◌, Option, none, some}
use alice_text.Prelude.Int.{ℤ, ◌+ℤ◌, ◌-ℤ◌, +ℤ_sub_cancel, +ℤ_zero}
use mathlib.Core.List.{append-nil}
use alice_text.Bytes.{Bytes}
use alice_text.Columnar.Foreign.{Foreign}
use alice_text.Columnar.Timestamps.{
  TimestampColumn, parse_timestamp, push_delta, push_parsed, add, prefix_sums, prepare_for_read,
}

-- The last of the sums.
unfoldable pub total : ℤ → List ℤ → ℤ
total sum [] = sum
total sum (d ∷ ds) = total (sum +ℤ d) ds

prefix_sums-append :
    (sum : ℤ) (ds : List ℤ) (d : ℤ)
    → prefix_sums sum (ds ++ d ∷ []) ≡ prefix_sums sum ds ++ (total sum ds +ℤ d) ∷ []
unfolding prefix_sums total
prefix_sums-append sum [] d = refl
prefix_sums-append sum (x ∷ ds) d = ap (λ r. (sum +ℤ x) ∷ r) (prefix_sums-append (sum +ℤ x) ds d)

total-append : (sum : ℤ) (ds : List ℤ) (d : ℤ) → total sum (ds ++ d ∷ []) ≡ total sum ds +ℤ d
unfolding total
total-append sum [] d = refl
total-append sum (x ∷ ds) d = total-append (sum +ℤ x) ds d

-- A column without a base has no differences; with a base, the last timestamp is their sum.
abbrev pub Fits : Option ℤ → List ℤ → ℤ → Type 0
Fits none deltas last_ms = deltas ≡ []
Fits (some b) deltas last_ms = total b deltas ≡ last_ms

abbrev pub IsColumn : TimestampColumn → Type 0
IsColumn c = Fits c.base_ms c.deltas c.last_ms

module _ (foreign : Foreign) where
  -- A parsed timestamp, by whether there is a base.
  push_delta_lem :
      (t : ℤ) (s : Bytes) (c : TimestampColumn) (o : Option ℤ)
      → c.base_ms ≡ o
      → Fits o c.deltas c.last_ms
      → (prepare_for_read (push_delta foreign t s c o) ≡ prepare_for_read c ++ t ∷ [])
        × IsColumn (push_delta foreign t s c o)
  unfolding push_delta prepare_for_read total
  push_delta_lem t s c none e h = (rw (h) (ap (λ x. x ∷ []) (+ℤ_zero t)), rw (h) (+ℤ_zero t))
  push_delta_lem t s c (some b) e h = (
    rw e (
        prefix_sums-append b c.deltas (t -ℤ c.last_ms)
        ∙ ap (λ x. prefix_sums b c.deltas ++ x ∷ []) (rw h (+ℤ_sub_cancel c.last_ms t))),
    rw e (total-append b c.deltas (t -ℤ c.last_ms) ∙ rw h (+ℤ_sub_cancel c.last_ms t)),
  )

  -- The row that a text adds to what is read back.
  abbrev pub row : Option ℤ → List ℤ
  row none = []
  row (some t) = t ∷ []

  abbrev pub raw_row : Option ℤ → Bytes → List Bytes
  raw_row none s = s ∷ []
  raw_row (some t) s = []

  push_delta-raw :
      (t : ℤ) (s : Bytes) (c : TimestampColumn) (o : Option ℤ)
      → (push_delta foreign t s c o).raw ≡ c.raw ++ []
  unfolding push_delta
  push_delta-raw t s c none = sym (append-nil c.raw)
  push_delta-raw t s c (some b) = sym (append-nil c.raw)

  push_parsed_lem :
      (o : Option ℤ) (s : Bytes) (c : TimestampColumn)
      → IsColumn c
      → (prepare_for_read (push_parsed foreign s o c).1 ≡ prepare_for_read c ++ row o)
        × ((push_parsed foreign s o c).1.raw ≡ c.raw ++ raw_row o s)
        × IsColumn (push_parsed foreign s o c).1
  unfolding push_parsed
  push_parsed_lem none s c h = (unfold prepare_for_read in sym (append-nil _), refl, h)
  push_parsed_lem (some t) s c h =
      let (sums, column) = push_delta_lem t s c c.base_ms refl h in
      (sums, push_delta-raw t s c c.base_ms, column)

  -- Adding a text to a column whose last timestamp is the sum of its differences: a timestamp that
  -- parses is one more row of what is read back, at its own milliseconds, and leaves the raw texts
  -- alone; any other text is one more raw text. The rows that stood in the column before keep their
  -- values, and the last timestamp is the sum of the differences again.
  pub add_lem :
      (c : TimestampColumn) (s : Bytes)
      → IsColumn c
      → (prepare_for_read (add foreign c s).1
          ≡ prepare_for_read c ++ row (parse_timestamp foreign c s).0)
        × ((add foreign c s).1.raw ≡ c.raw ++ raw_row (parse_timestamp foreign c s).0 s)
        × IsColumn (add foreign c s).1
  unfolding add parse_timestamp prepare_for_read
  add_lem c s h =
      push_parsed_lem (parse_timestamp foreign c s).0 s (parse_timestamp foreign c s).1 h
