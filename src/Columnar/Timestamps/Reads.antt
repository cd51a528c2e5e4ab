-- ===== src/Columnar/Timestamps/Reads.antt =====
-- Reading timestamps after a column has grown.
use alice_text.Prelude.{
  ℕ, zero, suc, ◌≤◌, ◌≡◌, refl, ap, ◌⊎◌, inl, inr, List, [], ◌∷◌, ◌++◌, Option, none, some, true,
  false, length, length-append, get_elem?, arith, Option-cases,
}
use alice_text.Prelude.Int.{◌+ℤ◌, ◌-ℤ◌, ℤ, pos}
use alice_text.Bytes.{Bytes}
use alice_text.Columnar.Foreign.{Foreign}
use alice_text.Columnar.Timestamps.{
  TimestampColumn, parse_timestamp, push_delta, push_parsed, add, prepare_for_read, get_delta,
  reading, format_moment, prefix_sums,
}
use alice_text.Columnar.Timestamps.Deltas.{IsColumn, add_lem}

-- A column with a base string has base milliseconds.
abbrev pub HasBase : TimestampColumn → Type 0
HasBase c = (c.base ≡ none) ⊎ ((b : ℤ) × (c.base_ms ≡ some b))

KeptMs : Option ℤ → Option ℤ → Type 0
KeptMs a b = (a ≡ none) ⊎ (a ≡ b)

get_elem?-append_kept :
    (xs ys : List ℤ) (idx : ℕ)
    → (get_elem? xs idx ≡ none) ⊎ (get_elem? xs idx ≡ get_elem? (xs ++ ys) idx)
get_elem?-append_kept [] ys idx = inl refl
get_elem?-append_kept (x ∷ xs) ys zero = inr refl
get_elem?-append_kept (x ∷ xs) ys (suc idx) = get_elem?-append_kept xs ys idx

module _ (foreign : Foreign) where
  -- The offset that a text leaves is the one before, or there was no timestamp before.
  abbrev pub IsSteady : TimestampColumn → Bytes → Type 0
  IsSteady c s = (c.base ≡ none) ⊎ ((add foreign c s).1.base_offset_secs ≡ c.base_offset_secs)

  pub reading-none :
      (base : Option Bytes) (offset : Option ℤ) → reading foreign base offset none ≡ none
  unfolding reading format_moment
  reading-none none offset = refl
  reading-none (some b) offset = refl

  push_delta-base :
      (t b : ℤ) (s : Bytes) (c : TimestampColumn)
      → c.base_ms ≡ some b
      → (push_delta foreign t s c c.base_ms).base ≡ c.base
  unfolding push_delta
  push_delta-base t b s c e = rw e

  push_parsed-base :
      (o : Option ℤ) (b : ℤ) (s : Bytes) (c : TimestampColumn)
      → c.base_ms ≡ some b
      → (push_parsed foreign s o c).1.base ≡ c.base
  unfolding push_parsed
  push_parsed-base none b s c e = refl
  push_parsed-base (some t) b s c e = push_delta-base t b s c e

  add-base :
      (b : ℤ) (s : Bytes) (c : TimestampColumn)
      → c.base_ms ≡ some b
      → (add foreign c s).1.base ≡ c.base
  unfolding add parse_timestamp
  add-base b s c e = push_parsed-base _ b s (parse_timestamp foreign c s).1 e

  get_delta-kept :
      (c d : TimestampColumn) (idx : ℕ) (sums more : List ℤ)
      → d.base ≡ c.base
      → d.base_offset_secs ≡ c.base_offset_secs
      → (get_delta foreign c idx sums ≡ none)
        ⊎ (get_delta foreign c idx sums ≡ get_delta foreign d idx (sums ++ more))
  unfolding get_delta
  get_delta-kept c d idx sums more e f = elim (get_elem?-append_kept sums more idx) [
    | inl absent ↦ inl (rw absent (reading-none c.base c.base_offset_secs))
    | inr kept ↦ inr (rw (kept, e, f) refl)
  ]

  get_delta_no_base :
      (c : TimestampColumn) (idx : ℕ) (sums : List ℤ)
      → c.base ≡ none
      → get_delta foreign c idx sums ≡ none
  unfolding get_delta reading
  get_delta_no_base c idx sums e = rw e

  -- Let a column have base milliseconds where it has a base string, and let the last timestamp be
  -- the sum of its differences. Then adding a text that leaves the offset of the column as it was
  -- keeps every timestamp that could be read.
  pub get_delta-add :
      (c : TimestampColumn) (s : Bytes) (idx : ℕ)
      → IsColumn c
      → HasBase c
      → IsSteady c s
      → (get_delta foreign c idx (prepare_for_read c) ≡ none)
        ⊎ (get_delta foreign c idx (prepare_for_read c)
            ≡ get_delta foreign (add foreign c s).1 idx (prepare_for_read (add foreign c s).1))
  get_delta-add c s idx h (inl e) steady = inl (get_delta_no_base c idx _ e)
  get_delta-add c s idx h (inr (b, e)) (inl e') = inl (get_delta_no_base c idx _ e')
  get_delta-add c s idx h (inr (b, e)) (inr f) =
      rw ((add_lem foreign c s h).0)
        (get_delta-kept c (add foreign c s).1 idx (prepare_for_read c) _ (add-base b s c e) f)

  push_parsed-length :
      (o : Option ℤ) (s : Bytes) (c : TimestampColumn)
      → (length (push_parsed foreign s o c).1.deltas ≤ suc (length c.deltas))
        × (length (push_parsed foreign s o c).1.raw ≤ suc (length c.raw))
  unfolding push_parsed push_delta
  push_parsed-length none s c = omega (arith, length-append c.raw (s ∷ []))
  push_parsed-length (some t) s c = elim (Option-cases c.base_ms) [
    | inl e ↦ rw e (omega (arith, length-append c.deltas (pos 0 ∷ [])))
    | inr (b, e) ↦ rw e (omega (arith, length-append c.deltas ((t -ℤ c.last_ms) ∷ [])))
  ]

  pub add-length :
      (c : TimestampColumn) (s : Bytes)
      → (length (add foreign c s).1.deltas ≤ suc (length c.deltas))
        × (length (add foreign c s).1.raw ≤ suc (length c.raw))
  unfolding add parse_timestamp
  add-length c s = push_parsed-length _ s (parse_timestamp foreign c s).1

  push_parsed-HasBase :
      (o : Option ℤ) (s : Bytes) (c : TimestampColumn)
      → HasBase c
      → HasBase (push_parsed foreign s o c).1
  unfolding push_parsed push_delta
  push_parsed-HasBase none s c h = h
  push_parsed-HasBase (some t) s c h = elim (Option-cases c.base_ms) [
    | inl e ↦ rw e (inr (t, refl))
    | inr (b, e) ↦ rw e (inr (b, refl))
  ]

  pub add-HasBase : (c : TimestampColumn) (s : Bytes) → HasBase c → HasBase (add foreign c s).1
  unfolding add parse_timestamp
  add-HasBase c s h = push_parsed-HasBase _ s (parse_timestamp foreign c s).1 h

  pub length-prefix_sums : (b : ℤ) (ds : List ℤ) → length (prefix_sums b ds) ≡ length ds
  unfolding prefix_sums
  length-prefix_sums b [] = refl
  length-prefix_sums b (d ∷ ds) = ap suc (length-prefix_sums (b +ℤ d) ds)

  pub length-prepare_for_read :
      (c : TimestampColumn) → length (prepare_for_read c) ≡ length c.deltas
  unfolding prepare_for_read
  length-prepare_for_read c = length-prefix_sums _ c.deltas

  -- The text that a timestamp is read back as, once it is in the column.
  unfoldable pub shown_as : TimestampColumn → Bytes → Option ℤ → Option Bytes
  shown_as col s none = some s
  shown_as col s (some t) = reading foreign col.base col.base_offset_secs (some t)

  -- Where the text went: with its index, and what a read there gives.
  pub add_row :
      (c : TimestampColumn) (s : Bytes)
      → IsColumn c
      → (((parse_timestamp foreign c s).0 ≡ none) × ((add foreign c s).0 ≡ (false, length c.raw)))
        ⊎ ((t : ℤ) × ((parse_timestamp foreign c s).0 ≡ some t)
            × ((add foreign c s).0 ≡ (true, length c.deltas)))
  unfolding add parse_timestamp push_parsed
  add_row c s h = elim (Option-cases (parse_timestamp foreign c s).0) [
    | inl e ↦ inl (e, rw e)
    | inr (t, e) ↦ inr (t, e, rw e)
  ]
