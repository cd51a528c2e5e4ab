-- ===== src/Query/Agree.antt =====
-- The two ways to show a value of a column agree: the string at an index of the whole column, and
-- the string of the value at that index.
use alice_text.Prelude.{
  ℕ, zero, suc, ◌+◌, ◌<◌, List, [], ◌∷◌, Option, none, some, get_elem?, ◌≡◌, length, map, arith,
  refl, ◌≤◌, ◌⊎◌, sym, inl, ◌∙◌, Option-cases, ap, inr,
}
use mathlib.Core.Option
use mathlib.Core.Option.{get_or}
use alice_text.Bytes.{Bytes}
use alice_text.Prelude.Int.{ℤ, pos}
use alice_text.Columnar.Foreign.{Foreign}
use alice_text.Columnar.LogLevel
use alice_text.Columnar.Uuid.{format_uuid}
use alice_text.Columnar.Text.{format_number}
use alice_text.Columnar.Timestamps
use alice_text.Columnar.Timestamps.{TimestampColumn, prefix_sums}
use alice_text.Columnar.Timestamps.Reads.{reading-none, length-prefix_sums}
use alice_text.Wire.Columns.Types.{
  ColumnType, skeleton, placeholder_map, timestamps, ipv4, ipv6, log_levels, numbers, uuids, emails,
  urls, paths, date_days, dates_raw, time_ms, times_raw, hex_values, others, timestamps_raw,
}
use alice_text.FormatV3.Reader.{
  PartialPayload, log_level_strings, ipv4_strings, timestamp_strings, delta_strings,
}
use alice_text.Query.Values.{partial_to_strings, get_value_at, elem_at, timestamp_at}

module _ {ℓ κ} {A : Type ℓ} {B : Type κ} where
  get_elem?-map :
      (f : A → B) (xs : List A) (i : ℕ) → Option.map f (get_elem? xs i) ≡ get_elem? (map f xs) i
  get_elem?-map f [] i = refl
  get_elem?-map f (x ∷ xs) zero = refl
  get_elem?-map f (x ∷ xs) (suc i) = get_elem?-map f xs i

module _ {ℓ} {A : Type ℓ} where
  get_elem?-none : (xs : List A) (i : ℕ) → length xs ≤ i → get_elem? xs i ≡ none
  get_elem?-none [] i l = refl
  get_elem?-none (x ∷ xs) zero l = absurd (omega arith)
  get_elem?-none (x ∷ xs) (suc i) l = get_elem?-none xs i (omega arith)

lt-or-ge : (i n : ℕ) → (i < n) ⊎ (n ≤ i)
lt-or-ge i n = ground arith

module _ (foreign : Foreign) where
  elem_at-map :
      {A : Type 0} (f : A → Bytes) (o : Option (List A)) (i : ℕ)
      → Option.map f (elem_at foreign o i) ≡ get_elem? (get_or (Option.map (map f) o) []) i
  unfolding elem_at
  elem_at-map f none i = refl
  elem_at-map f (some xs) i = get_elem?-map f xs i

  elem_at-get_or :
      (o : Option (List Bytes)) (i : ℕ) → elem_at foreign o i ≡ get_elem? (get_or o []) i
  unfolding elem_at
  elem_at-get_or none i = refl
  elem_at-get_or (some xs) i = refl

  -- Every difference of the column has a text.
  abbrev pub AllShown : Option TimestampColumn → Type 0
  AllShown none = Unit
  AllShown (some ts) =
      (i : ℕ)
      → i < length ts.deltas
      → (s : Bytes) × (Timestamps.get_delta foreign ts i (Timestamps.prepare_for_read ts) ≡ some s)

  delta_strings-some :
      (ts : TimestampColumn) (sums : List ℤ) (i n : ℕ) {s : Bytes}
      → Timestamps.get_delta foreign ts i sums ≡ some s
      → delta_strings foreign ts sums i (suc n) ≡ s ∷ delta_strings foreign ts sums (suc i) n
  unfolding delta_strings
  delta_strings-some ts sums i n e = rw (e, delta_strings) refl

  delta_strings-none :
      (ts : TimestampColumn) (sums : List ℤ) (i n : ℕ)
      → Timestamps.get_delta foreign ts i sums ≡ none
      → delta_strings foreign ts sums i (suc n) ≡ delta_strings foreign ts sums (suc i) n
  unfolding delta_strings
  delta_strings-none ts sums i n e = rw (e, delta_strings) refl

  -- Where each of the differences has a text, none is left out.
  get_elem?-delta_strings :
      (ts : TimestampColumn) (sums : List ℤ) (i n j : ℕ)
      → ((k : ℕ) → k < i + n → (s : Bytes) × (Timestamps.get_delta foreign ts k sums ≡ some s))
      → j < n
      → get_elem? (delta_strings foreign ts sums i n) j
        ≡ Timestamps.get_delta foreign ts (i + j) sums
  unfolding delta_strings
  get_elem?-delta_strings ts sums i zero j h l = absurd (omega arith)
  get_elem?-delta_strings ts sums i (suc n) zero h l =
      let (s, e) = h i (omega arith) in
      rw (delta_strings-some ts sums i n e)
        (sym e ∙ ap (λ k. Timestamps.get_delta foreign ts k sums) (omega arith))
  get_elem?-delta_strings ts sums i (suc n) (suc j) h l =
      let (s, e) = h i (omega arith) in
      rw (delta_strings-some ts sums i n e) (
        get_elem?-delta_strings ts sums (suc i) n j (λ k b. h k (omega arith)) (omega arith)
        ∙ ap (λ k. Timestamps.get_delta foreign ts k sums) (omega arith))

  length-delta_strings :
      (ts : TimestampColumn) (sums : List ℤ) (i n : ℕ)
      → length (delta_strings foreign ts sums i n) ≤ n
  unfolding delta_strings
  length-delta_strings ts sums i zero = omega arith
  length-delta_strings ts sums i (suc n) =
      let rest = length-delta_strings ts sums (suc i) n in
      elim (Option-cases (Timestamps.get_delta foreign ts i sums)) [
        | inl e ↦ rw (delta_strings-none ts sums i n e) (omega (arith, rest))
        | inr (s, e) ↦ rw (delta_strings-some ts sums i n e) (omega (arith, rest))
      ]

  get_delta-none :
      (ts : TimestampColumn) (i : ℕ)
      → length ts.deltas ≤ i
      → Timestamps.get_delta foreign ts i (Timestamps.prepare_for_read ts) ≡ none
  unfolding Timestamps.get_delta Timestamps.prepare_for_read
  get_delta-none ts i l =
      rw
        (get_elem?-none (prefix_sums (elim ts.base_ms [ none ↦ pos 0 | some b ↦ b ]) ts.deltas) i (
          omega (
            arith,
            length-prefix_sums foreign (elim ts.base_ms [ none ↦ pos 0 | some b ↦ b ]) ts.deltas,
          )))
        (reading-none foreign ts.base ts.base_offset_secs)

  timestamp_at-strings :
      (o : Option TimestampColumn) (i : ℕ)
      → AllShown o
      → timestamp_at foreign o i
        ≡ get_elem?
            (get_or
              (Option.map
                (λ ts.
                  delta_strings foreign ts (Timestamps.prepare_for_read ts) 0 (length ts.deltas))
                o)
              [])
            i
  unfolding timestamp_at
  timestamp_at-strings none i h = refl
  timestamp_at-strings (some ts) i h =
      let sums = Timestamps.prepare_for_read ts in
      let n = length ts.deltas in
      elim (lt-or-ge i n) [
        | inl l ↦ sym (
            get_elem?-delta_strings ts sums 0 n i (λ k b. h k (omega arith)) l
            ∙ ap (λ k. Timestamps.get_delta foreign ts k sums) (omega arith))
        | inr g ↦
            get_delta-none ts i g
            ∙ sym (
                get_elem?-none (delta_strings foreign ts sums 0 n) i
                  (omega (arith, length-delta_strings ts sums 0 n)))
      ]

  -- Let each of the column's timestamps have a text. Then the string of a column's value at an index
  -- is the string at that index of the column shown as a whole, for every type of column and every
  -- index, out of range included.
  pub get_value_at-partial_to_strings :
      (p : PartialPayload foreign) (t : ColumnType) (i : ℕ)
      → AllShown p.timestamps
      → get_value_at foreign p t i ≡ get_elem? (partial_to_strings foreign p t) i
  unfolding get_value_at partial_to_strings log_level_strings ipv4_strings timestamp_strings
  get_value_at-partial_to_strings p skeleton i h = refl
  get_value_at-partial_to_strings p placeholder_map i h = refl
  get_value_at-partial_to_strings p timestamps i h = timestamp_at-strings p.timestamps i h
  get_value_at-partial_to_strings p ipv4 i h = elem_at-map foreign.ipv4_to_string p.ipv4_addrs i
  get_value_at-partial_to_strings p ipv6 i h = elem_at-map foreign.ipv6_to_string p.ipv6_addrs i
  get_value_at-partial_to_strings p log_levels i h =
      elem_at-map (λ l. LogLevel.to_str (LogLevel.from_u8 l)) p.log_levels i
  get_value_at-partial_to_strings p numbers i h = elem_at-map (format_number foreign) p.numbers i
  get_value_at-partial_to_strings p uuids i h = elem_at-map format_uuid p.uuids i
  get_value_at-partial_to_strings p emails i h = elem_at-get_or p.emails i
  get_value_at-partial_to_strings p urls i h = elem_at-get_or p.urls i
  get_value_at-partial_to_strings p paths i h = elem_at-get_or p.paths i
  get_value_at-partial_to_strings p date_days i h = refl
  get_value_at-partial_to_strings p dates_raw i h = refl
  get_value_at-partial_to_strings p time_ms i h = refl
  get_value_at-partial_to_strings p times_raw i h = refl
  get_value_at-partial_to_strings p hex_values i h = refl
  get_value_at-partial_to_strings p others i h = refl
  get_value_at-partial_to_strings p timestamps_raw i h = refl
