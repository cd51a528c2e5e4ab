-- ===== src/Columnar/Payload/Values.antt =====
-- Values that stay: a payload under construction, and what a reference is read as while matches
-- are added.
use alice_text.Prelude.{
  ℕ, ◌≡◌, refl, Option, none, some, true, false, length, ◌≢◌, suc, length-append, ◌∙◌, arith, inl,
  ◌<◌, ◌⊎◌, inr, ◌^◌, ◌++◌,
}
use alice_text.Bytes.{Bytes}
use alice_text.Columnar.Foreign.{Foreign}
use alice_text.Columnar.Timestamps
use alice_text.Columnar.Timestamps.Deltas.{IsColumn, add_lem}
use alice_text.Columnar.Timestamps.Reads.{HasBase, IsSteady, add-HasBase, get_delta-add}
use alice_text.Columnar.Payload.{
  PatternType, timestamp, date, time, ipv4, ipv6, uuid, log_level, path, url, number, hex, email,
  custom, ColumnarPayload, place, place_date, place_time, place_ipv6, place_timestamp, Bool,
  add_match, column_value, pick_arm, arms, List, get_elem?, ◌∷◌,
}
use alice_text.Columnar.Payload.Grows.{
  Kept, AllKept, pick_arm-Kept, place-AllKept, place_timestamp-AllKept, Kept-append_text,
}
use alice_text.Columnar.Payload.{get_value}
use alice_text.Prelude.{get_elem?-snoc, sym}
use alice_text.Columnar.Payload.Shown.{shown, place-shown}
use alice_text.Prelude.{List, [], ◌∷◌, ◌++◌, zero, ◌⊎◌, inl, inr, get_elem?}
use alice_text.Columnar.Payload.{get_value_fast}
use alice_text.Columnar.Payload.Within.{Within, place-Within}

get_elem?-old {ℓ} :
    {A : Type ℓ} (xs ys : List A) (i : ℕ)
    → (get_elem? xs i ≡ none)
      ⊎ ((x : A) × (get_elem? xs i ≡ some x) × (get_elem? (xs ++ ys) i ≡ some x))
get_elem?-old [] ys i = inl refl
get_elem?-old (x ∷ xs) ys zero = inr (x, refl, refl)
get_elem?-old (x ∷ xs) ys (suc i) = get_elem?-old xs ys i

PatternType-discrete : Discrete PatternType
PatternType-discrete = hlevel

module _ (foreign : Foreign) where
  -- What holds of a payload after `n` matches.
  pub record Ready (n : ℕ) (p : ColumnarPayload foreign) : Type 0 where
    pub map_length : length p.placeholder_map ≡ n
    pub within : Within foreign n p
    pub column : IsColumn p.timestamps
    pub base : HasBase p.timestamps

  -- A timestamp leaves the offset of the column as it was; any other text is free.
  abbrev pub SteadyMatch : PatternType → Bytes → ColumnarPayload foreign → Type 0
  SteadyMatch timestamp s p = IsSteady foreign p.timestamps s
  SteadyMatch _ s p = Unit

  -- Only a timestamp changes the timestamp column.
  place_date-timestamps :
      (s : Bytes) (o : Option ℕ) (p : ColumnarPayload foreign)
      → (place_date foreign s o p).1.timestamps ≡ p.timestamps
  unfolding place_date
  place_date-timestamps s none p = refl
  place_date-timestamps s (some d) p = refl

  place_time-timestamps :
      (s : Bytes) (o : Option ℕ) (p : ColumnarPayload foreign)
      → (place_time foreign s o p).1.timestamps ≡ p.timestamps
  unfolding place_time
  place_time-timestamps s none p = refl
  place_time-timestamps s (some d) p = refl

  place_ipv6-timestamps :
      (s : Bytes) (o : Option ℕ) (p : ColumnarPayload foreign)
      → (place_ipv6 foreign s o p).1.timestamps ≡ p.timestamps
  unfolding place_ipv6
  place_ipv6-timestamps s none p = refl
  place_ipv6-timestamps s (some d) p = refl

  place-timestamps :
      (ty : PatternType) (s : Bytes) (p : ColumnarPayload foreign)
      → ty ≢ timestamp
      → (place foreign ty s p).1.timestamps ≡ p.timestamps
  unfolding place
  place-timestamps timestamp s p n = absurd (n refl)
  place-timestamps ipv4 s p n = refl
  place-timestamps log_level s p n = refl
  place-timestamps number s p n = refl
  place-timestamps uuid s p n = refl
  place-timestamps email s p n = refl
  place-timestamps url s p n = refl
  place-timestamps path s p n = refl
  place-timestamps date s p n = place_date-timestamps s _ p
  place-timestamps time s p n = place_time-timestamps s _ p
  place-timestamps hex s p n = refl
  place-timestamps ipv6 s p n = place_ipv6-timestamps s _ p
  place-timestamps custom s p n = refl

  place_timestamp-timestamps :
      (r : Bool × ℕ) (col : Timestamps.TimestampColumn) (p : ColumnarPayload foreign)
      → (place_timestamp foreign (r, col) p).1.timestamps ≡ col
  unfolding place_timestamp
  place_timestamp-timestamps (true, i) col p = refl
  place_timestamp-timestamps (false, i) col p = refl

  timestamp-state :
      (s : Bytes) (p : ColumnarPayload foreign)
      → (place foreign timestamp s p).1.timestamps ≡ (Timestamps.add foreign p.timestamps s).1
  unfolding place
  timestamp-state s p =
      place_timestamp-timestamps (Timestamps.add foreign p.timestamps s).0
        (Timestamps.add foreign p.timestamps s).1 p

  place-state :
      (ty : PatternType) (s : Bytes) (p : ColumnarPayload foreign)
      → IsColumn p.timestamps
      → HasBase p.timestamps
      → IsColumn (place foreign ty s p).1.timestamps × HasBase (place foreign ty s p).1.timestamps
  place-state ty s p h b = elim (PatternType-discrete ty timestamp) [
    | yes e ↦
        let (sums, raws, column) = add_lem foreign p.timestamps s h in
        rw (e, timestamp-state s p) (column, add-HasBase foreign p.timestamps s b)
    | no n ↦ rw (place-timestamps ty s p n) (h, b)
  ]

  pub add_match-Ready :
      (n : ℕ) (ty : PatternType) (s : Bytes) (p : ColumnarPayload foreign)
      → Ready n p
      → Ready (suc n) (add_match foreign ty s p)
  unfolding add_match
  add_match-Ready n ty s p r = record {
    map_length = length-append p.placeholder_map _ ∙ omega (arith, r.map_length);
    within = let w = place-Within foreign n s p r.within ty in omega arith;
    column = (place-state ty s p r.column r.base).0;
    base = (place-state ty s p r.column r.base).1;
  }

  -- What a reference to a column gives.
  abbrev pub entry_value : ColumnarPayload foreign → ℕ × ℕ → Option Bytes
  entry_value p entry =
      column_value foreign p (Timestamps.prepare_for_read p.timestamps) entry.0 entry.1

  Kept-arms :
      (p q : ColumnarPayload foreign) (entry : ℕ × ℕ)
      → AllKept
          (arms foreign p (Timestamps.prepare_for_read p.timestamps) entry.1)
          (arms foreign q (Timestamps.prepare_for_read q.timestamps) entry.1)
      → Kept (entry_value p entry) (entry_value q entry)
  unfolding column_value pick_arm
  Kept-arms p q entry h =
      pick_arm-Kept (arms foreign p (Timestamps.prepare_for_read p.timestamps) entry.1)
        (arms foreign q (Timestamps.prepare_for_read q.timestamps) entry.1) entry.0 h

  timestamp-AllKept :
      (s : Bytes) (p : ColumnarPayload foreign) (idx : ℕ)
      → IsColumn p.timestamps
      → HasBase p.timestamps
      → IsSteady foreign p.timestamps s
      → AllKept (arms foreign p (Timestamps.prepare_for_read p.timestamps) idx) (
          arms foreign
            (place foreign timestamp s p).1
            (Timestamps.prepare_for_read (Timestamps.add foreign p.timestamps s).1)
            idx)
  unfolding place
  timestamp-AllKept s p idx h b st =
      let (sums, raws, column) = add_lem foreign p.timestamps s h in
      place_timestamp-AllKept foreign (Timestamps.add foreign p.timestamps s).0.0
        (Timestamps.add foreign p.timestamps s).0.1 (Timestamps.add foreign p.timestamps s).1 p _ _
        idx (get_delta-add foreign p.timestamps s idx h b st)
        (rw raws (Kept-append_text p.timestamps.raw _ idx))

  -- An entry that had a value has it still.
  place-Kept :
      (ty : PatternType) (s : Bytes) (p : ColumnarPayload foreign) (entry : ℕ × ℕ)
      → IsColumn p.timestamps
      → HasBase p.timestamps
      → SteadyMatch ty s p
      → Kept (entry_value p entry) (entry_value (place foreign ty s p).1 entry)
  place-Kept ty s p entry h b st = elim (PatternType-discrete ty timestamp) [
    | yes e ↦ rw e (
        Kept-arms p (place foreign timestamp s p).1 entry
          (rw (timestamp-state s p) (timestamp-AllKept s p entry.1 h b (rw e at st))))
    | no n ↦
        Kept-arms p (place foreign ty s p).1 entry
          (rw (place-timestamps ty s p n) (place-AllKept foreign ty s p _ entry.1 n))
  ]

  add_match-entry_value :
      (ty : PatternType) (s : Bytes) (p : ColumnarPayload foreign) (entry : ℕ × ℕ)
      → entry_value (add_match foreign ty s p) entry ≡ entry_value (place foreign ty s p).1 entry
  unfolding add_match column_value arms
  add_match-entry_value ty s p entry = refl

  get_value-entry :
      (p : ColumnarPayload foreign) (i : ℕ) (entry : ℕ × ℕ)
      → get_elem? p.placeholder_map i ≡ some entry
      → get_value foreign p i ≡ entry_value p entry
  unfolding get_value
  get_value-entry p i entry e = rw (e, get_value_fast) refl

  get_value-none :
      (p : ColumnarPayload foreign) (i : ℕ)
      → get_elem? p.placeholder_map i ≡ none
      → get_value foreign p i ≡ none
  unfolding get_value
  get_value-none p i e = rw (e, get_value_fast) refl

  -- Adding a match to a payload under construction keeps every value that could be read, if a
  -- timestamp among them leaves the offset of the earlier ones alone.
  pub get_value-Kept :
      (n i : ℕ) (ty : PatternType) (s : Bytes) (p : ColumnarPayload foreign)
      → Ready n p
      → SteadyMatch ty s p
      → Kept (get_value foreign p i) (get_value foreign (add_match foreign ty s p) i)
  unfolding add_match
  get_value-Kept n i ty s p r st =
      elim (get_elem?-old p.placeholder_map ((place foreign ty s p).0 ∷ []) i) [
        | inl absent ↦ inl (get_value-none p i absent)
        | inr (entry, old, new) ↦
            rw
              (
                get_value-entry p i entry old,
                get_value-entry (add_match foreign ty s p) i entry new,
                add_match-entry_value ty s p entry,
              )
              (place-Kept ty s p entry r.column r.base st)
      ]

  -- The match itself is read back as what is shown for it.
  pub get_value-add_match :
      (n : ℕ) (ty : PatternType) (s : Bytes) (p : ColumnarPayload foreign)
      → Ready n p
      → n < 2 ^ 32
      → get_value foreign (add_match foreign ty s p) n ≡ shown foreign ty s p
  unfolding add_match
  get_value-add_match n ty s p r room =
      get_value-entry (add_match foreign ty s p) n (place foreign ty s p).0
        (rw (sym r.map_length) (get_elem?-snoc p.placeholder_map _))
      ∙ add_match-entry_value ty s p (place foreign ty s p).0
      ∙ place-shown foreign n s p r.within room ty r.column
