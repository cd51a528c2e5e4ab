-- ===== src/Columnar/Payload/Shown.antt =====
-- What a matched text is read back as, once it is in the payload.
use alice_text.Prelude.{
  ℕ, ◌-◌, ◌%◌, ◌^◌, ◌<◌, ◌≤◌, ◌≡◌, refl, sym, ap, ◌∙◌, inl, inr, List, [], ◌∷◌, ◌++◌, Option, none,
  some, Bool, true, false, length, length-append, get_elem?, arith, get_elem?-snoc,
}
use mathlib.Core.Option
use mathlib.Core.Option.{get_or}
use alice_text.Bytes.{Bytes}
use alice_text.Prelude.Int.{ℤ}
use alice_text.Columnar.Foreign.{Foreign}
use alice_text.Columnar.LogLevel
use alice_text.Columnar.LogLevel.{from_u8-as_u8}
use alice_text.Columnar.Uuid.{parse_uuid, format_uuid}
use alice_text.Columnar.Text.{
  format_time_from_ms, format_number, parse_date_to_days, parse_time_to_ms,
}
use alice_text.Columnar.Timestamps
use alice_text.Columnar.Timestamps.Deltas.{IsColumn, add_lem}
use alice_text.Columnar.Timestamps.Reads.{shown_as, add_row, length-prepare_for_read}
use alice_text.Columnar.Payload.{
  PatternType, timestamp, date, time, ipv4, ipv6, uuid, log_level, path, url, number, hex, email,
  custom, ColumnarPayload, place, place_date, place_time, place_ipv6, place_timestamp, column_value,
  pick_arm,
}
use alice_text.Columnar.Payload.Within.{Within}

pub get_elem?-last {ℓ} :
    {A : Type ℓ} (xs : List A) (x : A)
    → length xs < 2 ^ 32
    → get_elem? (xs ++ x ∷ []) ((length (xs ++ x ∷ []) - 1) % 2 ^ 32) ≡ some x
get_elem?-last xs x h =
    ap (get_elem? (xs ++ x ∷ [])) (omega (arith, length-append xs (x ∷ []))) ∙ get_elem?-snoc xs x

or_text : (ℕ → Bytes) → Bytes → Option ℕ → Bytes
or_text format s none = s
or_text format s (some n) = format n

module _ (foreign : Foreign) where
  open foreign use {
    Float, parse_f64, f64_zero, parse_ipv4_addr, ipv4_to_string, parse_ipv6_addr, ipv6_to_string,
    to_uppercase, format_date,
  }

  -- Texts of five types are kept as they are; the others are parsed and printed.
  unfoldable pub shown : PatternType → Bytes → ColumnarPayload foreign → Option Bytes
  unfolding or_text
  shown timestamp s p =
      let (o, c) = Timestamps.parse_timestamp foreign p.timestamps s in
      shown_as foreign (Timestamps.add foreign p.timestamps s).1 s o
  shown ipv4 s p = some (ipv4_to_string (get_or (parse_ipv4_addr s) 0))
  shown log_level s p = some (LogLevel.to_str (LogLevel.parse_level to_uppercase s))
  shown number s p = some (format_number foreign (get_or (parse_f64 s) f64_zero))
  shown uuid s p = some (format_uuid (get_or (parse_uuid s) 0))
  shown date s p = some (or_text format_date s (parse_date_to_days foreign s))
  shown time s p = some (or_text format_time_from_ms s (parse_time_to_ms foreign s))
  shown ipv6 s p = some (or_text ipv6_to_string s (parse_ipv6_addr s))
  shown _ s p = some s

  -- The value at the place that a text was given.
  abbrev pub value_of : (ℕ × ℕ) × ColumnarPayload foreign → Option Bytes
  value_of (entry, q) =
      column_value foreign q (Timestamps.prepare_for_read q.timestamps) entry.0 entry.1

  module _ (n : ℕ) (s : Bytes) (p : ColumnarPayload foreign) (w : Within foreign n p)
      (room : n < 2 ^ 32) where
    place_date-shown :
        (o : Option ℕ) → value_of (place_date foreign s o p) ≡ some (or_text format_date s o)
    unfolding place_date column_value pick_arm or_text
    place_date-shown none = get_elem?-last p.dates s (omega arith)
    place_date-shown (some d) =
        ap (Option.map format_date) (get_elem?-last p.date_days d (omega arith))

    place_time-shown :
        (o : Option ℕ)
        → value_of (place_time foreign s o p) ≡ some (or_text format_time_from_ms s o)
    unfolding place_time column_value pick_arm or_text
    place_time-shown none = get_elem?-last p.times s (omega arith)
    place_time-shown (some d) =
        ap (Option.map format_time_from_ms) (get_elem?-last p.time_ms d (omega arith))

    place_ipv6-shown :
        (o : Option ℕ) → value_of (place_ipv6 foreign s o p) ≡ some (or_text ipv6_to_string s o)
    unfolding place_ipv6 column_value pick_arm or_text
    place_ipv6-shown none = get_elem?-last p.others s (omega arith)
    place_ipv6-shown (some d) =
        ap (Option.map ipv6_to_string) (get_elem?-last p.ipv6_addrs d (omega arith))

    timestamp_read : Bool × ℕ → Timestamps.TimestampColumn → Option Bytes
    timestamp_read (true, idx) col =
        Timestamps.get_delta foreign col (idx % 2 ^ 32) (Timestamps.prepare_for_read col)
    timestamp_read (false, idx) col = get_elem? col.raw (idx % 2 ^ 32)

    place_timestamp-read :
        (r : Bool × ℕ) (col : Timestamps.TimestampColumn)
        → value_of (place_timestamp foreign (r, col) p) ≡ timestamp_read r col
    unfolding place_timestamp column_value pick_arm timestamp_read
    place_timestamp-read (true, idx) col = refl
    place_timestamp-read (false, idx) col = refl

    raw-shown :
        (c : Timestamps.TimestampColumn)
        → length c.raw < 2 ^ 32
        → IsColumn c
        → (Timestamps.parse_timestamp foreign c s).0 ≡ none
        → get_elem? (Timestamps.add foreign c s).1.raw (length c.raw % 2 ^ 32) ≡ some s
    raw-shown c hr h e =
        let (sums, raws, column) = add_lem foreign c s h in
        ap (λ l. get_elem? l (length c.raw % 2 ^ 32)) (raws ∙ rw e)
        ∙ ap (get_elem? (c.raw ++ s ∷ [])) (omega arith)
        ∙ get_elem?-snoc c.raw s

    delta-shown :
        (c : Timestamps.TimestampColumn) (t : ℤ)
        → length c.deltas < 2 ^ 32
        → IsColumn c
        → (Timestamps.parse_timestamp foreign c s).0 ≡ some t
        → get_elem?
            (Timestamps.prepare_for_read (Timestamps.add foreign c s).1)
            (length c.deltas % 2 ^ 32)
          ≡ some t
    delta-shown c t hd h e =
        let (sums, raws, column) = add_lem foreign c s h in
        let before = Timestamps.prepare_for_read c in
        ap (λ l. get_elem? l (length c.deltas % 2 ^ 32)) (sums ∙ rw e)
        ∙ ap (get_elem? (before ++ t ∷ [])) (omega (arith, length-prepare_for_read foreign c))
        ∙ get_elem?-snoc before t

    get_delta_of :
        (c : Timestamps.TimestampColumn) (idx : ℕ) (sums : List ℤ) (t : ℤ)
        → get_elem? sums idx ≡ some t
        → Timestamps.get_delta foreign c idx sums
          ≡ Timestamps.reading foreign c.base c.base_offset_secs (some t)
    unfolding Timestamps.get_delta
    get_delta_of c idx sums t e = rw e

    add-shown :
        (c : Timestamps.TimestampColumn)
        → length c.deltas ≤ n
        → length c.raw ≤ n
        → IsColumn c
        → timestamp_read (Timestamps.add foreign c s).0 (Timestamps.add foreign c s).1
          ≡ shown_as foreign
              (Timestamps.add foreign c s).1
              s
              (Timestamps.parse_timestamp foreign c s).0
    unfolding timestamp_read shown_as
    add-shown c hd hr h =
        let after = (Timestamps.add foreign c s).1 in
        elim (add_row foreign c s h) [
          | inl (e, at) ↦
              ap (λ r. timestamp_read r after) at
              ∙ raw-shown c (omega arith) h e
              ∙ sym (ap (shown_as foreign after s) e)
          | inr (t, e, at) ↦
              ap (λ r. timestamp_read r after) at
              ∙ get_delta_of after _ _ t (delta-shown c t (omega arith) h e)
              ∙ sym (ap (shown_as foreign after s) e)
        ]

    -- Let no column of a payload hold more than some number of values that is below 2^32, and let
    -- the last timestamp of its timestamp column be the base and all differences together, or let
    -- there be no base and no differences. Then the value of a text that was just placed is what
    -- its type shows for it, for each of the types.
    pub place-shown :
        (ty : PatternType) → IsColumn p.timestamps → value_of (place foreign ty s p) ≡ shown ty s p
    unfolding place column_value pick_arm shown
    place-shown timestamp h =
        place_timestamp-read (Timestamps.add foreign p.timestamps s).0
          (Timestamps.add foreign p.timestamps s).1
        ∙ add-shown p.timestamps (omega arith) (omega arith) h
    place-shown ipv4 h =
        ap (Option.map ipv4_to_string) (get_elem?-last p.ipv4_addrs _ (omega arith))
    place-shown log_level h =
        ap (Option.map (λ v. LogLevel.to_str (LogLevel.from_u8 v)))
          (get_elem?-last p.log_levels _ (omega arith))
        ∙ ap (λ l. some (LogLevel.to_str l)) (from_u8-as_u8 _)
    place-shown number h =
        ap (Option.map (format_number foreign)) (get_elem?-last p.numbers _ (omega arith))
    place-shown uuid h = ap (Option.map format_uuid) (get_elem?-last p.uuids _ (omega arith))
    place-shown email h = get_elem?-last p.emails s (omega arith)
    place-shown url h = get_elem?-last p.urls s (omega arith)
    place-shown path h = get_elem?-last p.paths s (omega arith)
    place-shown date h = place_date-shown _
    place-shown time h = place_time-shown _
    place-shown hex h = get_elem?-last p.hex_values s (omega arith)
    place-shown ipv6 h = place_ipv6-shown _
    place-shown custom h = get_elem?-last p.others s (omega arith)
