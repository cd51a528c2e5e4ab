-- ===== src/Columnar/Payload/Within.antt =====
-- The columns are no longer than the placeholder map, so that an index of 32 bits is exact while
-- the map has fewer than 2^32 entries.
use alice_text.Prelude.{
  ℕ, suc, ◌≤◌, [], ◌∷◌, Option, none, some, Bool, true, false, length, length-append, arith,
}
use alice_text.Bytes.{Bytes}
use alice_text.Columnar.Foreign.{Foreign}
use alice_text.Columnar.Timestamps
use alice_text.Columnar.Timestamps.{TimestampColumn}
use alice_text.Columnar.Timestamps.Reads.{add-length}
use alice_text.Columnar.Payload.{
  PatternType, timestamp, date, time, ipv4, ipv6, uuid, log_level, path, url, number, hex, email,
  custom, ColumnarPayload, place, place_date, place_time, place_ipv6, place_timestamp, new,
}

module _ (foreign : Foreign) where
  -- The length of each column, at most `n`.
  pub record Within (n : ℕ) (p : ColumnarPayload foreign) : Type 0 where
    pub deltas : length p.timestamps.deltas ≤ n
    pub raw : length p.timestamps.raw ≤ n
    pub ipv4_addrs : length p.ipv4_addrs ≤ n
    pub ipv6_addrs : length p.ipv6_addrs ≤ n
    pub log_levels : length p.log_levels ≤ n
    pub numbers : length p.numbers ≤ n
    pub uuids : length p.uuids ≤ n
    pub emails : length p.emails ≤ n
    pub urls : length p.urls ≤ n
    pub paths : length p.paths ≤ n
    pub date_days : length p.date_days ≤ n
    pub dates : length p.dates ≤ n
    pub time_ms : length p.time_ms ≤ n
    pub times : length p.times ≤ n
    pub hex_values : length p.hex_values ≤ n
    pub others : length p.others ≤ n

  pub new-Within : (skeleton : Bytes) → Within 0 (new foreign skeleton)
  unfolding new
  new-Within skeleton = omega arith

  module _ (n : ℕ) (s : Bytes) (p : ColumnarPayload foreign) (w : Within n p) where
    place_date-Within : (o : Option ℕ) → Within (suc n) (place_date foreign s o p).1
    unfolding place_date
    place_date-Within none = omega (arith, length-append p.dates (s ∷ []))
    place_date-Within (some d) = omega (arith, length-append p.date_days (d ∷ []))

    place_time-Within : (o : Option ℕ) → Within (suc n) (place_time foreign s o p).1
    unfolding place_time
    place_time-Within none = omega (arith, length-append p.times (s ∷ []))
    place_time-Within (some d) = omega (arith, length-append p.time_ms (d ∷ []))

    place_ipv6-Within : (o : Option ℕ) → Within (suc n) (place_ipv6 foreign s o p).1
    unfolding place_ipv6
    place_ipv6-Within none = omega (arith, length-append p.others (s ∷ []))
    place_ipv6-Within (some d) = omega (arith, length-append p.ipv6_addrs (d ∷ []))

    place_timestamp-Within :
        (b : Bool) (i : ℕ) (col : TimestampColumn)
        → length col.deltas ≤ suc n
        → length col.raw ≤ suc n
        → Within (suc n) (place_timestamp foreign ((b, i), col) p).1
    unfolding place_timestamp
    place_timestamp-Within true i col d r = omega arith
    place_timestamp-Within false i col d r = omega arith

    pub place-Within : (ty : PatternType) → Within (suc n) (place foreign ty s p).1
    unfolding place
    place-Within timestamp =
        let c = p.timestamps in
        let (deltas, raw) = add-length foreign c s in
        place_timestamp-Within (Timestamps.add foreign c s).0.0 (Timestamps.add foreign c s).0.1
          (Timestamps.add foreign c s).1 (omega arith) (omega arith)
    place-Within ipv4 = omega (arith, length-append p.ipv4_addrs)
    place-Within log_level = omega (arith, length-append p.log_levels)
    place-Within number = omega (arith, length-append p.numbers)
    place-Within uuid = omega (arith, length-append p.uuids)
    place-Within email = omega (arith, length-append p.emails)
    place-Within url = omega (arith, length-append p.urls)
    place-Within path = omega (arith, length-append p.paths)
    place-Within date = place_date-Within _
    place-Within time = place_time-Within _
    place-Within hex = omega (arith, length-append p.hex_values)
    place-Within ipv6 = place_ipv6-Within _
    place-Within custom = omega (arith, length-append p.others)
