-- ===== src/Columnar/Payload/Tokens.antt =====
-- Adding matches leaves the skeleton alone.
use alice_text.Prelude.{ℕ, ◌≡◌, refl, Bool, true, false, Option, none, some}
use alice_text.Bytes.{Bytes}
use alice_text.Columnar.Foreign.{Foreign}
use alice_text.Columnar.Timestamps
use alice_text.Columnar.Payload.{
  PatternType, timestamp, date, time, ipv4, ipv6, uuid, log_level, path, url, number, hex, email,
  custom, ColumnarPayload, place, place_date, place_time, place_ipv6, place_timestamp, add_match,
}

module _ (foreign : Foreign) (s : Bytes) (p : ColumnarPayload foreign) where
  place_date-tokens :
      (o : Option ℕ) → (place_date foreign s o p).1.skeleton_tokens ≡ p.skeleton_tokens
  unfolding place_date
  place_date-tokens none = refl
  place_date-tokens (some d) = refl

  place_time-tokens :
      (o : Option ℕ) → (place_time foreign s o p).1.skeleton_tokens ≡ p.skeleton_tokens
  unfolding place_time
  place_time-tokens none = refl
  place_time-tokens (some d) = refl

  place_ipv6-tokens :
      (o : Option ℕ) → (place_ipv6 foreign s o p).1.skeleton_tokens ≡ p.skeleton_tokens
  unfolding place_ipv6
  place_ipv6-tokens none = refl
  place_ipv6-tokens (some d) = refl

  place_timestamp-tokens :
      (r : Bool × ℕ) (col : Timestamps.TimestampColumn)
      → (place_timestamp foreign (r, col) p).1.skeleton_tokens ≡ p.skeleton_tokens
  unfolding place_timestamp
  place_timestamp-tokens (true, i) col = refl
  place_timestamp-tokens (false, i) col = refl

  pub add_match-tokens :
      (ty : PatternType) → (add_match foreign ty s p).skeleton_tokens ≡ p.skeleton_tokens
  unfolding add_match place
  add_match-tokens timestamp =
      place_timestamp-tokens (Timestamps.add foreign p.timestamps s).0
        (Timestamps.add foreign p.timestamps s).1
  add_match-tokens ipv4 = refl
  add_match-tokens log_level = refl
  add_match-tokens number = refl
  add_match-tokens uuid = refl
  add_match-tokens email = refl
  add_match-tokens url = refl
  add_match-tokens path = refl
  add_match-tokens date = place_date-tokens _
  add_match-tokens time = place_time-tokens _
  add_match-tokens hex = refl
  add_match-tokens ipv6 = place_ipv6-tokens _
  add_match-tokens custom = refl
