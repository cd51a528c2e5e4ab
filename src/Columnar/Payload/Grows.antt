-- ===== src/Columnar/Payload/Grows.antt =====
-- Adding a match to a payload: the text goes behind its column, so that the values of all earlier
-- references are kept, and the columns stay no longer than the placeholder map.
use alice_text.Prelude.{
  ℕ, zero, suc, ◌≡◌, refl, ◌⊎◌, inl, inr, List, [], ◌∷◌, ◌++◌, Option, none, some, Bool, true,
  false, get_elem?, set,
}
use alice_text.Prelude.{drop}
use mathlib.Core.Option
use mathlib.Core.Option.{get_or}
use alice_text.Prelude.Int.{ℤ}
use alice_text.Bytes.{Bytes}
use alice_text.Columnar.Foreign.{Foreign}
use alice_text.Columnar.Timestamps.{TimestampColumn, get_delta}
use alice_text.Prelude.{◌≢◌}
use alice_text.Columnar.Payload.{
  PatternType, timestamp, date, time, ipv4, ipv6, uuid, log_level, path, url, number, hex, email,
  custom, ColumnarPayload, arms, place, place_date, place_time, place_ipv6, place_timestamp, ℤ,
  pick_arm,
}

-- A lookup that had a value has it still.
abbrev pub Kept : Option Bytes → Option Bytes → Type 0
Kept a b = (a ≡ none) ⊎ (a ≡ b)

abbrev pub AllKept : List (Option Bytes) → List (Option Bytes) → Type 0
AllKept [] [] = Unit
AllKept (a ∷ s) (b ∷ t) = Kept a b × AllKept s t
AllKept _ _ = ⊥

AllKept-refl : (s : List (Option Bytes)) → AllKept s s
AllKept-refl [] = tt
AllKept-refl (a ∷ s) = (inr refl, AllKept-refl s)

-- One lookup of the list changes.
pub AllKept-set :
    (s : List (Option Bytes)) (k : ℕ) (b : Option Bytes)
    → Kept (pick_arm s k) b
    → AllKept s (set s k b)
unfolding pick_arm
AllKept-set [] k b h = tt
AllKept-set (a ∷ s) zero b h = (h, AllKept-refl s)
AllKept-set (a ∷ s) (suc k) b h = (inr refl, AllKept-set s k b h)

pub pick_arm-Kept :
    (s t : List (Option Bytes)) (k : ℕ) → AllKept s t → Kept (pick_arm s k) (pick_arm t k)
unfolding pick_arm
pick_arm-Kept [] [] k h = inl refl
pick_arm-Kept (a ∷ s) (b ∷ t) zero h = h.0
pick_arm-Kept (a ∷ s) (b ∷ t) (suc k) h = pick_arm-Kept s t k h.1
pick_arm-Kept [] (b ∷ t) k h = absurd h
pick_arm-Kept (a ∷ s) [] k h = absurd h

pub Kept-append {ℓ} :
    {A : Type ℓ} (f : A → Bytes) (xs ys : List A) (idx : ℕ)
    → Kept (Option.map f (get_elem? xs idx)) (Option.map f (get_elem? (xs ++ ys) idx))
Kept-append f [] ys idx = inl refl
Kept-append f (x ∷ xs) ys zero = inr refl
Kept-append f (x ∷ xs) ys (suc idx) = Kept-append f xs ys idx

pub Kept-append_text :
    (xs ys : List Bytes) (idx : ℕ) → Kept (get_elem? xs idx) (get_elem? (xs ++ ys) idx)
Kept-append_text [] ys idx = inl refl
Kept-append_text (x ∷ xs) ys zero = inr refl
Kept-append_text (x ∷ xs) ys (suc idx) = Kept-append_text xs ys idx

module _ (foreign : Foreign) where
  -- All sixteen columns at an index.
  place_date-AllKept :
      (s : Bytes) (o : Option ℕ) (p : ColumnarPayload foreign) (sums : List ℤ) (idx : ℕ)
      → AllKept (arms foreign p sums idx) (arms foreign (place_date foreign s o p).1 sums idx)
  unfolding arms place_date pick_arm
  place_date-AllKept s none p sums idx =
      AllKept-set (arms foreign p sums idx) 14 _ (Kept-append_text p.dates (s ∷ []) idx)
  place_date-AllKept s (some d) p sums idx =
      AllKept-set (arms foreign p sums idx) 8 _ (Kept-append _ p.date_days (d ∷ []) idx)

  place_time-AllKept :
      (s : Bytes) (o : Option ℕ) (p : ColumnarPayload foreign) (sums : List ℤ) (idx : ℕ)
      → AllKept (arms foreign p sums idx) (arms foreign (place_time foreign s o p).1 sums idx)
  unfolding arms place_time pick_arm
  place_time-AllKept s none p sums idx =
      AllKept-set (arms foreign p sums idx) 15 _ (Kept-append_text p.times (s ∷ []) idx)
  place_time-AllKept s (some d) p sums idx =
      AllKept-set (arms foreign p sums idx) 9 _ (Kept-append _ p.time_ms (d ∷ []) idx)

  place_ipv6-AllKept :
      (s : Bytes) (o : Option ℕ) (p : ColumnarPayload foreign) (sums : List ℤ) (idx : ℕ)
      → AllKept (arms foreign p sums idx) (arms foreign (place_ipv6 foreign s o p).1 sums idx)
  unfolding arms place_ipv6 pick_arm
  place_ipv6-AllKept s none p sums idx =
      AllKept-set (arms foreign p sums idx) 11 _ (Kept-append_text p.others (s ∷ []) idx)
  place_ipv6-AllKept s (some d) p sums idx =
      AllKept-set (arms foreign p sums idx) 12 _ (Kept-append _ p.ipv6_addrs (d ∷ []) idx)

  -- A new timestamp column, if it keeps what the old one had.
  pub place_timestamp-AllKept :
      (b : Bool) (i : ℕ) (col : TimestampColumn) (p : ColumnarPayload foreign) (sums sums' : List ℤ)
      (idx : ℕ)
      → Kept (get_delta foreign p.timestamps idx sums) (get_delta foreign col idx sums')
      → Kept (get_elem? p.timestamps.raw idx) (get_elem? col.raw idx)
      → AllKept
          (arms foreign p sums idx)
          (arms foreign (place_timestamp foreign ((b, i), col) p).1 sums' idx)
  unfolding arms place_timestamp pick_arm
  place_timestamp-AllKept true i col p sums sums' idx h r =
      (h, AllKept-set (drop 1 (arms foreign p sums idx)) 12 _ r)
  place_timestamp-AllKept false i col p sums sums' idx h r =
      (h, AllKept-set (drop 1 (arms foreign p sums idx)) 12 _ r)

  -- Every text but a timestamp.
  pub place-AllKept :
      (ty : PatternType) (s : Bytes) (p : ColumnarPayload foreign) (sums : List ℤ) (idx : ℕ)
      → ty ≢ timestamp
      → AllKept (arms foreign p sums idx) (arms foreign (place foreign ty s p).1 sums idx)
  unfolding arms place pick_arm
  place-AllKept timestamp s p sums idx n = absurd (n refl)
  place-AllKept ipv4 s p sums idx n =
      AllKept-set (arms foreign p sums idx) 1 _ (Kept-append _ p.ipv4_addrs _ idx)
  place-AllKept log_level s p sums idx n =
      AllKept-set (arms foreign p sums idx) 2 _ (Kept-append _ p.log_levels _ idx)
  place-AllKept number s p sums idx n =
      AllKept-set (arms foreign p sums idx) 3 _ (Kept-append _ p.numbers _ idx)
  place-AllKept uuid s p sums idx n =
      AllKept-set (arms foreign p sums idx) 4 _ (Kept-append _ p.uuids _ idx)
  place-AllKept email s p sums idx n =
      AllKept-set (arms foreign p sums idx) 5 _ (Kept-append_text p.emails _ idx)
  place-AllKept url s p sums idx n =
      AllKept-set (arms foreign p sums idx) 6 _ (Kept-append_text p.urls _ idx)
  place-AllKept path s p sums idx n =
      AllKept-set (arms foreign p sums idx) 7 _ (Kept-append_text p.paths _ idx)
  place-AllKept date s p sums idx n = place_date-AllKept s _ p sums idx
  place-AllKept time s p sums idx n = place_time-AllKept s _ p sums idx
  place-AllKept hex s p sums idx n =
      AllKept-set (arms foreign p sums idx) 10 _ (Kept-append_text p.hex_values _ idx)
  place-AllKept ipv6 s p sums idx n = place_ipv6-AllKept s _ p sums idx
  place-AllKept custom s p sums idx n =
      AllKept-set (arms foreign p sums idx) 11 _ (Kept-append_text p.others _ idx)
