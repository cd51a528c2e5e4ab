-- ===== src/Entropy/Counts.antt =====
-- What the estimator counts, and the bounds of it.
use alice_text.Prelude.{
  zero, suc, ℕ, suc, ◌+◌, ◌<◌, ◌≡◌, List, [], ◌∷◌, Bool, false, arith, if◌then◌else◌, ◌==◌, ◌||◌,
  ◌≤◌, refl,
}
use alice_text.Bytes.{Bytes, AreBytes}
use alice_text.Learner.Counts.{one_if}
use alice_text.Entropy.{count_byte, count_bytes, length, max_count, min}

-- The count of a byte; a byte that is not in the map has none.
abbrev pub count_in : ℕ → List (ℕ × ℕ) → ℕ
count_in b [] = 0
count_in b ((c, n) ∷ freq) = if c == b then n else count_in b freq

-- How often the byte stands in the text.
pub occurrences : ℕ → Bytes → ℕ
occurrences b [] = 0
occurrences b (c ∷ cs) = one_if (c == b) + occurrences b cs

total : List (ℕ × ℕ) → ℕ
total [] = 0
total ((c, n) ∷ freq) = n + total freq

abbrev has : ℕ → List (ℕ × ℕ) → Bool
has b [] = false
has b ((c, n) ∷ freq) = c == b || has b freq

-- No byte stands twice in the map, each is below the limit and has been counted.
abbrev IsTable : ℕ → List (ℕ × ℕ) → Type 0
IsTable limit [] = Unit
IsTable limit ((c, n) ∷ freq) = (c < limit) × (0 < n) × (has c freq ≡ false) × IsTable limit freq

count_in-count_byte :
    (a b : ℕ) (freq : List (ℕ × ℕ))
    → count_in a (count_byte b freq) ≡ one_if (b == a) + count_in a freq
unfolding count_byte
count_in-count_byte a b [] = ground arith
count_in-count_byte a b ((c, n) ∷ freq) = ground (arith, count_in-count_byte a b freq)

count_in-count_bytes :
    (a : ℕ) (bs : Bytes) (freq : List (ℕ × ℕ))
    → count_in a (count_bytes bs freq) ≡ occurrences a bs + count_in a freq
unfolding count_bytes occurrences
count_in-count_bytes a [] freq = omega arith
count_in-count_bytes a (b ∷ bs) freq =
    omega (arith, count_in-count_bytes a bs (count_byte b freq), count_in-count_byte a b freq)

total-count_byte : (b : ℕ) (freq : List (ℕ × ℕ)) → total (count_byte b freq) ≡ suc (total freq)
unfolding total count_byte
total-count_byte b [] = ground arith
total-count_byte b ((c, n) ∷ freq) = ground (arith, total-count_byte b freq)

total-count_bytes :
    (bs : Bytes) (freq : List (ℕ × ℕ)) → total (count_bytes bs freq) ≡ length bs + total freq
unfolding count_bytes
total-count_bytes [] freq = omega arith
total-count_bytes (b ∷ bs) freq =
    omega (arith, total-count_bytes bs (count_byte b freq), total-count_byte b freq)

has-count_byte :
    (a b : ℕ) (freq : List (ℕ × ℕ)) → has a (count_byte b freq) ≡ (b == a || has a freq)
unfolding count_byte
has-count_byte a b [] = ground arith
has-count_byte a b ((c, n) ∷ freq) = ground (arith, has-count_byte a b freq)

count_byte-IsTable :
    (limit b : ℕ) (freq : List (ℕ × ℕ))
    → b < limit
    → IsTable limit freq
    → IsTable limit (count_byte b freq)
unfolding count_byte
count_byte-IsTable limit b [] l h = ground arith
count_byte-IsTable limit b ((c, n) ∷ freq) l h =
    ground (arith, count_byte-IsTable limit b freq l h.3, has-count_byte c b freq)

drop_key : ℕ → List (ℕ × ℕ) → List (ℕ × ℕ)
drop_key k [] = []
drop_key k ((c, n) ∷ freq) = let rest = drop_key k freq in if c == k then rest else (c, n) ∷ rest

length-drop_key_absent :
    (k : ℕ) (freq : List (ℕ × ℕ)) → has k freq ≡ false → length (drop_key k freq) ≡ length freq
unfolding drop_key
length-drop_key_absent k [] h = refl
length-drop_key_absent k ((c, n) ∷ freq) h = ground (arith, length-drop_key_absent k freq)

length-drop_key :
    (limit k : ℕ) (freq : List (ℕ × ℕ))
    → IsTable limit freq
    → length freq ≤ suc (length (drop_key k freq))
unfolding drop_key
length-drop_key limit k [] h = omega arith
length-drop_key limit k ((c, n) ∷ freq) h =
    ground (arith, length-drop_key limit k freq h.3, length-drop_key_absent c freq h.2)

has-drop_key :
    (a k : ℕ) (freq : List (ℕ × ℕ)) → has a freq ≡ false → has a (drop_key k freq) ≡ false
unfolding drop_key
has-drop_key a k [] h = refl
has-drop_key a k ((c, n) ∷ freq) h = ground (arith, has-drop_key a k freq)

drop_key-IsTable :
    (limit : ℕ) (freq : List (ℕ × ℕ))
    → IsTable (suc limit) freq
    → IsTable limit (drop_key limit freq)
unfolding drop_key
drop_key-IsTable limit [] h = tt
drop_key-IsTable limit ((c, n) ∷ freq) h =
    ground (arith, drop_key-IsTable limit freq h.3, has-drop_key c limit freq h.2)

-- Below a limit there are no more keys than the limit.
length-IsTable : (limit : ℕ) (freq : List (ℕ × ℕ)) → IsTable limit freq → length freq ≤ limit
length-IsTable zero [] h = omega arith
length-IsTable zero (p ∷ freq) h = absurd (omega (arith, h.0))
length-IsTable (suc limit) freq h = omega (
  arith,
  length-drop_key (suc limit) limit freq h,
  length-IsTable limit (drop_key limit freq) (drop_key-IsTable limit freq h),
)

length-total : (limit : ℕ) (freq : List (ℕ × ℕ)) → IsTable limit freq → length freq ≤ total freq
unfolding total
length-total limit [] h = omega arith
length-total limit ((c, n) ∷ freq) h = omega (arith, h.1, length-total limit freq h.3)

max_count-total : (freq : List (ℕ × ℕ)) → max_count freq ≤ total freq
unfolding max_count total
max_count-total [] = omega arith
max_count-total ((c, n) ∷ freq) = omega (arith, max_count-total freq)

count_bytes-IsTable :
    (bs : Bytes) (freq : List (ℕ × ℕ))
    → AreBytes bs
    → IsTable 256 freq
    → IsTable 256 (count_bytes bs freq)
unfolding count_bytes
count_bytes-IsTable [] freq a h = h
count_bytes-IsTable (b ∷ bs) freq a h =
    count_bytes-IsTable bs (count_byte b freq) a.1 (count_byte-IsTable 256 b freq a.0 h)

-- The map of a text has for every byte how often it stands in the text. Its keys, the unique bytes,
-- are no more than 256 and no more than the text is long, and no count is larger than the length.
pub count_bytes-bounds :
    (bytes : Bytes) (b : ℕ)
    → AreBytes bytes
    → (count_in b (count_bytes bytes []) ≡ occurrences b bytes)
      × (length (count_bytes bytes []) ≤ min 256 (length bytes))
      × (max_count (count_bytes bytes []) ≤ length bytes)
unfolding total
count_bytes-bounds bytes b a =
    let table = count_bytes-IsTable bytes [] a tt in
    let freq = count_bytes bytes [] in
    (
      omega (arith, count_in-count_bytes b bytes []),
      omega (
        arith,
        length-IsTable 256 freq table,
        length-total 256 freq table,
        total-count_bytes bytes [],
      ),
      omega (arith, max_count-total freq, total-count_bytes bytes []),
    )
