-- ===== src/Entropy/Runs.antt =====
-- The counts of a short text.
use alice_text.Prelude.{◌≤◌, ◌≡◌, refl, [], ◌∷◌, arith}
use Prim.Native.Nat.{min}
use alice_text.Bytes.{Bytes}
use alice_text.Entropy.{count_byte, count_bytes, max_count, length}
use alice_text.Entropy.Counts.{count_in, occurrences, count_bytes-bounds}

abbrev banana : Bytes
banana = b'b' ∷ b'a' ∷ b'n' ∷ b'a' ∷ b'n' ∷ b'a' ∷ []

count_bytes-banana : count_bytes banana [] ≡ (b'b', 1) ∷ (b'a', 3) ∷ (b'n', 2) ∷ []
unfolding count_bytes count_byte
count_bytes-banana = refl

count_bytes-bounds_example :
    (count_in b'a' (count_bytes banana []) ≡ occurrences b'a' banana)
    × (length (count_bytes banana []) ≤ min 256 6)
    × (max_count (count_bytes banana []) ≤ 6)
count_bytes-bounds_example =
    count_bytes-bounds banana b'a'
      (omega arith, (omega arith, (omega arith, (omega arith, (omega arith, (omega arith, tt))))))
