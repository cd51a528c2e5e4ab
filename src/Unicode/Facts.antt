-- ===== src/Unicode/Facts.antt =====
-- What every entry of the decomposition table satisfies, read off the table once, and the
-- relation of `decompose_char` and `compose_pair`.
use alice_text.Prelude.{ℕ, ◌<◌, ◌≡◌, refl, List, [], ◌∷◌, Option, none, some, Bool, true, ◌↔◌}
use alice_text.Prelude.{false, ◌&&◌, ltb, leb, ◌==◌, arith}
use alice_text.Unicode.{combining_class, find_composed, find_pair}
use alice_text.Unicode.{decompose_char, compose_pair}
use alice_text.Unicode.Table.{Entry, entry, decomposition_table}

module _ (good : Entry → Bool) where
  all_entries : List Entry → Bool
  all_entries [] = true
  all_entries (e ∷ es) = good e && all_entries es

  -- A search answers with an entry.
  find_composed-good :
      (t : List Entry) (c b m : ℕ)
      → all_entries t ≡ true
      → find_composed t c ≡ some (b, m)
      → good (entry c b m) ≡ true
  unfolding all_entries find_composed
  find_composed-good [] c b m h e = cc
  find_composed-good (entry c' b' m' ∷ t) c b m h e = ground (arith, find_composed-good t c b m)

  find_pair-good :
      (t : List Entry) (b m c : ℕ)
      → all_entries t ≡ true
      → find_pair t b m ≡ some c
      → good (entry c b m) ≡ true
  unfolding all_entries find_pair
  find_pair-good [] b m c h e = cc
  find_pair-good (entry c' b' m' ∷ t) b m c h e = ground (arith, find_pair-good t b m c)

is_pair : ℕ → ℕ → Option (ℕ × ℕ) → Bool
is_pair b m none = false
is_pair b m (some (x, y)) = x == b && y == m

is_char : ℕ → Option ℕ → Bool
is_char c none = false
is_char c (some x) = x == c

is_none : Option (ℕ × ℕ) → Bool
is_none none = true
is_none (some _) = false

-- A base is an ASCII starter, a combining character has a class and no decomposition, a composed
-- character is a starter outside ASCII, and each search finds the entry itself.
good_entry : Entry → Bool
good_entry (entry c b m) =
    leb 128 c
    && ltb b 128
    && combining_class b == 0
    && ltb 0 (combining_class m)
    && combining_class c == 0
    && is_none (find_composed decomposition_table m)
    && is_pair b m (find_composed decomposition_table c)
    && is_char c (find_pair decomposition_table b m)

table_good : all_entries good_entry decomposition_table ≡ true
unfolding all_entries good_entry is_pair is_char is_none combining_class find_composed find_pair
    decomposition_table
table_good = refl

-- The content of a good entry.
pub record IsEntry (c b m : ℕ) : Type 0 where
  pub decomposes : decompose_char c ≡ some (b, m)
  pub composes : compose_pair b m ≡ some c
  pub base_whole : decompose_char b ≡ none
  pub mark_whole : decompose_char m ≡ none
  pub base_class : combining_class b ≡ 0
  pub mark_class : 0 < combining_class m
  pub composed_class : combining_class c ≡ 0

is_pair→eq : (b m : ℕ) (o : Option (ℕ × ℕ)) → is_pair b m o ≡ true → o ≡ some (b, m)
unfolding is_pair
is_pair→eq b m none h = cc
is_pair→eq b m (some (x, y)) h = ground arith

is_char→eq : (c : ℕ) (o : Option ℕ) → is_char c o ≡ true → o ≡ some c
unfolding is_char
is_char→eq c none h = cc
is_char→eq c (some x) h = ground arith

is_none→eq : (o : Option (ℕ × ℕ)) → is_none o ≡ true → o ≡ none
unfolding is_none
is_none→eq none h = refl
is_none→eq (some x) h = cc

good→IsEntry : (c b m : ℕ) → good_entry (entry c b m) ≡ true → IsEntry c b m
unfolding good_entry decompose_char compose_pair
good→IsEntry c b m h = ground (
  arith,
  is_pair→eq b m (find_composed decomposition_table c),
  is_char→eq c (find_pair decomposition_table b m),
  is_none→eq (find_composed decomposition_table m),
)

-- `decompose_char` answers with the parts of an entry.
pub decompose_char-IsEntry : (c b m : ℕ) → decompose_char c ≡ some (b, m) → IsEntry c b m
unfolding decompose_char
decompose_char-IsEntry c b m e =
    good→IsEntry c b m
      (find_composed-good good_entry decomposition_table c b m table_good (ground arith))

-- `compose_pair` answers with the whole of an entry.
pub compose_pair-IsEntry : (b m c : ℕ) → compose_pair b m ≡ some c → IsEntry c b m
unfolding compose_pair
compose_pair-IsEntry b m c e =
    good→IsEntry c b m (find_pair-good good_entry decomposition_table b m c table_good e)

-- A character decomposes into a base and a mark exactly when the two compose to it.
pub decompose_compose_iff :
    (c b m : ℕ) → (decompose_char c ≡ some (b, m)) ↔ (compose_pair b m ≡ some c)
decompose_compose_iff c b m = (
  (λ e. (decompose_char-IsEntry c b m e).composes),
  (λ e. (compose_pair-IsEntry b m c e).decomposes),
)
