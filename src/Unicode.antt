-- ===== src/Unicode.antt =====
-- Unicode normalisation, `src/unicode_norm.rs`. A `char` is its code point and a string is the
-- list of its characters.
pub mod Table
pub mod Facts
pub mod Ordering
pub mod Normal
pub mod Strip
pub mod Runs
use alice_text.Prelude.{
  ℕ, List, [], ◌∷◌, Option, none, some, Bool, true, false, ◌&&◌, ◌||◌, ltb, leb, ◌==◌,
  if◌then◌else◌, same_list,
}
use Table.{Entry, entry, decomposition_table}

pub data NormForm : Type 0 where
  nfd nfc : NormForm

abbrev between : ℕ → ℕ → ℕ → Bool
between lo hi c = leb lo c && leb c hi

-- The arms of the `match`, in the order of the source.
unfoldable pub combining_class : ℕ → ℕ
combining_class c =
    if between 0x0300 0x0314 c
    then 230
    else if c == 0x0315 || c == 0x031a
    then 232
    else if between 0x0316 0x0319 c || between 0x0323 0x0326 c || between 0x0330 0x0333 c
    then 220
    else if c == 0x031b
    then 216
    else if between 0x0327 0x0328 c
    then 202
    else if c == 0x0338
    then 1
    else 0

unfoldable pub is_combining : ℕ → Bool
unfolding combining_class
is_combining c = ltb 0 (combining_class c)

abbrev pub is_ascii : ℕ → Bool
is_ascii c = ltb c 128

-- The two searches through the table.
pub find_composed : List Entry → ℕ → Option (ℕ × ℕ)
find_composed [] c = none
find_composed (entry composed base combining ∷ rest) c =
    if composed == c then some (base, combining) else find_composed rest c

pub find_pair : List Entry → ℕ → ℕ → Option ℕ
find_pair [] b m = none
find_pair (entry composed base combining ∷ rest) b m =
    if base == b && combining == m then some composed else find_pair rest b m

unfoldable pub decompose_char : ℕ → Option (ℕ × ℕ)
unfolding find_composed
decompose_char c = if is_ascii c then none else find_composed decomposition_table c

unfoldable pub compose_pair : ℕ → ℕ → Option ℕ
unfolding find_pair
compose_pair base combining = find_pair decomposition_table base combining

-- What the first loop of `to_nfd` pushes for one character.
pushed : Option (ℕ × ℕ) → ℕ → List ℕ → List ℕ
pushed none c rest = c ∷ rest
pushed (some (base, combining)) c rest = base ∷ combining ∷ rest

-- The first loop of `to_nfd`.
pub decompose : List ℕ → List ℕ
unfolding pushed
decompose [] = []
decompose (c ∷ cs) = pushed (decompose_char c) c (decompose cs)

-- The part of the array before the loop's index stands reversed, so that a swap with the
-- neighbour on the left is a step to the head.
pub unwind : List ℕ → List ℕ → List ℕ
unwind [] rest = rest
unwind (c ∷ done) rest = unwind done (c ∷ rest)

-- The inner `while`: the character moves left while its neighbour has a greater class.
sift : ℕ → List ℕ → List ℕ
sift c [] = c ∷ []
sift c (prev ∷ done) =
    if ltb (combining_class c) (combining_class prev) then prev ∷ sift c done else c ∷ prev ∷ done

-- The outer `while`; a character of class 0 stays where it is.
order_loop : List ℕ → List ℕ → List ℕ
unfolding unwind
order_loop done [] = unwind done []
order_loop done (c ∷ rest) =
    order_loop (if combining_class c == 0 then c ∷ done else sift c done) rest

-- The outer loop begins at index 1.
unfoldable pub canonical_order : List ℕ → List ℕ
unfolding order_loop sift
canonical_order [] = []
canonical_order (c ∷ cs) = order_loop (c ∷ []) cs

unfoldable pub to_nfd : List ℕ → List ℕ
unfolding decompose canonical_order
to_nfd input = canonical_order (decompose input)

-- The pair at the loop's index, if the second is a combining character that composes.
try_compose : ℕ → ℕ → Option ℕ
try_compose current next = if ltb 0 (combining_class next) then compose_pair current next else none

-- The `while` of `to_nfc`: a composition takes two characters, all else one.
compose_loop : List ℕ → List ℕ
compose_loop [] = []
compose_loop (current ∷ []) = current ∷ []
compose_loop (current ∷ next ∷ rest) = elim (try_compose current next) [
  | some composed ↦ composed ∷ compose_loop rest
  | none ↦ current ∷ compose_loop (next ∷ rest)
]

unfoldable pub to_nfc : List ℕ → List ℕ
unfolding try_compose compose_loop to_nfd
to_nfc input = compose_loop (to_nfd input)

unfoldable pub is_normalized : List ℕ → NormForm → Bool
unfolding same_list to_nfc
is_normalized input nfd = same_list input (to_nfd input)
is_normalized input nfc = same_list input (to_nfc input)

unfoldable pub is_ascii_only : List ℕ → Bool
is_ascii_only [] = true
is_ascii_only (c ∷ cs) = is_ascii c && is_ascii_only cs

pub drop_combining : List ℕ → List ℕ
drop_combining [] = []
drop_combining (c ∷ cs) =
    let rest = drop_combining cs in if combining_class c == 0 then c ∷ rest else rest

unfoldable pub strip_accents : List ℕ → List ℕ
unfolding drop_combining to_nfd
strip_accents input = drop_combining (to_nfd input)
