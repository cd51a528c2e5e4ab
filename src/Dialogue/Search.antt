-- ===== src/Dialogue/Search.antt =====
-- The lookup of `DialogueTable` against a search through the entries, for ids that ascend.
use alice_text.Prelude.{
  lt→ltb, if◌then◌else◌, ◌==◌, ltb→ge, ◌/◌, ℕ, zero, suc, ◌≡◌, ◌≢◌, ◌≤◌, ◌<◌, ◌+◌, ◌-◌, refl, List,
  [], ◌∷◌, Option, none, some, length, get_or, ◌⊎◌, inl, inr, arith, map, Bool-cases, leb→le,
  leb→gt, ltb→lt, length-map, ==_iff, sym, ◌∙◌, get_elem?, ◌%◌, ◌^◌,
}
use mathlib.Core.Path.{subst}
use mathlib.Core.Bool.{false≢true}
use native.Mathlib.Decide.{dec_lt}
use alice_text.Dialogue.{DialogueEntry, leb, ltb}
use alice_text.Dialogue.Table.{binary_search, search_from, entry_at}

-- The ids are above a number, and ascend.
abbrev pub IsAbove : ℕ → List DialogueEntry → Type 0
IsAbove x [] = Unit
IsAbove x (e ∷ es) = (x < e.id) × IsAbove x es

abbrev pub IsAscending : List DialogueEntry → Type 0
IsAscending [] = Unit
IsAscending (e ∷ es) = IsAbove e.id es × IsAscending es

-- The first entry with the id.
unfoldable pub find_by_id : List DialogueEntry → ℕ → Option DialogueEntry
find_by_id [] id = none
find_by_id (e ∷ es) id = if e.id == id then some e else find_by_id es id

ids : List DialogueEntry → List ℕ
ids es = map (λ e. e.id) es

unfoldable pub key_at : List DialogueEntry → ℕ → ℕ
key_at es i = get_or (map (λ e. e.id) es) i 0

IsAbove-key_at :
    (x : ℕ) (es : List DialogueEntry) (j : ℕ) → IsAbove x es → j < length es → x < key_at es j
unfolding key_at
IsAbove-key_at x [] j h l = absurd (omega arith)
IsAbove-key_at x (e ∷ es) zero h l = h.0
IsAbove-key_at x (e ∷ es) (suc j) h l = IsAbove-key_at x es j h.1 (omega arith)

key_at-lt :
    (es : List DialogueEntry) (i j : ℕ)
    → IsAscending es
    → i < j
    → j < length es
    → key_at es i < key_at es j
unfolding key_at
key_at-lt [] i j h l m = absurd (omega arith)
key_at-lt (e ∷ es) i zero h l m = absurd (omega arith)
key_at-lt (e ∷ es) zero (suc j) h l m = IsAbove-key_at e.id es j h.0 (omega arith)
key_at-lt (e ∷ es) (suc i) (suc j) h l m = key_at-lt es i j h.1 (omega arith) (omega arith)

-- What the search keeps: the key is not before the base, and not behind the stretch.
record IsWithin (es : List DialogueEntry) (key size base : ℕ) : Type 0 where
  pub some_left : 0 < size
  pub fits : base + size ≤ length es
  pub before : (base ≡ 0) ⊎ (key_at es base ≤ key)
  pub behind : (j : ℕ) → base + size ≤ j → j < length es → key < key_at es j

search_from-IsWithin :
    (fuel : ℕ) (es : List DialogueEntry) (key size base : ℕ)
    → IsAscending es
    → size ≤ fuel
    → IsWithin es key size base
    → IsWithin es key 1 (search_from fuel (map (λ e. e.id) es) key size base)
unfolding search_from key_at
search_from-IsWithin zero es key size base h l w = absurd (omega (arith, w.some_left))
search_from-IsWithin (suc fuel) es key size base h l w = elim (Bool-cases (leb size 1)) [
  | inl last ↦
      let one : size ≡ 1 = omega (arith, leb→le size 1 last, w.some_left) in
      rw last (subst (λ n. IsWithin es key n base) one w)
  | inr more ↦
      let wide = leb→gt size 1 more in
      elim (Bool-cases (ltb key (key_at es (base + size / 2)))) [
        | inl left ↦
            let less = ltb→lt key (key_at es (base + size / 2)) left in
            rw (more, left)
              (search_from-IsWithin fuel es key (size - size / 2) base h (omega arith) (record {
                some_left = omega arith;
                fits = omega (arith, w.fits);
                before = w.before;
                behind = λ j from to. elim (dec_lt (base + size / 2) j) [
                  | yes later ↦ omega (arith, less, key_at-lt es (base + size / 2) j h later to)
                  | no not_later ↦
                      let here : base + size / 2 ≡ j = omega (arith, from, not_later) in
                      subst (λ i. key < key_at es i) here less
                ];
              }))
        | inr right ↦
            let le = ltb→ge key (key_at es (base + size / 2)) right in
            rw (more, right)
              (search_from-IsWithin fuel es key (size - size / 2) (base + size / 2) h (omega arith)
                (record {
                  some_left = omega arith;
                  fits = omega (arith, w.fits);
                  before = inr le;
                  behind = λ j from to. w.behind j (omega (arith, from)) to;
                }))
      ]
]

-- What a search found: a place with the key, or that there is none.
unfoldable pub Found : List DialogueEntry → ℕ → Option ℕ → Type 0
Found es key (some i) = (i < length es) × (key_at es i ≡ key)
Found es key none = (j : ℕ) → j < length es → key_at es j ≢ key

none-before :
    (es : List DialogueEntry) (key base : ℕ)
    → IsAscending es
    → IsWithin es key 1 base
    → key_at es base ≢ key
    → Found es key none
unfolding Found
none-before es key base h w differs j l same = elim (dec_lt base j) [
  | yes later ↦ absurd (omega (arith, w.behind j (omega arith) l, same))
  | no not_later ↦ elim (dec_lt j base) [
    | no not_before ↦
        let here : j ≡ base = omega (arith, not_later, not_before) in
        differs (subst (λ i. key_at es i ≡ key) here same)
    | yes earlier ↦ elim w.before [
      | inl zero_base ↦ absurd (omega (arith, zero_base))
      | inr le ↦ absurd (omega (arith, key_at-lt es j base h earlier (omega (arith, w.fits)), same))
    ]
  ]
]

pub binary_search-Found :
    (es : List DialogueEntry) (key : ℕ)
    → IsAscending es
    → Found es key (binary_search (map (λ e. e.id) es) key)
unfolding binary_search Found key_at
binary_search-Found [] key h = λ j l same. absurd (omega arith)
binary_search-Found (e ∷ es) key h =
    let keys = map (λ e. e.id) (e ∷ es) in
    let n = length keys in
    let size : length keys ≡ length (e ∷ es) = length-map (e ∷ es) (λ e. e.id) in
    let w = search_from-IsWithin n (e ∷ es) key n 0 h (omega arith) (record {
      some_left = omega arith;
      fits = omega (arith, size);
      before = inl refl;
      behind = λ j from to. absurd (omega (arith, size));
    }) in
    let base = search_from n keys key n 0 in
    let some_keys = lt→ltb 0 n (omega (arith, size)) in
    elim (Bool-cases (key_at (e ∷ es) base == key)) [
      | inl here ↦
          rw (some_keys, here) (omega (arith, w.fits), (==_iff (key_at (e ∷ es) base) key).0 here)
      | inr other ↦
          rw (some_keys, other)
            (none-before (e ∷ es) key base h w
              (λ same. false≢true (sym other ∙ (==_iff (key_at (e ∷ es) base) key).1 same)))
    ]

find_by_id-Found :
    (es : List DialogueEntry) (id i : ℕ)
    → IsAscending es
    → i < length es
    → key_at es i ≡ id
    → get_elem? es i ≡ find_by_id es id
unfolding find_by_id key_at
find_by_id-Found [] id i h l same = absurd (omega arith)
find_by_id-Found (e ∷ es) id zero h l same = rw ((==_iff e.id id).1 same) refl
find_by_id-Found (e ∷ es) id (suc i) h l same = elim (Bool-cases (e.id == id)) [
  | inl here ↦
      absurd
        (omega (arith, IsAbove-key_at e.id es i h.0 (omega arith), same, (==_iff e.id id).0 here))
  | inr other ↦ rw other (find_by_id-Found es id i h.1 (omega arith) same)
]

find_by_id-none : (es : List DialogueEntry) (id : ℕ) → Found es id none → find_by_id es id ≡ none
unfolding find_by_id Found key_at
find_by_id-none [] id h = refl
find_by_id-none (e ∷ es) id h = elim (Bool-cases (e.id == id)) [
  | inl here ↦ absurd (h 0 (omega arith) ((==_iff e.id id).0 here))
  | inr other ↦ rw other (find_by_id-none es id (λ j l. h (suc j) (omega arith)))
]

pub entry_at-Found :
    (es : List DialogueEntry) (id : ℕ) (o : Option ℕ)
    → IsAscending es
    → Found es id o
    → entry_at es o ≡ find_by_id es id
unfolding Found entry_at
entry_at-Found es id (some i) h found = find_by_id-Found es id i h found.0 found.1
entry_at-Found es id none h found = sym (find_by_id-none es id found)

-- The ids count, in 32 bits.
abbrev pub IsCounting : ℕ → List DialogueEntry → Type 0
IsCounting lo [] = Unit
IsCounting lo (e ∷ es) = (e.id ≡ lo % 2 ^ 32) × IsCounting (suc lo) es

IsCounting-head :
    (lo : ℕ) (es : List DialogueEntry)
    → 0 < length es
    → IsCounting lo es
    → key_at es 0 ≡ lo % 2 ^ 32
unfolding key_at
IsCounting-head lo [] l h = absurd (omega arith)
IsCounting-head lo (e ∷ es) l h = h.0

-- Ids that count and ascend are the places.
pub get_elem?-find_by_id :
    (lo i id : ℕ) (es : List DialogueEntry)
    → IsCounting lo es
    → IsAscending es
    → (0 < length es → lo ≤ key_at es 0)
    → id ≡ lo + i
    → get_elem? es i ≡ find_by_id es id
unfolding find_by_id key_at
get_elem?-find_by_id lo i id [] c h least here = refl
get_elem?-find_by_id lo zero id (e ∷ es) c h least here =
    rw ((==_iff e.id id).1 (omega (arith, c.0, least (omega arith), here))) refl
get_elem?-find_by_id lo (suc i) id (e ∷ es) c h least here = elim (Bool-cases (e.id == id)) [
  | inl same ↦ absurd (omega (arith, c.0, least (omega arith), here, (==_iff e.id id).0 same))
  | inr other ↦ rw other (
      get_elem?-find_by_id (suc lo) i id es c.1 h.1
        (λ l. omega (arith, IsAbove-key_at e.id es 0 h.0 l, c.0, least (omega arith)))
        (omega (arith, here)))
]
