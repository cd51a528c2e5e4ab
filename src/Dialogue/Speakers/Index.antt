-- ===== src/Dialogue/Speakers/Index.antt =====
-- The index of `SpeakerDictionary`: `insert` keeps it, and `rebuild_index` restores it.
use alice_text.Prelude.{
  zero, ℕ, suc, ◌≡◌, ◌≤◌, ◌+◌, ◌%◌, ◌^◌, refl, List, [], ◌∷◌, ◌++◌, some, none, false, length,
  get_elem?, same_list, same_list→eq, inl, inr, Bool-cases, arith, sym, ap, ◌∙◌, ◌<◌, Option-cases,
  length-append,
}
use mathlib.Core.Option.{none-ne-some, some-injective}
use alice_text.Dialogue.{Text}
use alice_text.Dialogue.Speakers.{SpeakerDictionary, index_of, put, get, insert}

-- Each name with its place, in 16 bits.
unfoldable pub numbered : ℕ → List Text → List (Text × ℕ)
numbered i [] = []
numbered i (name ∷ names) = (name, i % 2 ^ 16) ∷ numbered (suc i) names

-- A name is none of the list.
abbrev pub IsOther : Text → List Text → Type 0
IsOther name [] = Unit
IsOther name (n ∷ ns) = (same_list name n ≡ false) × IsOther name ns

abbrev pub IsDistinct : List Text → Type 0
IsDistinct [] = Unit
IsDistinct (n ∷ ns) = IsOther n ns × IsDistinct ns

pub record IsIndexed (d : SpeakerDictionary) : Type 0 where
  pub index : d.index ≡ numbered 0 d.names
  pub distinct : IsDistinct d.names

numbered-snoc :
    (i : ℕ) (names : List Text) (name : Text)
    → numbered i (names ++ name ∷ []) ≡ numbered i names ++ (name, (i + length names) % 2 ^ 16) ∷ []
unfolding numbered
numbered-snoc i [] name = ap (λ j. (name, j % 2 ^ 16) ∷ []) (omega arith)
numbered-snoc i (n ∷ names) name =
    ap (λ r. (n, i % 2 ^ 16) ∷ r)
      (numbered-snoc (suc i) names name
        ∙ ap (λ j. numbered (suc i) names ++ (name, j % 2 ^ 16) ∷ []) (omega arith))

pub put-snoc :
    (m : List (Text × ℕ)) (name : Text) (idx : ℕ)
    → index_of m name ≡ none
    → put m name idx ≡ m ++ (name, idx) ∷ []
unfolding put index_of
put-snoc [] name idx h = refl
put-snoc ((key, old) ∷ m) name idx h = elim (Bool-cases (same_list key name)) [
  | inl same ↦ absurd (none-ne-some old (sym (rw same at h)))
  | inr other ↦ rw other (ap (λ r. (key, old) ∷ r) (put-snoc m name idx (rw other at h)))
]

IsDistinct-snoc :
    (i : ℕ) (names : List Text) (name : Text)
    → IsDistinct names
    → index_of (numbered i names) name ≡ none
    → IsDistinct (names ++ name ∷ [])
unfolding numbered index_of
IsDistinct-snoc i [] name d h = (tt, tt)
IsDistinct-snoc i (n ∷ names) name d h = elim (Bool-cases (same_list n name)) [
  | inl same ↦ absurd (none-ne-some (i % 2 ^ 16) (sym (rw same at h)))
  | inr other ↦
      (IsOther-snoc n names name d.0 other, IsDistinct-snoc (suc i) names name d.1 (rw other at h))
]
  where
    IsOther-snoc :
        (n : Text) (ns : List Text) (name : Text)
        → IsOther n ns
        → same_list n name ≡ false
        → IsOther n (ns ++ name ∷ [])
    IsOther-snoc n [] name h e = (e, tt)
    IsOther-snoc n (m ∷ ns) name h e = (h.0, IsOther-snoc n ns name h.1 e)

-- A name that is found stands at the place.
index_of-numbered :
    (i : ℕ) (names : List Text) (name : Text) (idx : ℕ)
    → i + length names ≤ 2 ^ 16
    → index_of (numbered i names) name ≡ some idx
    → (k : ℕ) × (idx ≡ i + k) × (get_elem? names k ≡ some name)
unfolding numbered index_of
index_of-numbered i [] name idx few h = absurd (none-ne-some idx h)
index_of-numbered i (n ∷ names) name idx few h = elim (Bool-cases (same_list n name)) [
  | inl same ↦ (
    0,
    omega (arith, some-injective (i % 2 ^ 16) idx (rw same at h)),
    ap some (same_list→eq n name same),
  )
  | inr other ↦
      let (k, place, found) =
        index_of-numbered (suc i) names name idx (omega (arith, few)) (rw other at h) in
      (suc k, omega (arith, place), found)
]

get_elem?-append :
    (names more : List Text) (k : ℕ) (name : Text)
    → get_elem? names k ≡ some name
    → get_elem? (names ++ more) k ≡ some name
get_elem?-append [] more k name h = absurd (none-ne-some name h)
get_elem?-append (n ∷ names) more zero name h = h
get_elem?-append (n ∷ names) more (suc k) name h = get_elem?-append names more k name h

get_elem?-snoc :
    (names : List Text) (name : Text) → get_elem? (names ++ name ∷ []) (length names) ≡ some name
get_elem?-snoc [] name = refl
get_elem?-snoc (n ∷ names) name = get_elem?-snoc names name

-- What `insert` promises of a name, an index and a dictionary.
abbrev pub Inserted : SpeakerDictionary → Text → ℕ × SpeakerDictionary → Type 0
Inserted d name (idx, d') =
    IsIndexed d'
    × (get d' idx ≡ some name)
    × ((i : ℕ) (n : Text) → get d i ≡ some n → get d' i ≡ some n)
    × (length d'.names ≤ suc (length d.names))

-- Let a dictionary have less than 2^16 names, none of them twice, and let its index be that of its
-- names. Then inserting a name adds one name at most; the index of the name gives the name, every
-- index that gave a name gives it still, and no name stands twice and the index is that of the
-- names again.
pub insert-IsIndexed :
    (d : SpeakerDictionary) (name : Text)
    → IsIndexed d
    → length d.names < 2 ^ 16
    → Inserted d name (insert d name)
unfolding insert get
insert-IsIndexed d name h few = elim (Option-cases (index_of d.index name)) [
  | inr (idx, found) ↦
      let (k, place, there) =
        index_of-numbered 0 d.names name idx (omega arith) (rw h.index at found) in
      let same : idx ≡ k = omega (arith, place) in
      rw (found, insert) (h, rw same there, λ i n g. g, omega arith)
  | inl missing ↦
      let fresh : index_of (numbered 0 d.names) name ≡ none = rw h.index at missing in
      let exact : length d.names % 2 ^ 16 ≡ length d.names = omega (arith, few) in
      rw (missing, insert)
        (
          record {
            index =
                put-snoc d.index name _ missing
                ∙ ap (λ m. m ++ (name, length d.names % 2 ^ 16) ∷ []) h.index
                ∙ sym (
                    numbered-snoc 0 d.names name
                    ∙ ap (λ j. numbered 0 d.names ++ (name, j % 2 ^ 16) ∷ []) (omega arith));
            distinct = IsDistinct-snoc 0 d.names name h.distinct fresh;
          },
          ap (get_elem? (d.names ++ name ∷ [])) exact ∙ get_elem?-snoc d.names name,
          λ i n g. get_elem?-append d.names (name ∷ []) i n g,
          omega (arith, length-append d.names (name ∷ [])),
        )
]
