-- ===== src/Dialogue/Speakers.antt =====
-- `SpeakerDictionary`: names with an index of 16 bits for each.
pub mod Index
pub mod Rebuild
use alice_text.Prelude.{
  ℕ, ◌+◌, ◌%◌, ◌^◌, List, [], ◌∷◌, ◌++◌, Option, none, some, Bool, ◌==◌, if◌then◌else◌, length,
  get_elem?, same_list,
}
use alice_text.Dialogue.{Text}

pub record SpeakerDictionary : Type 0 where
  pub names : List Text
  pub index : List (Text × ℕ)

abbrev pub new : SpeakerDictionary
new = record { names = []; index = [] }

-- `HashMap::get` and `HashMap::insert` of the index.
unfoldable pub index_of : List (Text × ℕ) → Text → Option ℕ
index_of [] name = none
index_of ((key, idx) ∷ rest) name = if same_list key name then some idx else index_of rest name

unfoldable pub put : List (Text × ℕ) → Text → ℕ → List (Text × ℕ)
put [] name idx = (name, idx) ∷ []
put ((key, old) ∷ rest) name idx =
    if same_list key name then (key, idx) ∷ rest else (key, old) ∷ put rest name idx

-- The name's index, and the dictionary with the name.
unfoldable pub insert : SpeakerDictionary → Text → ℕ × SpeakerDictionary
unfolding index_of put
insert d name = elim (index_of d.index name) [
  | some idx ↦ (idx, d)
  | none ↦
      let idx = length d.names % 2 ^ 16 in
      (idx, record { names = d.names ++ name ∷ []; index = put d.index name idx })
]

unfoldable pub get : SpeakerDictionary → ℕ → Option Text
get d idx = get_elem? d.names idx

unfoldable pub len : SpeakerDictionary → ℕ
len d = length d.names

unfoldable pub is_empty : SpeakerDictionary → Bool
is_empty d = length d.names == 0

-- `for (i, name) in self.names.iter().enumerate()`
unfoldable pub reindex : ℕ → List Text → List (Text × ℕ) → List (Text × ℕ)
unfolding put
reindex i [] index = index
reindex i (name ∷ names) index = reindex (i + 1) names (put index name (i % 2 ^ 16))

unfoldable pub rebuild_index : SpeakerDictionary → SpeakerDictionary
unfolding reindex
rebuild_index d = record d { index = reindex 0 d.names [] }
