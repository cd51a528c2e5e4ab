-- ===== src/Dialogue/Table.antt =====
-- `DialogueTable`, and its lookup: direct when the ids count from 0, else a binary search.
use alice_text.Prelude.{
  ℕ, zero, suc, ◌+◌, ◌-◌, ◌/◌, ◌%◌, ◌^◌, List, [], ◌∷◌, ◌++◌, Option, none, some, Bool, true, false,
  ◌==◌, ltb, leb, ◌&&◌, if◌then◌else◌, length, get_or, get_elem?, map,
}
use alice_text.Dialogue.{DialogueEntry, fnv1a, hash_bytes, text_chars, sort_chars, dedup}
use alice_text.Dialogue.Speakers
use alice_text.Dialogue.Speakers.{SpeakerDictionary}

pub record DialogueTable : Type 0 where
  pub speakers : SpeakerDictionary
  pub entries : List DialogueEntry
  pub contiguous : Bool
  pub content_hash : ℕ

abbrev pub new : DialogueTable
new = record { speakers = Speakers.new; entries = []; contiguous = true; content_hash = 0 }

unfoldable pub update_hash : DialogueTable → DialogueTable
update_hash t = record t { content_hash = fnv1a (hash_bytes t.entries) }

unfoldable pub add : DialogueTable → DialogueEntry → DialogueTable
unfolding update_hash
add t e = update_hash (record t {
  contiguous = if e.id == length t.entries % 2 ^ 32 then t.contiguous else false;
  entries = t.entries ++ e ∷ [];
})

-- The loop of `binary_search_by_key`: at each step the half that can have the key is kept. The
-- fuel is the number of keys, and each step takes at least one away.
unfoldable pub search_from : ℕ → List ℕ → ℕ → ℕ → ℕ → ℕ
search_from zero keys key size base = base
search_from (suc fuel) keys key size base =
    let half = size / 2 in
    let rest =
      search_from fuel keys key (size - half)
        (if ltb key (get_or keys (base + half) 0) then base else base + half) in
    if leb size 1 then base else rest

unfoldable pub binary_search : List ℕ → ℕ → Option ℕ
unfolding search_from
binary_search keys key =
    let base = search_from (length keys) keys key (length keys) 0 in
    if ltb 0 (length keys) && (get_or keys base 0 == key) then some base else none

-- The entry at an index that was found.
unfoldable pub entry_at : List DialogueEntry → Option ℕ → Option DialogueEntry
entry_at es (some idx) = get_elem? es idx
entry_at es none = none

unfoldable pub get : DialogueTable → ℕ → Option DialogueEntry
unfolding entry_at binary_search
get t id =
    if t.contiguous
    then get_elem? t.entries id
    else entry_at t.entries (binary_search (map (λ e. e.id) t.entries) id)

unfoldable pub len : DialogueTable → ℕ
len t = length t.entries

unfoldable pub is_empty : DialogueTable → Bool
is_empty t = length t.entries == 0

unfoldable pub unique_chars : DialogueTable → List ℕ
unique_chars t = dedup (sort_chars (text_chars t.entries))
