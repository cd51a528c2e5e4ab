-- ===== src/Dialogue/Locales.antt =====
-- `DeltaTable` and `LocalizationTable`: entries of other languages in place of the base table's.
pub mod Overrides
use alice_text.Prelude.{
  ℕ, List, [], ◌∷◌, ◌++◌, Option, none, some, ◌==◌, not, leb, if◌then◌else◌, map,
}
use alice_text.Bytes.{to_le}
use alice_text.Dialogue.{DialogueEntry, fnv1a, hash_bytes, text_chars, sort_chars, dedup}
use alice_text.Dialogue.Table
use alice_text.Dialogue.Table.{DialogueTable, unique_chars}

-- `HashMap::get` and `HashMap::insert` with integer keys.
module _ {ℓ} {A : Type ℓ} where
  unfoldable pub lookup : List (ℕ × A) → ℕ → Option A
  lookup [] key = none
  lookup ((k, value) ∷ rest) key = if k == key then some value else lookup rest key

  unfoldable pub put : List (ℕ × A) → ℕ → A → List (ℕ × A)
  put [] key value = (key, value) ∷ []
  put ((k, old) ∷ rest) key value =
      if k == key then (k, value) ∷ rest else (k, old) ∷ put rest key value

pub record DeltaTable : Type 0 where
  pub locale : ℕ
  pub entries : List (ℕ × DialogueEntry)
  pub content_hash : ℕ

unfoldable pub empty_delta : ℕ → DeltaTable
empty_delta locale = record { locale = locale; entries = []; content_hash = 0 }

-- The entries in the order of their keys.
unfoldable pub insert_entry :
    ℕ × DialogueEntry → List (ℕ × DialogueEntry) → List (ℕ × DialogueEntry)
insert_entry p [] = p ∷ []
insert_entry p (q ∷ qs) = if leb p.0 q.0 then p ∷ q ∷ qs else q ∷ insert_entry p qs

unfoldable pub by_id : List (ℕ × DialogueEntry) → List (ℕ × DialogueEntry)
unfolding insert_entry
by_id [] = []
by_id (p ∷ ps) = insert_entry p (by_id ps)

unfoldable pub update_hash : DeltaTable → DeltaTable
unfolding by_id
update_hash d = record d {
  content_hash = fnv1a (to_le 2 d.locale ++ hash_bytes (map (λ p. p.1) (by_id d.entries)));
}

unfoldable pub add : DeltaTable → DialogueEntry → DeltaTable
unfolding update_hash put
add d e = update_hash (record d { entries = put d.entries e.id e })

unfoldable pub get_override : DeltaTable → ℕ → Option DialogueEntry
unfolding lookup
get_override d id = lookup d.entries id

pub record LocalizationTable : Type 0 where
  pub base_locale : ℕ
  pub base_table : DialogueTable
  pub locale_deltas : List (ℕ × DeltaTable)

unfoldable pub new : ℕ → LocalizationTable
new base_locale = record { base_locale = base_locale; base_table = Table.new; locale_deltas = [] }

-- The entry of the delta of a locale.
unfoldable pub override_in : Option DeltaTable → ℕ → Option DialogueEntry
unfolding get_override
override_in none id = none
override_in (some delta) id = get_override delta id

-- A missing entry falls back to the base table.
unfoldable pub or_base : LocalizationTable → ℕ → Option DialogueEntry → Option DialogueEntry
or_base t id (some e) = some e
or_base t id none = Table.get t.base_table id

unfoldable pub get : LocalizationTable → ℕ → ℕ → Option DialogueEntry
unfolding or_base override_in lookup
get t locale id =
    if not (locale == t.base_locale)
    then or_base t id (override_in (lookup t.locale_deltas locale) id)
    else Table.get t.base_table id

unfoldable pub delta_or_new : ℕ → Option DeltaTable → DeltaTable
unfolding empty_delta
delta_or_new locale (some delta) = delta
delta_or_new locale none = empty_delta locale

unfoldable pub add_delta : LocalizationTable → ℕ → DialogueEntry → LocalizationTable
unfolding add delta_or_new lookup put
add_delta t locale e = record t {
  locale_deltas =
      put t.locale_deltas locale (add (delta_or_new locale (lookup t.locale_deltas locale)) e);
}

-- The characters of all entries of the deltas.
unfoldable pub delta_chars : List (ℕ × DeltaTable) → List ℕ
delta_chars [] = []
delta_chars ((locale, delta) ∷ rest) = text_chars (map (λ p. p.1) delta.entries) ++ delta_chars rest

unfoldable pub all_unique_chars : LocalizationTable → List ℕ
unfolding delta_chars
all_unique_chars t = dedup (sort_chars (unique_chars t.base_table ++ delta_chars t.locale_deltas))

unfoldable pub available_locales : LocalizationTable → List ℕ
available_locales t = t.base_locale ∷ map (λ p. p.0) t.locale_deltas
