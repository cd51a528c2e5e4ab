-- ===== src/Dialogue/Locales/Overrides.antt =====
-- What `add_delta` changes of `get`.
use alice_text.Prelude.{
  ℕ, ◌≡◌, refl, List, [], ◌∷◌, Option, some, none, not, ◌&&◌, ◌==◌, if◌then◌else◌, inl, inr,
  Bool-cases, arith, ◌∙◌, ap, ==_iff,
}
use alice_text.Dialogue.{DialogueEntry}
use alice_text.Dialogue.Locales.{
  LocalizationTable, DeltaTable, lookup, put, add, get_override, override_in, or_base, get,
  delta_or_new, add_delta,
}

lookup-put {ℓ} :
    {A : Type ℓ} (m : List (ℕ × A)) (key other : ℕ) (value : A)
    → lookup (put m key value) other ≡ (if key == other then some value else lookup m other)
unfolding lookup put
lookup-put [] key other value = refl
lookup-put ((k, old) ∷ rest) key other value = ground (arith, lookup-put rest key other value)

get_override-add :
    (d : DeltaTable) (e : DialogueEntry) (id : ℕ)
    → get_override (add d e) id ≡ (if e.id == id then some e else get_override d id)
unfolding get_override add
get_override-add d e id = lookup-put d.entries e.id id e

get_override-delta_or_new :
    (locale id : ℕ) (o : Option DeltaTable)
    → get_override (delta_or_new locale o) id ≡ override_in o id
unfolding delta_or_new override_in get_override
get_override-delta_or_new locale id (some d) = refl
get_override-delta_or_new locale id none = refl

or_base-add_delta :
    (t : LocalizationTable) (locale id : ℕ) (e : DialogueEntry) (o : Option DialogueEntry)
    → or_base (add_delta t locale e) id o ≡ or_base t id o
unfolding or_base add_delta
or_base-add_delta t locale id e (some found) = refl
or_base-add_delta t locale id e none = refl

-- The override behind a delta that got an entry.
override_in-put :
    (t : LocalizationTable) (locale other id : ℕ) (e : DialogueEntry)
    → or_base t id (
        override_in
          (lookup
            (put t.locale_deltas locale
              (add (delta_or_new locale (lookup t.locale_deltas locale)) e))
            other)
          id)
      ≡ (if locale == other && e.id == id
          then some e
          else or_base t id (override_in (lookup t.locale_deltas other) id))
unfolding override_in or_base
override_in-put t locale other id e =
    let delta = delta_or_new locale (lookup t.locale_deltas locale) in
    let found = lookup-put t.locale_deltas locale other (add delta e) in
    elim (Bool-cases (locale == other)) [
      | inr apart ↦ rw (found, apart) refl
      | inl same ↦
          let here = get_override-add delta e id in
          elim (Bool-cases (e.id == id)) [
            | inl hit ↦ rw (found, same, here, hit) refl
            | inr miss ↦
                rw (found, same, here, miss)
                  (ap (or_base t id) (
                    get_override-delta_or_new locale id (lookup t.locale_deltas locale)
                    ∙ ap (λ l. override_in (lookup t.locale_deltas l) id)
                        ((==_iff locale other).0 same)))
          ]
    ]

-- An entry that is added for a language is what that language gets under the id of the entry,
-- unless the language is the base language; every other language and id gets what it got before.
pub get-add_delta :
    (t : LocalizationTable) (locale other id : ℕ) (e : DialogueEntry)
    → get (add_delta t locale e) other id ≡ (
        if not (other == t.base_locale) && (locale == other && e.id == id)
        then some e
        else get t other id)
unfolding get add_delta
get-add_delta t locale other id e = elim (Bool-cases (other == t.base_locale)) [
  | inl base ↦ rw base refl
  | inr differ ↦ rw differ (or_base-add_delta t locale id e _ ∙ override_in-put t locale other id e)
]
