-- ===== src/Dialogue/Lookup.antt =====
-- `DialogueTable::get` after `add`.
use alice_text.Prelude.{
  ℕ, suc, ◌≡◌, List, [], ◌∷◌, ◌++◌, true, length, arith, inl, inr, Bool-cases, sym, length-append,
  ◌∙◌, ◌==◌, ◌%◌, ◌^◌, ==_iff,
}
use mathlib.Core.List.{foldl, append_assoc, append-nil}
use mathlib.Core.Bool.{false≢true}
use mathlib.Core.Path.{subst}
use alice_text.Dialogue.{DialogueEntry}
use alice_text.Dialogue.Table.{DialogueTable, new, add, get}
use alice_text.Dialogue.Search.{
  IsAscending, IsCounting, find_by_id, get_elem?-find_by_id, entry_at-Found, binary_search-Found,
}

foldl-add :
    (t : DialogueTable) (es : List DialogueEntry)
    → ((foldl add t es).entries ≡ t.entries ++ es)
      × ((foldl add t es).contiguous ≡ true
          → (t.contiguous ≡ true) × IsCounting (length t.entries) es)
unfolding add
foldl-add t [] = (sym (append-nil t.entries), λ c. (c, tt))
foldl-add t (e ∷ es) =
    let (entries, counting) = foldl-add (add t e) es in
    let longer : length (t.entries ++ e ∷ []) ≡ suc (length t.entries) =
      omega (arith, length-append t.entries (e ∷ [])) in
    (
      entries ∙ append_assoc t.entries (e ∷ []) es,
      λ c.
          let (first, rest) = counting c in
          elim (Bool-cases (e.id == length t.entries % 2 ^ 32)) [
            | inl same ↦ (
              rw same at first,
              (
                (==_iff e.id (length t.entries % 2 ^ 32)).0 same,
                subst (λ n. IsCounting n es) longer rest,
              ),
            )
            | inr other ↦ absurd (false≢true (rw other at first))
          ],
    )

-- A table to which entries with ascending ids were added finds for every id the entry with the id,
-- and none if there is no such entry, whether it looks the id up directly or searches for it.
pub get-add :
    (es : List DialogueEntry) (id : ℕ)
    → IsAscending es
    → get (foldl add new es) id ≡ find_by_id es id
unfolding get
get-add es id h =
    let t = foldl add new es in
    let (entries, counting) = foldl-add new es in
    elim (Bool-cases t.contiguous) [
      | inl direct ↦
          rw (direct, entries)
            (get_elem?-find_by_id 0 id id es (counting direct).1 h (λ l. omega arith) (omega arith))
      | inr sparse ↦ rw (sparse, entries) (entry_at-Found es id _ h (binary_search-Found es id h))
    ]
