-- ===== src/Coder/Model/Counts.antt =====
-- `from_data`: the table has the counts of the symbols.
use alice_text.Prelude.{
  ℕ, ◌+◌, ◌<◌, ◌≡◌, ◌⊎◌, refl, ap, ◌∙◌, inl, inr, List, [], ◌∷◌, none, some, Bool, true, false,
  ◌==◌, ==_iff, leb, arith, Bool-cases, if◌then◌else◌, length,
}
use mathlib.Core.List.{foldl}
use mathlib.Core.Path.{subst}
use alice_text.Coder.Model.{
  new, add_symbol, build_cumulative, from_data, get_range, FrequencyModel, bump, insert_by_key,
  sort_by_key, cumulate, find_entry,
}
use native.Mathlib.Decide.{dec_lt}
use alice_text.Bytes.{Bytes}
use alice_text.Coder.Model.Table.{IsTable, get_range-some, get_range-none}

abbrev pub one_if : Bool → ℕ
one_if true = 1
one_if false = 0

-- How often a symbol stands in a text.
unfoldable pub count : ℕ → Bytes → ℕ
count s [] = 0
count s (b ∷ bs) = one_if (b == s) + count s bs

-- The frequency of a symbol; 0 if it has none.
frequency : ℕ → List (ℕ × ℕ) → ℕ
frequency s [] = 0
frequency s ((k, n) ∷ rest) = if k == s then n else frequency s rest

sum : List (ℕ × ℕ) → ℕ
sum [] = 0
sum ((k, n) ∷ rest) = n + sum rest

-- Each symbol once, with a positive frequency.
abbrev IsMap : List (ℕ × ℕ) → Type 0
IsMap [] = Unit
IsMap ((k, n) ∷ rest) = (0 < n) × (frequency k rest ≡ 0) × IsMap rest

frequency-bump :
    (t s : ℕ) (ps : List (ℕ × ℕ)) → frequency s (bump t ps) ≡ one_if (t == s) + frequency s ps
unfolding frequency bump
frequency-bump t s [] = ground arith
frequency-bump t s ((k, n) ∷ rest) = ground (arith, frequency-bump t s rest)

sum-bump : (t : ℕ) (ps : List (ℕ × ℕ)) → sum (bump t ps) ≡ sum ps + 1
unfolding sum bump
sum-bump t [] = omega arith
sum-bump t ((k, n) ∷ rest) = elim (Bool-cases (k == t)) [
  | inl e ↦ rw e (omega arith)
  | inr e ↦ rw e (omega (arith, sum-bump t rest))
]

bump-IsMap : (t : ℕ) (ps : List (ℕ × ℕ)) → IsMap ps → IsMap (bump t ps)
unfolding bump
bump-IsMap t [] h = (omega arith, unfold frequency in refl, tt)
bump-IsMap t ((k, n) ∷ rest) h = elim (Bool-cases (k == t)) [
  | inl e ↦ rw e (omega arith, h.1, h.2)
  | inr e ↦ rw e (h.0, new_key k t rest h.1 e, bump-IsMap t rest h.2)
]
  where
    new_key :
        (k t : ℕ) (rest : List (ℕ × ℕ))
        → frequency k rest ≡ 0
        → (k == t) ≡ false
        → frequency k (bump t rest) ≡ 0
    new_key k t rest z e = ground (arith, frequency-bump t k rest)

frequency-tail :
    (k j m : ℕ) (qs : List (ℕ × ℕ))
    → 0 < m
    → frequency k ((j, m) ∷ qs) ≡ 0
    → ((j == k) ≡ false) × (frequency k qs ≡ 0)
unfolding frequency
frequency-tail k j m qs pos z = elim (Bool-cases (j == k)) [
  | inl e ↦ absurd (nonzero m pos (rw e at z))
  | inr e ↦ (e, rw e at z)
]
  where
    nonzero : (m : ℕ) → 0 < m → m ≡ 0 → ⊥
    nonzero m pos z = omega arith

-- Sorting changes no frequency.
frequency-insert_by_key :
    (s k n : ℕ) (qs : List (ℕ × ℕ))
    → frequency k qs ≡ 0
    → IsMap qs
    → frequency s (insert_by_key (k, n) qs) ≡ frequency s ((k, n) ∷ qs)
unfolding frequency insert_by_key
frequency-insert_by_key s k n [] z h = refl
frequency-insert_by_key s k n ((j, m) ∷ qs) z h =
    let (other, zero_tail) = frequency-tail k j m qs h.0 z in
    ground (arith, frequency-insert_by_key s k n qs zero_tail h.2)

insert_by_key-IsMap :
    (k n : ℕ) (qs : List (ℕ × ℕ))
    → 0 < n
    → frequency k qs ≡ 0
    → IsMap qs
    → IsMap (insert_by_key (k, n) qs)
unfolding insert_by_key frequency
insert_by_key-IsMap k n [] pos z h = (pos, z, h)
insert_by_key-IsMap k n ((j, m) ∷ qs) pos z h = elim (Bool-cases (leb k j)) [
  | inl e ↦ rw e (pos, z, h)
  | inr e ↦
      let (other, zero_tail) = frequency-tail k j m qs h.0 z in
      rw e (h.0, new_key other zero_tail, insert_by_key-IsMap k n qs pos zero_tail h.2)
]
  where
    new_key : (j == k) ≡ false → frequency k qs ≡ 0 → frequency j (insert_by_key (k, n) qs) ≡ 0
    new_key other zero_tail = ground (arith, frequency-insert_by_key j k n qs zero_tail h.2, h.1)

sum-insert_by_key : (k n : ℕ) (qs : List (ℕ × ℕ)) → sum (insert_by_key (k, n) qs) ≡ n + sum qs
unfolding sum insert_by_key
sum-insert_by_key k n [] = refl
sum-insert_by_key k n ((j, m) ∷ qs) = elim (Bool-cases (leb k j)) [
  | inl e ↦ rw e refl
  | inr e ↦ rw e (omega (arith, sum-insert_by_key k n qs))
]

sort_by_key_lem :
    (ps : List (ℕ × ℕ))
    → IsMap ps
    → IsMap (sort_by_key ps)
      × (sum (sort_by_key ps) ≡ sum ps)
      × ((s : ℕ) → frequency s (sort_by_key ps) ≡ frequency s ps)
unfolding sort_by_key sum frequency
sort_by_key_lem [] h = (h, refl, λ s. refl)
sort_by_key_lem ((k, n) ∷ ps) h =
    let (is_map, total, same) = sort_by_key_lem ps h.2 in
    let zero_there = same k ∙ h.1 in
    (
      insert_by_key-IsMap k n (sort_by_key ps) h.0 zero_there is_map,
      sum-insert_by_key k n (sort_by_key ps) ∙ ap (λ t. n + t) total,
      λ s.
          frequency-insert_by_key s k n (sort_by_key ps) zero_there is_map
          ∙ ap (λ r. if k == s then n else r) (same s),
    )

-- The table of a list of frequencies.
cumulate-none :
    (c s : ℕ) (ps : List (ℕ × ℕ))
    → IsMap ps
    → frequency s ps ≡ 0
    → find_entry (cumulate c ps) s ≡ none
unfolding cumulate find_entry
cumulate-none c s [] h z = refl
cumulate-none c s ((k, n) ∷ ps) h z =
    let (other, zero_tail) = frequency-tail s k n ps h.0 z in
    rw other (cumulate-none (c + n) s ps h.2 zero_tail)

cumulate-IsTable : (c : ℕ) (ps : List (ℕ × ℕ)) → IsMap ps → IsTable c (cumulate c ps) (c + sum ps)
unfolding cumulate sum
cumulate-IsTable c [] h = omega arith
cumulate-IsTable c ((k, n) ∷ ps) h = (
  refl,
  omega (arith, h.0),
  cumulate-none (c + n) k ps h.2 h.1,
  subst (IsTable (c + n) (cumulate (c + n) ps)) (omega arith) (cumulate-IsTable (c + n) ps h.2),
)

-- The entry of a symbol with a frequency is as wide as the frequency.
cumulate-some :
    (c s : ℕ) (ps : List (ℕ × ℕ))
    → 0 < frequency s ps
    → (low : ℕ) × (find_entry (cumulate c ps) s
        ≡ some (record { symbol = s; low = low; high = low + frequency s ps }))
unfolding cumulate find_entry frequency
cumulate-some c s [] pos = absurd (omega arith)
cumulate-some c s ((k, n) ∷ ps) pos = elim (Bool-cases (k == s)) [
  | inl e ↦ (c, rw (e, (==_iff k s).0 e) refl)
  | inr e ↦ let (low, found) = cumulate-some (c + n) s ps (rw e at pos) in (low, rw e found)
]

-- The model after more symbols.
abbrev Grown : FrequencyModel → Bytes → FrequencyModel → Type 0
Grown m bs r =
    IsMap r.frequencies
    × (r.total ≡ sum r.frequencies)
    × (r.total ≡ length bs + m.total)
    × ((s : ℕ) → frequency s r.frequencies ≡ count s bs + frequency s m.frequencies)

foldl-Grown :
    (m : FrequencyModel) (bs : Bytes)
    → IsMap m.frequencies
    → m.total ≡ sum m.frequencies
    → Grown m bs (foldl add_symbol m bs)
unfolding add_symbol count
foldl-Grown m [] h t = (h, t, omega arith, λ s. omega arith)
foldl-Grown m (b ∷ bs) h t =
    let (is_map, total, grown, same) =
      foldl-Grown (add_symbol m b) bs (bump-IsMap b m.frequencies h)
        (omega (arith, sum-bump b m.frequencies, t)) in
    (
      is_map,
      total,
      omega (arith, grown),
      λ s. omega (arith, same s, frequency-bump b s m.frequencies),
    )

find_entry-from_data :
    (bs : Bytes)
    → IsTable 0 (from_data bs).cumulative (length bs)
      × ((from_data bs).total ≡ length bs)
      × ((s : ℕ)
          → 0 < count s bs
          → (low : ℕ) × (find_entry (from_data bs).cumulative s
              ≡ some (record { symbol = s; low = low; high = low + count s bs })))
      × ((s : ℕ) → count s bs ≡ 0 → find_entry (from_data bs).cumulative s ≡ none)
unfolding from_data build_cumulative sum frequency
find_entry-from_data bs =
    let (is_map, total, grown, same) = foldl-Grown new bs tt refl in
    let m = foldl add_symbol new bs in
    let (sorted, sums, freqs) = sort_by_key_lem m.frequencies is_map in
    let counts : (s : ℕ) → frequency s (sort_by_key m.frequencies) ≡ count s bs =
      λ s. freqs s ∙ omega (arith, same s) in
    (
      subst (IsTable 0 (cumulate 0 (sort_by_key m.frequencies))) (omega (arith, sums, total, grown))
          (cumulate-IsTable 0 (sort_by_key m.frequencies) sorted),
      omega (arith, grown),
      λ s pos.
          let (low, found) =
            cumulate-some 0 s (sort_by_key m.frequencies) (omega (arith, counts s, pos)) in
          (low, rw (← counts s) found),
      λ s z. cumulate-none 0 s (sort_by_key m.frequencies) sorted (counts s ∙ z),
    )

-- Every byte of a text has a range of the table, as wide as its count, and the table goes from 0
-- to the length of the text with no gap; a byte that is not in the text has no range.
pub from_data-IsTable :
    (bs : Bytes)
    → IsTable 0 (from_data bs).cumulative (from_data bs).total
      × ((from_data bs).total ≡ length bs)
      × ((s : ℕ)
          → ((count s bs ≡ 0) × (get_range (from_data bs) s ≡ none))
            ⊎ ((0 < count s bs)
                × ((low : ℕ) × (get_range (from_data bs) s
                      ≡ some (low, low + count s bs, length bs)))))
from_data-IsTable bs =
    let (table, total, found, missing) = find_entry-from_data bs in
    (
      rw total table,
      total,
      λ s. elim (dec_lt 0 (count s bs)) [
        | yes pos ↦
            let (low, e) = found s pos in
            inr (
              pos,
              (
                low,
                get_range-some (from_data bs) s _ e
                    ∙ ap (λ t. some (low, low + count s bs, t)) total,
              ),
            )
        | no n ↦
            let z : count s bs ≡ 0 = omega arith in
            inl (z, get_range-none (from_data bs) s (missing s z))
      ],
    )
