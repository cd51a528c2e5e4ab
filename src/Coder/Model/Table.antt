-- ===== src/Coder/Model/Table.antt =====
-- A cumulative table: ranges that follow each other, none empty, each symbol once.
use alice_text.Prelude.{
  ℕ, ◌<◌, ◌≤◌, ◌≡◌, ap, inl, inr, List, [], ◌∷◌, none, some, ◌==◌, ==_iff, leb, arith, Bool-cases,
  le→leb, lt→ltb, le→ltb, refl, Option-cases, sym, ◌∙◌,
}
use alice_text.Coder.Model.{FrequencyModel, get_range, Entry, find_entry, find_value}
use mathlib.Core.Option.{some-injective, none-ne-some}

-- The ranges of the table, from `lo` to `hi`.
abbrev pub IsTable : ℕ → List Entry → ℕ → Type 0
IsTable lo [] hi = lo ≡ hi
IsTable lo (e ∷ es) hi =
    (e.low ≡ lo) × (e.low < e.high) × (find_entry es e.symbol ≡ none) × IsTable e.high es hi

-- What is known of an entry that was found.
abbrev pub IsRange : ℕ → ℕ → Entry → ℕ → Type 0
IsRange lo hi e symbol = (lo ≤ e.low) × (e.low < e.high) × (e.high ≤ hi) × (e.symbol ≡ symbol)

IsTable-le : (lo : ℕ) (es : List Entry) (hi : ℕ) → IsTable lo es hi → lo ≤ hi
IsTable-le lo [] hi t = omega (arith, t)
IsTable-le lo (e ∷ es) hi t = omega (arith, IsTable-le e.high es hi t.3, t.0, t.1)

pub find_entry-IsRange :
    (lo : ℕ) (es : List Entry) (hi symbol : ℕ) (e : Entry)
    → IsTable lo es hi
    → find_entry es symbol ≡ some e
    → IsRange lo hi e symbol
unfolding find_entry
find_entry-IsRange lo [] hi symbol e t f = absurd (none-ne-some e f)
find_entry-IsRange lo (d ∷ es) hi symbol e t f = elim (Bool-cases (d.symbol == symbol)) [
  | inl same ↦
      let eq = some-injective d e (rw same at f) in
      let end = IsTable-le d.high es hi t.3 in
      rw (← eq) (omega (arith, t.0), t.1, end, (==_iff d.symbol symbol).0 same)
  | inr other ↦
      let (above, pos, below, named) =
        find_entry-IsRange d.high es hi symbol e t.3 (rw other at f) in
      (omega (arith, t.0, t.1, above), pos, below, named)
]

-- A value in the range of a symbol is found as that symbol.
pub find_value-find_entry :
    (lo : ℕ) (es : List Entry) (hi symbol value : ℕ) (e : Entry)
    → IsTable lo es hi
    → find_entry es symbol ≡ some e
    → e.low ≤ value
    → value < e.high
    → find_value es value ≡ some symbol
unfolding find_entry find_value
find_value-find_entry lo [] hi symbol value e t f above below = absurd (none-ne-some e f)
find_value-find_entry lo (d ∷ es) hi symbol value e t f above below =
    elim (Bool-cases (d.symbol == symbol)) [
      | inl same ↦
          let eq = some-injective d e (rw same at f) in
          let a : d.low ≤ value = rw eq above in
          let b : value < d.high = rw eq below in
          rw (le→leb d.low value a, lt→ltb value d.high b)
            (ap some ((==_iff d.symbol symbol).0 same))
      | inr other ↦
          let found = rw other at f in
          let (after, pos, end, named) = find_entry-IsRange d.high es hi symbol e t.3 found in
          let rest = find_value-find_entry d.high es hi symbol value e t.3 found above below in
          elim (Bool-cases (leb d.low value)) [
            | inl low ↦ rw (low, le→ltb value d.high (omega (arith, after, above))) rest
            | inr high ↦ rw high rest
          ]
    ]

pub get_range-some :
    (m : FrequencyModel) (s : ℕ) (e : Entry)
    → find_entry m.cumulative s ≡ some e
    → get_range m s ≡ some (e.low, e.high, m.total)
unfolding get_range
get_range-some m s e found = rw (found, get_range) refl

pub get_range-none :
    (m : FrequencyModel) (s : ℕ) → find_entry m.cumulative s ≡ none → get_range m s ≡ none
unfolding get_range
get_range-none m s missing = rw (missing, get_range) refl

-- What a range that was found says of the entry.
pub get_range-entry :
    (m : FrequencyModel) (s low high total : ℕ)
    → get_range m s ≡ some (low, high, total)
    → (e : Entry) × (find_entry m.cumulative s ≡ some e)
      × (e.low ≡ low)
      × (e.high ≡ high)
      × (m.total ≡ total)
get_range-entry m s low high total r = elim (Option-cases (find_entry m.cumulative s)) [
  | inl missing ↦ absurd (none-ne-some _ (sym (get_range-none m s missing) ∙ r))
  | inr (e, found) ↦
      let same = some-injective _ _ (sym (get_range-some m s e found) ∙ r) in
      (e, found, ap (λ t. t.0) same, ap (λ t. t.1) same, ap (λ t. t.2) same)
]
