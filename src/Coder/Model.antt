-- ===== src/Coder/Model.antt =====
-- `FrequencyModel`. The map from symbols to frequencies is a list of pairs, each symbol once.
pub mod Table
pub mod Counts
use alice_text.Prelude.{
  ℕ, ◌+◌, List, [], ◌∷◌, Option, none, some, Bool, true, false, ◌==◌, leb, ltb, ◌&&◌, if◌then◌else◌,
}
use mathlib.Core.List.{foldl}
use alice_text.Bytes.{Bytes}

pub record Entry : Type 0 where
  pub symbol : ℕ
  pub low : ℕ
  pub high : ℕ

pub record FrequencyModel : Type 0 where
  pub frequencies : List (ℕ × ℕ)
  pub total : ℕ
  pub cumulative : List Entry

abbrev pub new : FrequencyModel
new = record { frequencies = []; total = 0; cumulative = [] }

-- `*entry(symbol).or_insert(0) += 1`
unfoldable pub bump : ℕ → List (ℕ × ℕ) → List (ℕ × ℕ)
bump symbol [] = (symbol, 1) ∷ []
bump symbol ((s, n) ∷ rest) = if s == symbol then (s, n + 1) ∷ rest else (s, n) ∷ bump symbol rest

unfoldable pub add_symbol : FrequencyModel → ℕ → FrequencyModel
unfolding bump
add_symbol m symbol = record m { frequencies = bump symbol m.frequencies; total = m.total + 1 }

-- `sort_by_key(|(k, _)| *k)`
unfoldable pub insert_by_key : ℕ × ℕ → List (ℕ × ℕ) → List (ℕ × ℕ)
insert_by_key p [] = p ∷ []
insert_by_key p (q ∷ qs) = if leb p.0 q.0 then p ∷ q ∷ qs else q ∷ insert_by_key p qs

unfoldable pub sort_by_key : List (ℕ × ℕ) → List (ℕ × ℕ)
unfolding insert_by_key
sort_by_key [] = []
sort_by_key (p ∷ ps) = insert_by_key p (sort_by_key ps)

-- The loop over the sorted symbols.
unfoldable pub cumulate : ℕ → List (ℕ × ℕ) → List Entry
cumulate cumsum [] = []
cumulate cumsum ((symbol, freq) ∷ rest) =
    record { symbol = symbol; low = cumsum; high = cumsum + freq } ∷ cumulate (cumsum + freq) rest

unfoldable pub build_cumulative : FrequencyModel → FrequencyModel
unfolding cumulate sort_by_key
build_cumulative m = record m { cumulative = cumulate 0 (sort_by_key m.frequencies) }

unfoldable pub from_data : Bytes → FrequencyModel
unfolding add_symbol build_cumulative
from_data bytes = build_cumulative (foldl add_symbol new bytes)

-- The first entry of the symbol.
unfoldable pub find_entry : List Entry → ℕ → Option Entry
find_entry [] symbol = none
find_entry (e ∷ es) symbol = if e.symbol == symbol then some e else find_entry es symbol

-- Low, high and total.
unfoldable pub get_range : FrequencyModel → ℕ → Option (ℕ × ℕ × ℕ)
unfolding find_entry
get_range m symbol = elim (find_entry m.cumulative symbol) [
  | some e ↦ some (e.low, e.high, m.total)
  | none ↦ none
]

-- The first entry whose range has the value.
unfoldable pub find_value : List Entry → ℕ → Option ℕ
find_value [] value = none
find_value (e ∷ es) value =
    if leb e.low value && ltb value e.high then some e.symbol else find_value es value

-- After the loop: the last entry, if the value is its high end.
unfoldable pub last_value : List Entry → ℕ → Option ℕ
last_value [] value = none
last_value (e ∷ []) value = if value == e.high then some e.symbol else none
last_value (e ∷ f ∷ es) value = last_value (f ∷ es) value

unfoldable pub get_symbol : FrequencyModel → ℕ → Option ℕ
unfolding find_value last_value
get_symbol m value = elim (find_value m.cumulative value) [
  | some symbol ↦ some symbol
  | none ↦ last_value m.cumulative value
]

unfoldable pub is_empty : FrequencyModel → Bool
is_empty m = m.total == 0
