-- ===== src/Query/Names.antt =====
-- `name_to_type` takes exactly the names that the directory prints, and agrees with them.
use alice_text.Prelude.{
  same_list, true, Bool, inl, inr, List, [], ◌∷◌, some, ◌≡◌, Bool-cases, ◌↔◌, refl, sym, ap, ◌∙◌,
  same_list→eq, ◌&&◌,
}
use mathlib.Core.Bool.{false≢true}
use mathlib.Core.Option.{some-injective}
use mathlib.Core.Path.{subst}
use alice_text.Bytes.{Bytes}
use alice_text.Error.{ok, decompression_error}
use alice_text.Error.Laws.{or_error-ok}
use alice_text.Wire.Columns.Types.{
  ColumnType, name, skeleton, placeholder_map, timestamps, ipv4, ipv6, log_levels, numbers, uuids,
  emails, urls, paths, date_days, dates_raw, time_ms, times_raw, hex_values, others, timestamps_raw,
}
use alice_text.Query.{name_arms, name_to_type}
use alice_text.Query.Text.{codes, lookup}

-- Every arm's text is the name of its type.
all_named : List (Bytes × ColumnType) → Bool
all_named [] = true
all_named ((s, t) ∷ arms) = same_list (codes (name t)) s && all_named arms

lookup-all_named :
    (s : Bytes) (t : ColumnType) (arms : List (Bytes × ColumnType))
    → all_named arms ≡ true
    → lookup s arms ≡ some t
    → codes (name t) ≡ s
unfolding all_named lookup
lookup-all_named s t [] h e = cc
lookup-all_named s t ((r, u) ∷ arms) h e = elim (Bool-cases (same_list (codes (name u)) r)) [
  | inr other ↦ absurd (false≢true (rw other at h))
  | inl named ↦ elim (Bool-cases (same_list r s)) [
    | inl same ↦
        ap (λ w. codes (name w)) (sym (some-injective u t (rw same at e)))
        ∙ same_list→eq (codes (name u)) r named
        ∙ same_list→eq r s same
    | inr other ↦ lookup-all_named s t arms (rw named at h) (rw other at e)
  ]
]

arms-named : all_named name_arms ≡ true
unfolding all_named name same_list
arms-named = refl

name_to_type-name : (t : ColumnType) → name_to_type (codes (name t)) ≡ ok t
unfolding name_to_type lookup name same_list
name_to_type-name skeleton = refl
name_to_type-name placeholder_map = refl
name_to_type-name timestamps = refl
name_to_type-name ipv4 = refl
name_to_type-name ipv6 = refl
name_to_type-name log_levels = refl
name_to_type-name numbers = refl
name_to_type-name uuids = refl
name_to_type-name emails = refl
name_to_type-name urls = refl
name_to_type-name paths = refl
name_to_type-name date_days = refl
name_to_type-name dates_raw = refl
name_to_type-name time_ms = refl
name_to_type-name times_raw = refl
name_to_type-name hex_values = refl
name_to_type-name others = refl
name_to_type-name timestamps_raw = refl

-- A text is taken as the name of a column exactly when it is the name that the column has in the
-- directory.
pub name_to_type_iff : (s : Bytes) (t : ColumnType) → (name_to_type s ≡ ok t) ↔ (s ≡ codes (name t))
unfolding name_to_type
name_to_type_iff s t = (
  λ h. sym (
      lookup-all_named s t name_arms arms-named
        (or_error-ok (lookup s name_arms) (decompression_error "Unknown column") h)),
  λ e. subst (λ r. name_to_type r ≡ ok t) (sym e) (name_to_type-name t),
)
