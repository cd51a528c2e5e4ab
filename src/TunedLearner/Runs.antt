-- ===== src/TunedLearner/Runs.antt =====
-- The table of patterns, and restoring a text.
use alice_text.Prelude.{◌≡◌, refl, [], ◌∷◌, same_list, some}
use alice_text.Decimal.{to_decimal}
use alice_text.Columnar.Payload.{number, path}
use alice_text.Query.Text.{codes, lookup}
use alice_text.TunedLearner.{OwnedMatch, group_map, placeholder, restore_from, restore_text}
use alice_text.Wire.Exception.Files.{replace_all, replace_from, strip_needle}

abbrev first_number : OwnedMatch
first_number = record { pattern_type = number; start = 0; end = 2; matched_text = codes "17" }

abbrev then_path : OwnedMatch
then_path = record { pattern_type = path; start = 3; end = 5; matched_text = codes "/a" }

restore_text-pair : restore_text (codes "{0} {1}") (first_number ∷ then_path ∷ []) ≡ codes "17 /a"
unfolding restore_text restore_from placeholder replace_all replace_from strip_needle to_decimal
restore_text-pair = refl

-- A name of a group has its type.
lookup-group_map : lookup (codes "NUMBER") group_map ≡ some number
unfolding lookup group_map same_list
lookup-group_map = refl
