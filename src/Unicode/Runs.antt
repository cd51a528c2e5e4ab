-- ===== src/Unicode/Runs.antt =====
-- Runs of the normalisation, and its theorems at concrete texts.
use alice_text.Prelude.{ℕ, ◌≡◌, refl, ◌↔◌, List, [], ◌∷◌, some, true}
use alice_text.Unicode.{
  nfc, combining_class, decompose_char, compose_pair, decompose, to_nfd, to_nfc, is_normalized,
  drop_combining, strip_accents,
}
use alice_text.Unicode.Facts.{decompose_compose_iff}
use alice_text.Unicode.Ordering.{All, IsOrdered}
use alice_text.Unicode.Normal.{
  IsWhole, normalize, to_nfd_shape, to_nfd-to_nfc, same_normal_forms, is_normalized_iff,
}
use alice_text.Unicode.Strip.{strip_accents_lem}
use alice_text.Unicode.Table.{decomposition_table}

-- "né" with a dot below after the accent.
abbrev dotted : List ℕ
dotted = b'n' ∷ 0xe9 ∷ 0x323 ∷ []

-- The dot, of class 220, goes before the accent, of class 230.
dotted-nfd : to_nfd dotted ≡ b'n' ∷ b'e' ∷ 0x323 ∷ 0x301 ∷ []
unfolding to_nfd combining_class decompose_char decomposition_table
dotted-nfd = refl

-- The dot stands between the letter and its accent, and blocks the composition.
dotted-nfc : to_nfc dotted ≡ b'n' ∷ b'e' ∷ 0x323 ∷ 0x301 ∷ []
unfolding to_nfc combining_class decompose_char compose_pair decomposition_table
dotted-nfc = refl

cafe-nfc : to_nfc (b'c' ∷ b'a' ∷ b'f' ∷ b'e' ∷ 0x301 ∷ []) ≡ b'c' ∷ b'a' ∷ b'f' ∷ 0xe9 ∷ []
unfolding to_nfc combining_class decompose_char compose_pair decomposition_table
cafe-nfc = refl

dotted-strip : strip_accents dotted ≡ b'n' ∷ b'e' ∷ []
unfolding strip_accents combining_class decompose_char decomposition_table
dotted-strip = refl

decompose_compose_iff_example :
    (decompose_char 0xe9 ≡ some (b'e', 0x301)) ↔ (compose_pair b'e' 0x301 ≡ some 0xe9)
decompose_compose_iff_example = decompose_compose_iff 0xe9 b'e' 0x301

to_nfd_shape_example : All IsWhole (to_nfd dotted) × IsOrdered (to_nfd dotted)
to_nfd_shape_example = to_nfd_shape dotted

to_nfd-to_nfc_example : to_nfd (to_nfc dotted) ≡ to_nfd dotted
to_nfd-to_nfc_example = to_nfd-to_nfc dotted

same_normal_forms_example :
    (to_nfc (0xe9 ∷ []) ≡ to_nfc (b'e' ∷ 0x301 ∷ []))
    ↔ (to_nfd (0xe9 ∷ []) ≡ to_nfd (b'e' ∷ 0x301 ∷ []))
same_normal_forms_example = same_normal_forms (0xe9 ∷ []) (b'e' ∷ 0x301 ∷ [])

is_normalized_iff_example :
    (is_normalized dotted nfc ≡ true) ↔ ((t : List ℕ) × (dotted ≡ normalize nfc t))
is_normalized_iff_example = is_normalized_iff dotted nfc

strip_accents_lem_example : strip_accents dotted ≡ drop_combining (decompose dotted)
strip_accents_lem_example = strip_accents_lem dotted
