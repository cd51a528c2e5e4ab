-- ===== src/Dialogue.antt =====
-- `src/dialogue.rs`: dialogue entries, the dictionary of speakers, the table of entries, the tables
-- of other languages over it, and the archive format. A text is the list of its code points, and a
-- `HashMap` is a list of pairs in which each key stands once, the oldest first.
pub mod Speakers
pub mod Table
pub mod Locales
pub mod Archive
mod Runs
pub mod Search
pub mod Lookup
use alice_text.Prelude.{
  ℕ, ◌+◌, ◌*◌, ◌/◌, ◌%◌, ◌^◌, List, [], ◌∷◌, ◌++◌, Option, none, some, Bool, ◌==◌, leb, ltb,
  if◌then◌else◌,
}
use Prim.Native.Nat.{bit_xor}
use mathlib.Core.List.{foldl}
use alice_text.Bytes.{Bytes, to_le}

abbrev pub Text : Type 0
Text = List ℕ

-- `text.as_bytes()`: UTF-8.
unfoldable pub char_bytes : ℕ → Bytes
char_bytes c =
    if ltb c 0x80
    then c ∷ []
    else if ltb c 0x800
    then (0xc0 + c / 0x40) ∷ (0x80 + c % 0x40) ∷ []
    else if ltb c 0x10000
    then (0xe0 + c / 0x1000) ∷ (0x80 + c / 0x40 % 0x40) ∷ (0x80 + c % 0x40) ∷ []
    else (0xf0 + c / 0x40000)
      ∷ (0x80 + c / 0x1000 % 0x40)
      ∷ (0x80 + c / 0x40 % 0x40)
      ∷ (0x80 + c % 0x40)
      ∷ []

unfoldable pub as_bytes : Text → Bytes
unfolding char_bytes
as_bytes [] = []
as_bytes (c ∷ text) = char_bytes c ++ as_bytes text

unfoldable pub fnv1a : Bytes → ℕ
fnv1a bytes = foldl (λ h b. bit_xor h b * 0x00000100000001b3 % 2 ^ 64) 0xcbf29ce484222325 bytes

pub record RubyAnnotation : Type 0 where
  pub base_start : ℕ
  pub base_len : ℕ
  pub ruby_text : Text

pub record DialogueEntry : Type 0 where
  pub id : ℕ
  pub speaker : ℕ
  pub text : Text
  pub ruby : Option (List RubyAnnotation)

-- `sort_unstable` on characters.
unfoldable pub insert_char : ℕ → List ℕ → List ℕ
insert_char c [] = c ∷ []
insert_char c (d ∷ ds) = if leb c d then c ∷ d ∷ ds else d ∷ insert_char c ds

unfoldable pub sort_chars : List ℕ → List ℕ
unfolding insert_char
sort_chars [] = []
sort_chars (c ∷ cs) = insert_char c (sort_chars cs)

-- `dedup`
unfoldable pub dedup_from : ℕ → List ℕ → List ℕ
dedup_from c [] = c ∷ []
dedup_from c (d ∷ ds) = if c == d then dedup_from c ds else c ∷ dedup_from d ds

unfoldable pub dedup : List ℕ → List ℕ
unfolding dedup_from
dedup [] = []
dedup (c ∷ cs) = dedup_from c cs

-- The characters of the texts.
unfoldable pub text_chars : List DialogueEntry → List ℕ
text_chars [] = []
text_chars (e ∷ es) = e.text ++ text_chars es

-- The bytes that a table hashes.
unfoldable pub hash_bytes : List DialogueEntry → Bytes
unfolding as_bytes
hash_bytes [] = []
hash_bytes (e ∷ es) = to_le 4 e.id ++ (as_bytes e.text ++ hash_bytes es)
