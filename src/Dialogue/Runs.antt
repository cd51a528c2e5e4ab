-- ===== src/Dialogue/Runs.antt =====
-- The dialogue store on small tables.
use alice_text.Prelude.{
  ℕ, ◌≡◌, refl, List, [], ◌∷◌, Option, none, some, Bool, true, false, arith, sym, ap, ◌∙◌,
}
use mathlib.Core.List.{foldl}
use mathlib.Core.Option.{none-ne-some, some-injective}
use alice_text.Bytes.{Bytes}
use alice_text.Error.{ok}
use alice_text.Dialogue.{Text, DialogueEntry}
use alice_text.Dialogue.Speakers
use alice_text.Dialogue.Speakers.{SpeakerDictionary}
use alice_text.Dialogue.Speakers.Index.{numbered, IsIndexed, Inserted, insert-IsIndexed}
use alice_text.Dialogue.Table
use alice_text.Dialogue.Table.{DialogueTable}
use alice_text.Dialogue.Search.{find_by_id}
use alice_text.Dialogue.Lookup.{get-add}
use alice_text.Dialogue.Locales.{LocalizationTable, DeltaTable}
use alice_text.Dialogue.Archive.{
  Codecs, balanced, archive, compress_table, decompress_table, compress_localization,
  decompress_localization,
}
use alice_text.Dialogue.Archive.RoundTrip.{IsCodecs, without_index, decompress_table-compress_table}

abbrev line : ℕ → Text → DialogueEntry
line id text = record { id = id; speaker = 0; text = text; ruby = none }

-- Three entries whose ids do not count from 0.
abbrev sparse : List DialogueEntry
sparse = line 2 (0x61 ∷ []) ∷ line 5 (0x62 ∷ []) ∷ line 9 [] ∷ []

get-add_example : Table.get (foldl Table.add Table.new sparse) 5 ≡ find_by_id sparse 5
get-add_example = get-add sparse 5 ((omega arith, (omega arith, tt)), ((omega arith, tt), (tt, tt)))

find_sparse : find_by_id sparse 5 ≡ some (line 5 (0x62 ∷ []))
unfolding find_by_id
find_sparse = refl

abbrev one_speaker : SpeakerDictionary
one_speaker = record { names = (0x41 ∷ []) ∷ []; index = (0x41 ∷ [], 0) ∷ [] }

one_speaker-IsIndexed : IsIndexed one_speaker
unfolding numbered
one_speaker-IsIndexed = record { index = refl; distinct = (tt, tt) }

insert-IsIndexed_example :
    Inserted one_speaker (0x42 ∷ []) (Speakers.insert one_speaker (0x42 ∷ []))
insert-IsIndexed_example =
    insert-IsIndexed one_speaker (0x42 ∷ []) one_speaker-IsIndexed (omega arith)

-- A codec for tables of one speaker and no entries; it stores the hash and the name.
abbrev write_parts : List Text → List DialogueEntry → Bool → ℕ → Option Bytes
write_parts (n ∷ []) [] true hash = some (hash ∷ n)
write_parts _ _ _ _ = none

abbrev table_of : ℕ → Text → DialogueTable
table_of hash n = record {
  speakers = record { names = n ∷ []; index = [] };
  entries = [];
  contiguous = true;
  content_hash = hash;
}

abbrev write : DialogueTable → Option Bytes
write t = write_parts t.speakers.names t.entries t.contiguous t.content_hash

abbrev read : Bytes → Option DialogueTable
read [] = none
read (hash ∷ n) = some (table_of hash n)

abbrev write_locale : ℕ → List (ℕ × DeltaTable) → Option Bytes → Option Bytes
write_locale locale [] (some b) = some (locale ∷ b)
write_locale locale _ _ = none

abbrev write_locales : LocalizationTable → Option Bytes
write_locales t = write_locale t.base_locale t.locale_deltas (write t.base_table)

abbrev read_locale : ℕ → Option DialogueTable → Option LocalizationTable
read_locale locale (some t) =
    some (record { base_locale = locale; base_table = t; locale_deltas = [] })
read_locale locale none = none

abbrev read_locales : Bytes → Option LocalizationTable
read_locales [] = none
read_locales (locale ∷ b) = read_locale locale (read b)

abbrev codecs : Codecs
codecs = record {
  serialize_table = write;
  deserialize_table = read;
  serialize_localization = write_locales;
  deserialize_localization = read_locales;
  encode_all = λ level b. some b;
  decode_all = some;
}

read-write_parts :
    (names : List Text) (entries : List DialogueEntry) (contiguous : Bool) (hash : ℕ) (b : Bytes)
    → write_parts names entries contiguous hash ≡ some b
    → read b
      ≡ some (record {
        speakers = record { names = names; index = [] };
        entries = entries;
        contiguous = contiguous;
        content_hash = hash;
      })
read-write_parts [] entries contiguous hash b h = absurd (none-ne-some b h)
read-write_parts (n ∷ m ∷ names) entries contiguous hash b h = absurd (none-ne-some b h)
read-write_parts (n ∷ []) (e ∷ entries) contiguous hash b h = absurd (none-ne-some b h)
read-write_parts (n ∷ []) [] false hash b h = absurd (none-ne-some b h)
read-write_parts (n ∷ []) [] true hash b h = ap read (sym (some-injective (hash ∷ n) b h))

read-write : (t : DialogueTable) (b : Bytes) → write t ≡ some b → read b ≡ some (without_index t)
read-write t b h = read-write_parts t.speakers.names t.entries t.contiguous t.content_hash b h

read-write_locale :
    (locale : ℕ) (deltas : List (ℕ × DeltaTable)) (t : DialogueTable) (o : Option Bytes) (b : Bytes)
    → write t ≡ o
    → write_locale locale deltas o ≡ some b
    → read_locales b
      ≡ some (record { base_locale = locale; base_table = without_index t; locale_deltas = deltas })
read-write_locale locale deltas t none b e h = absurd (none-ne-some b (nothing deltas ∙ h))
  where
    nothing : (deltas : List (ℕ × DeltaTable)) → none ≡ write_locale locale deltas none
    nothing [] = refl
    nothing (d ∷ deltas) = refl
read-write_locale locale (d ∷ deltas) t (some c) b e h = absurd (none-ne-some b h)
read-write_locale locale [] t (some c) b e h =
    ap read_locales (sym (some-injective (locale ∷ c) b h))
    ∙ ap (read_locale locale) (read-write t c e)

codecs-IsCodecs : IsCodecs codecs
codecs-IsCodecs = record {
  deserialize_table-serialize_table = read-write;
  deserialize_localization-serialize_localization = λ t b h.
      read-write_locale t.base_locale t.locale_deltas t.base_table (write t.base_table) b refl h;
  decode_all-encode_all = λ level b z h. sym h;
}

abbrev empty_table : DialogueTable
empty_table = record { speakers = one_speaker; entries = []; contiguous = true; content_hash = 0 }

abbrev empty_locales : LocalizationTable
empty_locales = record { base_locale = 1; base_table = empty_table; locale_deltas = [] }

decompress_table-compress_table_example :
    (compress_table codecs balanced empty_table ≡ ok (archive 1 balanced (0 ∷ 0x41 ∷ [])))
    × (decompress_table codecs (archive 1 balanced (0 ∷ 0x41 ∷ [])) ≡ ok empty_table)
    × (compress_localization codecs balanced empty_locales
        ≡ ok (archive 2 balanced (1 ∷ 0 ∷ 0x41 ∷ [])))
    × (decompress_localization codecs (archive 2 balanced (1 ∷ 0 ∷ 0x41 ∷ [])) ≡ ok empty_locales)
decompress_table-compress_table_example =
    decompress_table-compress_table codecs balanced empty_locales (0 ∷ 0x41 ∷ [])
      (1 ∷ 0 ∷ 0x41 ∷ []) (0 ∷ 0x41 ∷ []) (1 ∷ 0 ∷ 0x41 ∷ []) codecs-IsCodecs one_speaker-IsIndexed
      refl refl refl refl (omega arith) (omega arith)
