-- ===== src/Search/Runs.antt =====
-- The search at a concrete text, with an index that tries every place.
use alice_text.Prelude.{
  ℕ, zero, suc, List, [], ◌∷◌, ◌++◌, ◌≡◌, ◌∙◌, length, map, arith, refl, ap, get_elem?, some, none,
}
use mathlib.Core.Option.{some-injective}
use alice_text.Bytes.{Bytes}
use alice_text.Error.{ok}
use alice_text.Container.Entry
use alice_text.Container.{Codecs}
use alice_text.Columnar.Runs.{sample}
use alice_text.Query.{scan_from}
use alice_text.Query.Text.{codes, starts_with}
use alice_text.Query.Strings.{starts_with-Begins}
use alice_text.Query.Scan.{scan_from-exact}
use alice_text.Search.Hits.{IsFmIndex, AllWindows, search-build_from_compressed}
use alice_text.Search.{FmIndex, SearchHit, CompressedSearchIndex, build_from_compressed, search}

-- The ends of a text, from each of its places on.
abbrev suffixes : Bytes → List Bytes
suffixes [] = [] ∷ []
suffixes (a ∷ s) = (a ∷ s) ∷ suffixes s

suffix_at :
    (s v : Bytes) (k : ℕ)
    → get_elem? (suffixes s) k ≡ some v
    → (before : Bytes) × (s ≡ before ++ v) × (k ≡ length before)
suffix_at [] v zero e = ([], some-injective [] v e, refl)
suffix_at [] v (suc k) e = cc
suffix_at (a ∷ s) v zero e = ([], some-injective (a ∷ s) v e, refl)
suffix_at (a ∷ s) v (suc k) e =
    let (before, q, l) = suffix_at s v k e in (a ∷ before, ap (◌∷◌ a) q, omega arith)

abbrev places : FmIndex
places = record {
  Index = Bytes;
  build = λ s. s;
  count = λ s query. length (scan_from 0 (λ v. starts_with v query) (suffixes s));
  locate = λ s query. scan_from 0 (λ v. starts_with v query) (suffixes s);
}

places-IsFmIndex : IsFmIndex places
places-IsFmIndex = record {
  located = λ s query k o.
      let exact = (scan_from-exact (λ v. starts_with v query) (suffixes s)).1 k in
      let (v, e, begins) = exact.0 o in
      let (before, q, l) = suffix_at s v k e in
      let (after, r) = starts_with-Begins v query begins in
      (before, after, q ∙ ap (λ w. before ++ w) r, l);
}

-- The pattern stands in two places.
locate-places : places.locate (codes "abcab") (codes "ab") ≡ 0 ∷ 3 ∷ []
unfolding scan_from starts_with
locate-places = refl

-- Nothing that the older format needs.
abbrev silent : Codecs sample
silent = record {
  serialize = λ _. none;
  deserialize = λ _. none;
  encode_all = λ _ _. none;
  decode_all = λ _. none;
}

-- A short file is in the older format; the decoder here returns it.
old-text : Entry.decompress sample silent (λ b. ok b) (codes "abcab") ≡ ok (codes "abcab")
unfolding Entry.decompress
old-text = refl

search-build_from_compressed_example :
    (c : CompressedSearchIndex places) × (build_from_compressed places sample silent
        (λ b. ok b)
        (codes "abcab")
      ≡ ok c)
    × (map SearchHit.offset (search places c (codes "ab") 1)
        ≡ places.locate (codes "abcab") (codes "ab"))
    × AllWindows (codes "abcab") (codes "ab") 1 (search places c (codes "ab") 1)
search-build_from_compressed_example =
    search-build_from_compressed places sample silent (λ b. ok b) (codes "abcab") (codes "abcab")
      (codes "ab") 1 places-IsFmIndex old-text (omega arith)
