-- ===== src/Search/Hits.antt =====
-- What the hits of a search are, when the index locates the pattern.
use alice_text.Prelude.{
  ℕ, List, [], ◌∷◌, ◌++◌, ◌≡◌, ◌<◌, ◌+◌, length, map, arith, refl, ap, inl, inr, length-append,
  take, drop, take-append-drop, length-take, length-drop, take-append_all, drop-append_all, sym,
  ◌∙◌, ◌-◌, ◌^◌,
}
use Prim.Native.Nat.{min}
use mathlib.Core.Path.{ap₂}
use mathlib.Core.List.{append_assoc}
use alice_text.Bytes.{Bytes, slice}
use alice_text.Error.{Result, ok}
use alice_text.Columnar.Foreign.{Foreign}
use alice_text.Container.{Codecs}
use alice_text.Container.Entry
use alice_text.Query.Scan.{Occurs}
use alice_text.Search.{
  SearchHit, FmIndex, CompressedSearchIndex, build_from_text, build_from_compressed, hit, search,
}

-- The pattern stands in the text at the offset.
abbrev pub StandsAt : Bytes → Bytes → ℕ → Type 0
StandsAt s query offset =
    (before : Bytes) × (after : Bytes) × (s ≡ before ++ (query ++ after)) × (offset ≡ length before)

-- The index of a text locates a pattern only where it stands.
pub record IsFmIndex (fm : FmIndex) : Type 0 where
  pub located :
      (s query : Bytes) (k : ℕ) → Occurs k (fm.locate (fm.build s) query) → StandsAt s query k

-- The window of a hit is the pattern between two parts of the text: on its left as many bytes as
-- the radius or the text before it has, whichever is less, and on its right the same of what
-- follows it.
pub record IsWindow (s query : Bytes) (radius : ℕ) (h : SearchHit) : Type 0 where
  pub left : Bytes
  pub right : Bytes
  pub shows : slice h.context_start h.context_end s ≡ left ++ (query ++ right)
  pub place : h.context_start + length left ≡ h.offset
  pub length_left : length left ≡ min radius h.offset
  pub length_right : length right ≡ min radius (length s - (h.offset + length query))

abbrev pub AllWindows : Bytes → Bytes → ℕ → List SearchHit → Type 0
AllWindows s query radius [] = Unit
AllWindows s query radius (h ∷ hs) = IsWindow s query radius h × AllWindows s query radius hs

-- A part in the middle of a text is the slice at its place.
slice-append :
    (i j : ℕ) (front part back : Bytes)
    → i ≡ length front
    → j ≡ length front + length part
    → slice i j (front ++ (part ++ back)) ≡ part
slice-append i j front part back e f =
    ap (take (j - i)) (drop-append_all front (part ++ back) (sym e))
    ∙ take-append_all part back (omega arith)

-- The text around a pattern, with the parts of the window apart.
parted :
    (n m : ℕ) (before query after : Bytes)
    → before ++ (query ++ after)
      ≡ take n before ++ ((drop n before ++ (query ++ take m after)) ++ drop m after)
parted n m before query after =
    sym (ap₂ (λ x y. x ++ (query ++ y)) (take-append-drop n before) (take-append-drop m after))
    ∙ append_assoc (take n before) (drop n before) _
    ∙ ap (λ x. take n before ++ x)
        (ap (λ x. drop n before ++ x) (sym (append_assoc query (take m after) (drop m after)))
          ∙ sym (append_assoc (drop n before) (query ++ take m after) (drop m after)))

hit-IsWindow :
    (s query : Bytes) (radius k : ℕ)
    → length s + radius < 2 ^ 64
    → StandsAt s query k
    → IsWindow s query radius (hit (length s) (length query) radius k)
unfolding hit
hit-IsWindow s query radius k few (before, after, e, at) =
    let n = k - radius in
    let left = drop n before in
    let right = take radius after in
    let size : length s ≡ length before + (length query + length after) =
      ap length e
      ∙ length-append before (query ++ after)
      ∙ ap (λ l. length before + l) (length-append query after) in
    let size_left = length-drop n before in
    let size_right = length-take radius after in
    let size_part : length (left ++ (query ++ right))
        ≡ length left + (length query + length right) =
      length-append left (query ++ right) ∙ ap (λ l. length left + l) (length-append query right) in
    let size_front = length-take n before in
    record {
      left = left;
      right = right;
      shows =
          ap (slice n _) (e ∙ parted n radius before query after)
          ∙ slice-append n _ (take n before) (left ++ (query ++ right)) (drop radius after)
              (omega arith) (omega arith);
      place = omega arith;
      length_left = omega arith;
      length_right = omega arith;
    }

hits-AllWindows :
    (s query : Bytes) (radius : ℕ) (ks : List ℕ)
    → length s + radius < 2 ^ 64
    → ((k : ℕ) → Occurs k ks → StandsAt s query k)
    → AllWindows s query radius (map (hit (length s) (length query) radius) ks)
hits-AllWindows s query radius [] few stands = tt
hits-AllWindows s query radius (k ∷ ks) few stands = (
  hit-IsWindow s query radius k few (stands k (inl refl)),
  hits-AllWindows s query radius ks few (λ j o. stands j (inr o)),
)

offset-hit :
    (text_len query_len radius : ℕ) (ks : List ℕ)
    → map SearchHit.offset (map (hit text_len query_len radius) ks) ≡ ks
unfolding hit
offset-hit text_len query_len radius [] = refl
offset-hit text_len query_len radius (k ∷ ks) = ap (◌∷◌ k) (offset-hit text_len query_len radius ks)

module _ (fm : FmIndex) (foreign : Foreign) (codecs : Codecs foreign) where
  -- Let the index locate a pattern only where it stands in the text of the index. Let some
  -- compressed bytes decompress to a text, and the length of the text and the radius be less than
  -- 2^64 together. Then the bytes give an index, its search has one hit for each offset that is
  -- located in the text, in that order, and the window of each hit is the pattern between two
  -- parts of the text: as many bytes on either side as the radius, or as many as the text has
  -- there if these are less.
  pub search-build_from_compressed :
      (decode_from_bytes : Bytes → Result Bytes) (compressed whole query : Bytes) (radius : ℕ)
      → IsFmIndex fm
      → Entry.decompress foreign codecs decode_from_bytes compressed ≡ ok whole
      → length whole + radius < 2 ^ 64
      → (c : CompressedSearchIndex fm) × (build_from_compressed fm foreign codecs decode_from_bytes
            compressed
          ≡ ok c)
        × (map SearchHit.offset (search fm c query radius) ≡ fm.locate (fm.build whole) query)
        × AllWindows whole query radius (search fm c query radius)
  unfolding build_from_compressed build_from_text search
  search-build_from_compressed decode_from_bytes compressed whole query radius laws e few =
      let ks = fm.locate (fm.build whole) query in
      (
        build_from_text fm whole,
        rw e refl,
        offset-hit (length whole) (length query) radius ks,
        hits-AllWindows whole query radius ks few (laws.located whole query),
      )
