-- ===== src/Dialogue/Speakers/Rebuild.antt =====
-- `rebuild_index` after a dictionary was read without its index.
use alice_text.Prelude.{
  ℕ, suc, ◌≡◌, ◌%◌, ◌^◌, refl, List, [], ◌∷◌, ◌++◌, none, false, same_list, inl, inr, Bool-cases,
  arith, sym, ap, ◌∙◌, ◌+◌,
}
use mathlib.Core.List.{append_assoc, append-nil}
use mathlib.Core.Path.{ap₂}
use mathlib.Core.Option.{none-ne-some}
use alice_text.Dialogue.{Text}
use alice_text.Dialogue.Speakers.{SpeakerDictionary, index_of, reindex, rebuild_index}
use alice_text.Dialogue.Speakers.Index.{numbered, IsOther, IsDistinct, IsIndexed, put-snoc}

-- No name of the list is in the index.
abbrev IsFresh : List (Text × ℕ) → List Text → Type 0
IsFresh m [] = Unit
IsFresh m (n ∷ ns) = (index_of m n ≡ none) × IsFresh m ns

index_of-snoc :
    (m : List (Text × ℕ)) (key name : Text) (idx : ℕ)
    → index_of m name ≡ none
    → same_list key name ≡ false
    → index_of (m ++ (key, idx) ∷ []) name ≡ none
unfolding index_of
index_of-snoc [] key name idx h differ = rw differ refl
index_of-snoc ((k, old) ∷ m) key name idx h differ = elim (Bool-cases (same_list k name)) [
  | inl same ↦ absurd (none-ne-some old (sym (rw same at h)))
  | inr other ↦ rw other (index_of-snoc m key name idx (rw other at h) differ)
]

IsFresh-snoc :
    (m : List (Text × ℕ)) (key : Text) (idx : ℕ) (ns : List Text)
    → IsFresh m ns
    → IsOther key ns
    → IsFresh (m ++ (key, idx) ∷ []) ns
IsFresh-snoc m key idx [] f o = tt
IsFresh-snoc m key idx (n ∷ ns) f o =
    (index_of-snoc m key n idx f.0 o.0, IsFresh-snoc m key idx ns f.1 o.1)

IsFresh-nil : (ns : List Text) → IsFresh [] ns
unfolding index_of
IsFresh-nil [] = tt
IsFresh-nil (n ∷ ns) = (refl, IsFresh-nil ns)

reindex-numbered :
    (i : ℕ) (names : List Text) (m : List (Text × ℕ))
    → IsFresh m names
    → IsDistinct names
    → reindex i names m ≡ m ++ numbered i names
unfolding reindex numbered
reindex-numbered i [] m f d = sym (append-nil m)
reindex-numbered i (n ∷ names) m f d =
    let next : i + 1 ≡ suc i = omega arith in
    ap₂ (λ j r. reindex j names r) next (put-snoc m n (i % 2 ^ 16) f.0)
    ∙ reindex-numbered (suc i) names (m ++ (n, i % 2 ^ 16) ∷ []) (IsFresh-snoc m n _ names f.1 d.0)
        d.1
    ∙ append_assoc m ((n, i % 2 ^ 16) ∷ []) (numbered (suc i) names)

pub rebuild_index-IsIndexed :
    (d : SpeakerDictionary) → IsIndexed d → rebuild_index (record d { index = [] }) ≡ d
unfolding rebuild_index
rebuild_index-IsIndexed d h =
    ap (λ m. record d { index = m })
      (reindex-numbered 0 d.names [] (IsFresh-nil d.names) h.distinct ∙ sym h.index)
