-- ===== src/Columnar/Matches/Sorted.antt =====
-- Sorting matches that do not meet puts them one behind the other.
use alice_text.Prelude.{
  ℕ, ◌<◌, ◌≤◌, ◌≡◌, refl, inl, inr, List, [], ◌∷◌, ◌⊎◌, leb, length, arith, map, Bool-cases, leb→le,
  leb→gt,
}
use alice_text.Bytes.{Bytes, slice}
use alice_text.Columnar.Matches.{
  Group, TunedMatch, match_of, insert, sort, find_matches, claim, uncovered, Bool,
}
use alice_text.Columnar.Matches.Order.{
  CapturesInside, Free, Apart, Disjoint, claim_lem, length-uncovered,
}

-- A match is a non-empty stretch of the text, with its text.
abbrev pub IsMatch : Bytes → TunedMatch → Type 0
IsMatch whole m =
    (m.start < m.end) × (m.end ≤ length whole) × (m.matched_text ≡ slice m.start m.end whole)

-- Each match begins where the one before has ended, or later.
abbrev pub InOrder : Bytes → ℕ → List TunedMatch → Type 0
InOrder whole last_end [] = Unit
InOrder whole last_end (m ∷ ms) = (last_end ≤ m.start) × IsMatch whole m × InOrder whole m.end ms

abbrev Outside : ℕ → ℕ → List TunedMatch → Type 0
Outside s e [] = Unit
Outside s e (m ∷ ms) = ((e ≤ m.start) ⊎ (m.end ≤ s)) × Outside s e ms

Outside-insert :
    (s e : ℕ) (m : TunedMatch) (ns : List TunedMatch)
    → (e ≤ m.start) ⊎ (m.end ≤ s)
    → Outside s e ns
    → Outside s e (insert m ns)
unfolding insert
Outside-insert s e m [] h o = (h, tt)
Outside-insert s e m (n ∷ ns) h o = elim (Bool-cases (leb m.start n.start)) [
  | inl t ↦ rw t (h, o)
  | inr f ↦ rw f (o.0, Outside-insert s e m ns h o.1)
]

insert_lem :
    (whole : Bytes) (last_end : ℕ) (m : TunedMatch) (ns : List TunedMatch)
    → last_end ≤ m.start
    → IsMatch whole m
    → Outside m.start m.end ns
    → InOrder whole last_end ns
    → InOrder whole last_end (insert m ns)
unfolding insert
insert_lem whole last_end m [] le h o r = (le, h, tt)
insert_lem whole last_end m (n ∷ ns) le h o r = elim (Bool-cases (leb m.start n.start)) [
  | inl t ↦
      let le' = leb→le m.start n.start t in
      let behind : m.end ≤ n.start = elim o.0 [ inl a ↦ a | inr b ↦ omega arith ] in
      rw t (le, h, (behind, r.1, r.2))
  | inr f ↦
      let gt = leb→gt m.start n.start f in
      let before : n.end ≤ m.start = elim o.0 [ inl a ↦ omega arith | inr b ↦ b ] in
      rw f (r.0, r.1, insert_lem whole n.end m ns before h o.1 r.2)
]

sort-Outside :
    (whole : Bytes) (s e : ℕ) (gs : List Group)
    → Apart s e gs
    → Outside s e (sort (map (match_of whole) gs))
unfolding sort
sort-Outside whole s e [] h = tt
sort-Outside whole s e (g ∷ gs) h =
    Outside-insert s e (match_of whole g) (sort (map (match_of whole) gs)) h.0
      (sort-Outside whole s e gs h.1)

sort-InOrder :
    (whole : Bytes) (covered : List Bool) (gs : List Group)
    → Free (length whole) covered gs
    → Disjoint gs
    → InOrder whole 0 (sort (map (match_of whole) gs))
unfolding sort
sort-InOrder whole covered [] f d = tt
sort-InOrder whole covered (g ∷ gs) f d =
    insert_lem whole 0 (match_of whole g) (sort (map (match_of whole) gs)) (omega arith)
      (f.0.0, f.0.1, refl) (sort-Outside whole g.start g.end gs d.0)
      (sort-InOrder whole covered gs f.2 d.1)

-- Let every group that the regular expression captures be a non-empty stretch of the text. Then
-- the matches stand in the order of their positions and do not overlap, and each lies within the
-- text and has as its text the bytes of its stretch.
pub find_matches-InOrder :
    (captures_iter : Bytes → List (List Group)) (whole : Bytes)
    → CapturesInside (length whole) (captures_iter whole)
    → InOrder whole 0 (find_matches captures_iter whole)
unfolding find_matches
find_matches-InOrder captures_iter whole h =
    let (free, disjoint) =
      claim_lem (length whole) (uncovered (length whole)) (captures_iter whole) h
        (length-uncovered (length whole)) in
    sort-InOrder whole (uncovered (length whole))
      (claim (uncovered (length whole)) (captures_iter whole)) free disjoint
