-- ===== src/Text/Split.antt =====
-- The position loops of `split` and `join` against the parts of a text.
use kyua.Prelude.{
  ℕ, zero, suc, ◌+◌, ◌-◌, ◌≤◌, ◌<◌, ◌≡◌, ◌≢◌, inl, inr, refl, sym, ap, ◌∙◌, true, some, List, [],
  ◌∷◌, ◌++◌, arith, if◌then◌else◌, length, take, drop, is_empty, all, append_assoc,
}
use kyua.Prelude.Bytes.{
  Bytes, lacks, pieces, push_front, pieces-ne-nil, find_from_cases, pieces-lacks, pieces-append,
}
use kyua.Text.{split_loop, split, join}

-- From a position on, the loop adds the parts of the text behind it.
split_loop-pieces :
    (fuel d : ℕ) (str : Bytes) (pos : ℕ) (words : List Bytes)
    → length str ≤ pos + fuel
    → pos < length str
    → split_loop fuel d str (some pos) words ≡ words ++ pieces d (drop (pos + 1) str)
unfolding split_loop
split_loop-pieces zero d str pos words h k = absurd (omega arith)
split_loop-pieces (suc fuel) d str pos words h k = elim (find_from_cases d str (pos + 1)) [
  | inl (e, parts) ↦ rw (e, split_loop, parts) refl
  | inr (n, e, parts, _, within) ↦
      let offset : pos + 1 + n - (pos + 1) ≡ n = omega arith in
      rw (e, split_loop, parts, offset)
        (split_loop-pieces fuel d str (pos + 1 + n) _ (omega arith) within ∙ append_assoc words _ _)
]

-- The position loop finds exactly the parts between the delimiters.
pub split-pieces : (str : Bytes) (d : ℕ) → split str d ≡ (if is_empty str then [] else pieces d str)
unfolding split
split-pieces [] d = refl
split-pieces (c ∷ s) d = elim (find_from_cases d (c ∷ s) 0) [
  | inl (e, parts) ↦ rw (e, split_loop) (sym parts)
  | inr (n, e, parts, _, within) ↦
      let offset : 0 + n - 0 ≡ n = omega arith in
      rw (e, parts, offset)
        (split_loop-pieces (length (c ∷ s)) d (c ∷ s) (0 + n) (take n (c ∷ s) ∷ []) (omega arith)
          within)
]

join-push_front :
    (c d : ℕ) (ps : List Bytes) → ps ≢ [] → join (push_front c ps) (d ∷ []) ≡ c ∷ join ps (d ∷ [])
unfolding join
join-push_front c d [] h = absurd (h refl)
join-push_front c d (p ∷ []) h = refl
join-push_front c d (p ∷ q ∷ ps) h = refl

join-nil_cons : (d : ℕ) (ps : List Bytes) → ps ≢ [] → join ([] ∷ ps) (d ∷ []) ≡ d ∷ join ps (d ∷ [])
unfolding join
join-nil_cons d [] h = absurd (h refl)
join-nil_cons d (p ∷ ps) h = refl

pub join-pieces : (d : ℕ) (s : Bytes) → join (pieces d s) (d ∷ []) ≡ s
unfolding join
join-pieces d [] = refl
join-pieces d (c ∷ s) = ground (
  arith,
  join-pieces d s,
  pieces-ne-nil d s,
  join-nil_cons d (pieces d s),
  join-push_front c d (pieces d s),
)

-- Joining the words of any text by the delimiter gives the text back.
pub join-split : (str : Bytes) (d : ℕ) → join (split str d) (d ∷ []) ≡ str
unfolding join
join-split [] d = rw split-pieces refl
join-split (c ∷ s) d = rw split-pieces (join-pieces d (c ∷ s))

pub pieces-join :
    (d : ℕ) (w : Bytes) (ws : List Bytes)
    → all (lacks d) (w ∷ ws) ≡ true
    → pieces d (join (w ∷ ws) (d ∷ [])) ≡ w ∷ ws
unfolding join
pieces-join d w [] h = pieces-lacks d w (ground arith)
pieces-join d w (v ∷ ws) h =
    pieces-append d w (join (v ∷ ws) (d ∷ [])) (ground arith)
    ∙ ap (◌∷◌ w) (pieces-join d v ws (ground arith))

-- Splitting a joined list of words gives the words back, if no word holds the delimiter and the
-- list is not the one that is joined to the empty text.
pub split-join :
    (d : ℕ) (words : List Bytes)
    → all (lacks d) words ≡ true
    → words ≢ [] ∷ []
    → split (join words (d ∷ [])) d ≡ words
unfolding join
split-join d [] h k = rw split-pieces refl
split-join d ([] ∷ []) h k = absurd (k refl)
split-join d ((c ∷ w) ∷ []) h k = rw split-pieces (pieces-join d (c ∷ w) [] h)
split-join d ([] ∷ v ∷ ws) h k = rw split-pieces (pieces-join d [] (v ∷ ws) h)
split-join d ((c ∷ w) ∷ v ∷ ws) h k = rw split-pieces (pieces-join d (c ∷ w) (v ∷ ws) h)
