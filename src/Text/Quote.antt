-- ===== src/Text/Quote.antt =====
-- `quote` and what it keeps of the text.
use kyua.Prelude.{
  ℕ, zero, suc, ◌+◌, ◌-◌, ◌≤◌, ◌≡◌, ◌≢◌, inl, inr, refl, sym, ap, ◌∙◌, List, [], ◌∷◌, ◌++◌, arith,
  ◌==◌, if◌then◌else◌, length, drop, append_assoc,
}
use kyua.Prelude.Bytes.{
  Bytes, find_from, substr, pieces, push_front, substr-drop, substr-add, pieces-ne-nil,
  find_from_cases,
}
use kyua.Text.{quote_loop, quote}

-- A reference definition: a backslash in front of each quote character.
pub escape_quotes : ℕ → Bytes → Bytes
escape_quotes q [] = []
escape_quotes q (c ∷ s) =
    let rest = escape_quotes q s in if c == q then b'\\' ∷ c ∷ rest else c ∷ rest

abbrev escaped_parts : ℕ → List Bytes → Bytes
escaped_parts q [] = []
escaped_parts q (p ∷ []) = p
escaped_parts q (p ∷ r ∷ ps) = p ++ (b'\\' ∷ q ∷ escaped_parts q (r ∷ ps))

escaped_parts-cons :
    (q : ℕ) (p : Bytes) (s : Bytes)
    → escaped_parts q (p ∷ pieces q s) ≡ p ++ (b'\\' ∷ q ∷ escaped_parts q (pieces q s))
escaped_parts-cons q p s = go (pieces q s) (pieces-ne-nil q s)
  where
    go :
        (ps : List Bytes)
        → ps ≢ []
        → escaped_parts q (p ∷ ps) ≡ p ++ (b'\\' ∷ q ∷ escaped_parts q ps)
    go [] h = absurd (h refl)
    go (r ∷ ps) h = refl

escaped_parts-push_front :
    (c q : ℕ) (s : Bytes)
    → escaped_parts q (push_front c (pieces q s)) ≡ c ∷ escaped_parts q (pieces q s)
escaped_parts-push_front c q s = go (pieces q s)
  where
    go : (ps : List Bytes) → escaped_parts q (push_front c ps) ≡ c ∷ escaped_parts q ps
    go [] = refl
    go (p ∷ []) = refl
    go (p ∷ r ∷ ps) = refl

escaped_parts-pieces : (q : ℕ) (s : Bytes) → escaped_parts q (pieces q s) ≡ escape_quotes q s
unfolding escape_quotes
escaped_parts-pieces q [] = refl
escaped_parts-pieces q (c ∷ s) =
    ground
      (arith, escaped_parts-pieces q s, escaped_parts-cons q [] s, escaped_parts-push_front c q s)

quote_loop-escape_quotes :
    (fuel q : ℕ) (text : Bytes) (start from : ℕ) (quoted : Bytes)
    → start ≤ from
    → from ≤ length text
    → length text ≤ from + fuel
    → quote_loop fuel q text start (find_from q text from) quoted
      ≡ quoted ++ (substr text start (from - start) ++ escaped_parts q (pieces q (drop from text)))
unfolding quote_loop
quote_loop-escape_quotes zero q text start from quoted h k l = elim (find_from_cases q text from) [
  | inl (e, parts) ↦
      rw (e, quote_loop, parts) (ap (◌++◌ quoted) (sym (substr-drop text start from h)))
  | inr (n, e, parts, hit, within) ↦ absurd (omega arith)
]
quote_loop-escape_quotes (suc fuel) q text start from quoted h k l =
    elim (find_from_cases q text from) [
      | inl (e, parts) ↦
          rw (e, quote_loop, parts) (ap (◌++◌ quoted) (sym (substr-drop text start from h)))
      | inr (n, e, parts, hit, within) ↦
          let one : from + n + 1 - (from + n) ≡ 1 = omega arith in
          rw (e, quote_loop, parts, escaped_parts-cons)
            (quote_loop-escape_quotes fuel q text (from + n) (from + n + 1) _ (omega arith)
                (omega arith) (omega arith)
              ∙ rw (one, hit, substr-add text start from n h) (simp append_assoc))
    ]

-- The quoted text is the text with a backslash in front of each quote character, between two
-- quote characters.
pub quote-escape_quotes :
    (text : Bytes) (q : ℕ) → quote text q ≡ q ∷ (escape_quotes q text ++ (q ∷ []))
unfolding quote
quote-escape_quotes text q =
    rw
      (
        quote_loop-escape_quotes (length text) q text 0 0 (q ∷ []) (omega arith) (omega arith)
            (omega arith),
        escaped_parts-pieces q text,
      )
      refl

escape_quotes-head : (q : ℕ) (s t : Bytes) → escape_quotes q s ≡ q ∷ t → q ≡ b'\\'
unfolding escape_quotes
escape_quotes-head q [] t h = cc
escape_quotes-head q (c ∷ s) t h = ground arith

pub escape_quotes-injective : (q : ℕ) (s t : Bytes) → escape_quotes q s ≡ escape_quotes q t → s ≡ t
unfolding escape_quotes
escape_quotes-injective q [] [] h = refl
escape_quotes-injective q [] (c ∷ t) h = ground arith
escape_quotes-injective q (c ∷ s) [] h = ground arith
escape_quotes-injective q (c ∷ s) (d ∷ t) h = ground (
  arith,
  escape_quotes-injective q s t,
  escape_quotes-head q s (escape_quotes q t),
  escape_quotes-head q t (escape_quotes q s),
)
