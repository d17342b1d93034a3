-- ===== src/Text/Refill/Lines.antt =====
-- The lines that `refill` makes of a text, for a width of at least one.
use kyua.Prelude.{
  ℕ, zero, suc, ◌+◌, ◌≤◌, ◌<◌, ◌≡◌, ◌≢◌, ◌⊎◌, inl, inr, refl, sym, ap, ◌∙◌, true, ◌&&◌, ◌||◌,
  Option, some, List, [], ◌∷◌, ◌++◌, arith, ◌==◌, ltb, leb, ==_iff, if_true, length, take, drop,
  drop-drop, append_assoc, append-nil, Bool-cases, take-append-drop,
}
use kyua.Prelude.Bytes.{Bytes, substr}
use kyua.Text.Refill.{starts_by, line_width, refill_loop, refill}
use kyua.Text.Refill.Width.{IsCut, Fits, line_width-Good}

-- Each line with a space behind it.
abbrev pub spaced : List Bytes → Bytes
spaced [] = []
spaced (l ∷ ls) = l ++ (b' ' ∷ spaced ls)

abbrev pub AllFit : ℕ → List Bytes → Type 0
AllFit target_width [] = Unit {0}
AllFit target_width (l ∷ ls) = Fits target_width l × AllFit target_width ls

-- The lines are the text cut at spaces, of which the last one of the text may be lost.
abbrev pub IsCutOf : Bytes → List Bytes → Type 0
IsCutOf text ls = (spaced ls ≡ text ++ (b' ' ∷ [])) ⊎ (spaced ls ≡ text)

abbrev Refilled : Bytes → ℕ → ℕ → List Bytes → Option (List Bytes) → Type 0
Refilled input target_width start output r =
    (ls : List Bytes) × (r ≡ some (output ++ ls))
    × AllFit target_width ls
    × IsCutOf (drop start input) ls
    × (length input ≤ start → ls ≡ [])

drop_all : (n : ℕ) (s : Bytes) → length s ≤ n → drop n s ≡ []
drop_all zero [] h = refl
drop_all zero (c ∷ s) h = absurd (omega arith)
drop_all (suc n) [] h = refl
drop_all (suc n) (c ∷ s) h = drop_all n s (omega arith)

headed : (c : ℕ) (s : Bytes) → starts_by c s ≡ true → s ≡ c ∷ drop 1 s
headed c [] h = cc
headed c (x ∷ s) h = ap (λ y. y ∷ s) ((==_iff x c).0 h)

-- A line and the text behind it.
line_rest :
    (input : Bytes) (start width : ℕ)
    → drop start input ≡ substr input start width ++ drop (start + width) input
line_rest input start width =
    sym (take-append-drop width (drop start input))
    ∙ ap (λ x. take width (drop start input) ++ x) (drop-drop width start input)

-- The last line.
last_line :
    (input : Bytes) (start width : ℕ) (ls : List Bytes)
    → start + width ≡ length input
    → ls ≡ []
    → IsCutOf (drop start input) (substr input start width ∷ ls)
last_line input start width ls h k =
    let nothing : drop (start + width) input ≡ [] = drop_all (start + width) input (omega arith) in
    inl (
      ap (λ x. substr input start width ++ (b' ' ∷ spaced x)) k
      ∙ ap (λ x. x ++ (b' ' ∷ []))
          (sym (
            line_rest input start width
            ∙ ap (λ x. substr input start width ++ x) nothing
            ∙ append-nil (substr input start width))))

-- A line before a space.
next_line :
    (input : Bytes) (start width : ℕ) (ls : List Bytes)
    → starts_by b' ' (drop (start + width) input) ≡ true
    → IsCutOf (drop (start + width + 1) input) ls
    → IsCutOf (drop start input) (substr input start width ∷ ls)
next_line input start width ls h c =
    let line = substr input start width in
    let after : drop start input ≡ line ++ (b' ' ∷ drop (start + width + 1) input) =
      line_rest input start width
      ∙ ap (λ x. line ++ x)
          (headed b' ' _ h ∙ ap (λ x. b' ' ∷ x) (drop-drop 1 (start + width) input)) in
    elim c [
      | inl e ↦ inl (
          ap (λ x. line ++ (b' ' ∷ x)) e
          ∙ sym (append_assoc line _ (b' ' ∷ []))
          ∙ ap (λ x. x ++ (b' ' ∷ [])) (sym after))
      | inr e ↦ inr (ap (λ x. line ++ (b' ' ∷ x)) e ∙ sym after)
    ]

kept :
    (input : Bytes) (start width : ℕ)
    → IsCut input start width
    → (leb (start + width) (length input)
        && (((start + width) == length input) || starts_by b' ' (drop (start + width) input)))
      ≡ true
kept input start width (inl h) = ground arith
kept input start width (inr (h, k)) = ground arith

refill_loop-Refilled :
    (fuel : ℕ) (input : Bytes) (n start : ℕ) (output : List Bytes)
    → length input + 1 + n < 18446744073709551616
    → 1 ≤ fuel
    → length input < fuel + start
    → Refilled input (1 + n) start output (refill_loop fuel input (1 + n) start output)
unfolding refill_loop
refill_loop-Refilled zero input n start output b f h = absurd (omega arith)
refill_loop-Refilled (suc fuel) input n start output b f h =
    elim (Bool-cases (ltb start (length input))) [
      | inr e ↦
          let beyond : length input ≤ start = ground arith in
          (
            [],
            rw (e, refill_loop) (ap some (sym (append-nil output))),
            tt,
            inr (sym (drop_all start input beyond)),
            λ _. refl,
          )
      | inl e ↦
          let inside : start < length input = ground arith in
          let width = line_width input start (1 + n) in
          let (cut, fits) = line_width-Good input start n inside b in
          let (ls, r, all_fit, c, nil) =
            refill_loop-Refilled fuel input n (start + width + 1)
              (output ++ (substr input start width ∷ [])) b (omega arith) (omega arith) in
          (
            substr input start width ∷ ls,
            if_true (ltb start (length input)) _ _ e
                ∙ if_true
                    (leb (start + width) (length input)
                      && (((start + width) == length input)
                          || starts_by b' ' (drop (start + width) input)))
                    _ _ (kept input start width cut)
                ∙ r
                ∙ ap some (append_assoc output (substr input start width ∷ []) ls),
            (fits, all_fit),
            elim cut [
              | inl k ↦ last_line input start width ls k (nil (omega arith))
              | inr (_, k) ↦ next_line input start width ls k c
            ],
            λ k. absurd (omega arith),
          )
    ]

-- Below the overflow of std::size_t, `refill` of a text that is not empty to a width of at least
-- one gives lines: the text is these lines with a space behind each, but for the space behind the
-- last where the text does not end in one; and each line is within the width, or has no space behind its first byte.
pub refill-lines :
    (input : Bytes) (n : ℕ)
    → input ≢ []
    → length input + 1 + n < 18446744073709551616
    → (ls : List Bytes) × (refill input (1 + n) ≡ some ls) × AllFit (1 + n) ls × IsCutOf input ls
unfolding refill
refill-lines [] n h b = absurd (h refl)
refill-lines (c ∷ s) n h b =
    let (ls, r, all_fit, cut, _) =
      refill_loop-Refilled (suc (length (c ∷ s))) (c ∷ s) n 0 [] b (omega arith) (omega arith) in
    (ls, r, all_fit, cut)
