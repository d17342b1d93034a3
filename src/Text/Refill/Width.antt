-- ===== src/Text/Refill/Width.antt =====
-- The width of a line of `refill`: where the line ends, and how long it is.
use kyua.Prelude.{
  ℕ, zero, suc, ◌+◌, ◌-◌, subst, ◌≤◌, ◌<◌, ◌≡◌, ◌⊎◌, inl, inr, refl, sym, ap, ap₂, ◌∙◌, true, not,
  ◌&&◌, Option, none, some, [], ◌∷◌, arith, ◌==◌, ltb, leb, if_true, if_false, length, take, drop,
  length-drop, drop-drop, Bool-cases, take-add, all-append,
}
use kyua.Prelude.Bytes.{Bytes, find, find_from, substr, lacks}
use kyua.FsPath.{rfind}
use kyua.Text.Refill.{
  add_size, starts_by, first_space, search_space, last_space, width_at, line_width,
}

-- The line from `start` ends with the text, or before a space.
abbrev pub IsCut : Bytes → ℕ → ℕ → Type 0
IsCut input start width =
    (start + width ≡ length input)
    ⊎ ((start + width < length input) × (starts_by b' ' (drop (start + width) input) ≡ true))

-- It is within the width that was asked for, or no space stands behind its first byte.
abbrev pub Fits : ℕ → Bytes → Type 0
Fits target_width line = (length line ≤ target_width) ⊎ (lacks b' ' (drop 1 line) ≡ true)

abbrev RfindAt : ℕ → Bytes → Option ℕ → Type 0
RfindAt c s none = lacks c s ≡ true
RfindAt c s (some n) =
    (n < length s) × (starts_by c (drop n s) ≡ true) × (lacks c (drop (suc n) s) ≡ true)

rfind-found : (c : ℕ) (s : Bytes) → RfindAt c s (rfind c s)
unfolding rfind
rfind-found c [] = refl
rfind-found c (x ∷ s) = ground (arith, rfind-found c s)

lacks-drop : (c n : ℕ) (s : Bytes) → lacks c s ≡ true → lacks c (drop n s) ≡ true
lacks-drop c zero s h = h
lacks-drop c (suc n) [] h = h
lacks-drop c (suc n) (x ∷ s) h = lacks-drop c n s (ground arith)

lacks-take : (c n : ℕ) (s : Bytes) → lacks c s ≡ true → lacks c (take n s) ≡ true
lacks-take c zero s h = refl
lacks-take c (suc n) [] h = refl
lacks-take c (suc n) (x ∷ s) h = ground (arith, lacks-take c n s)

-- No space in the first part and none in the second.
lacks-join :
    (c n : ℕ) (s : Bytes) → lacks c (take n s) ≡ true → lacks c (drop n s) ≡ true → lacks c s ≡ true
lacks-join c zero s h k = k
lacks-join c (suc n) [] h k = refl
lacks-join c (suc n) (x ∷ s) h k = ground (arith, lacks-join c n s)

take-nil : (k : ℕ) → Path Bytes (take k []) []
take-nil zero = refl
take-nil (suc k) = refl

drop-take : (n k : ℕ) (s : Bytes) → drop n (take (n + k) s) ≡ take k (drop n s)
drop-take zero k s = let m : 0 + k ≡ k = omega arith in ap (λ x. take x s) m
drop-take (suc n) k [] =
    let m : suc n + k ≡ suc (n + k) = omega arith in
    ap (λ x. drop (suc n) (take {A = ℕ} x [])) m ∙ sym (take-nil k)
drop-take (suc n) k (x' ∷ s) =
    let m : suc n + k ≡ suc (n + k) = omega arith in
    ap (λ x. drop (suc n) (take x (x' ∷ s))) m ∙ drop-take n k s

starts_by-take : (c n : ℕ) (s : Bytes) → starts_by c (take n s) ≡ true → starts_by c s ≡ true
starts_by-take c zero s h = cc
starts_by-take c (suc n) [] h = h
starts_by-take c (suc n) (x ∷ s) h = h

abbrev FindAt : ℕ → Bytes → Option ℕ → Type 0
FindAt c s none = lacks c s ≡ true
FindAt c s (some n) = (n < length s) × (starts_by c (drop n s) ≡ true) × (lacks c (take n s) ≡ true)

find-found : (c : ℕ) (s : Bytes) → FindAt c s (find c s)
unfolding find
find-found c [] = refl
find-found c (x ∷ s) = ground (arith, find-found c s)

take_all : (n : ℕ) (s : Bytes) → length s ≤ n → take n s ≡ s
take_all zero [] h = refl
take_all zero (c ∷ s) h = absurd (omega arith)
take_all (suc n) [] h = refl
take_all (suc n) (c ∷ s) h = ap (λ x. c ∷ x) (take_all n s (omega arith))

-- The bytes behind the first of a line.
line_tail :
    (input : Bytes) (start k : ℕ)
    → drop 1 (substr input start (1 + k)) ≡ take k (drop (start + 1) input)
line_tail input start k = drop-take 1 k (drop start input) ∙ ap (take k) (drop-drop 1 start input)

-- Where no space stands behind the first byte of the line up to `stop`.
abbrev Clear : Bytes → ℕ → ℕ → Type 0
Clear input start n = lacks b' ' (take n (drop (start + 1) input)) ≡ true

abbrev Good : Bytes → ℕ → ℕ → ℕ → Type 0
Good input start target_width width =
    IsCut input start width × Fits target_width (substr input start width)

first_space-Good :
    (input : Bytes) (start n target_width : ℕ) (r : Option ℕ)
    → start + 1 + n < length input
    → Clear input start n
    → find b' ' (drop (start + 1 + n) input) ≡ r
    → FindAt b' ' (drop (start + 1 + n) input) r
    → Good input start target_width (first_space input start (find_from b' ' input (start + 1 + n)))
unfolding find_from
first_space-Good input start n target_width none h c e f =
    let m : length input - start ≡ 1 + (length input - start - 1) = omega arith in
    rw (e, find_from)
      (
        inl (omega arith),
        inr (
            ap (λ x. lacks b' ' (drop 1 (substr input start x))) m
            ∙ ap (lacks b' ') (line_tail input start (length input - start - 1))
            ∙ lacks-take b' ' (length input - start - 1) (drop (start + 1) input) (
                lacks-join b' ' n (drop (start + 1) input) c
                  (ap (lacks b' ') (drop-drop n (start + 1) input) ∙ f))),
      )
first_space-Good input start n target_width (some q) h c e (f, g, k) =
    let w = start + 1 + n + q - start in
    let m : w ≡ 1 + (n + q) = omega arith in
    let there : start + w ≡ start + 1 + n + q = omega arith in
    let rest = drop (start + 1) input in
    rw (e, find_from)
      (
        inr (
          omega (arith, f, length-drop (start + 1 + n) input),
          ap (λ x. starts_by b' ' (drop x input)) there
              ∙ ap (starts_by b' ') (sym (drop-drop q (start + 1 + n) input))
              ∙ g,
        ),
        inr (
            ap (λ x. lacks b' ' (drop 1 (substr input start x))) m
            ∙ ap (lacks b' ') (line_tail input start (n + q) ∙ take-add n q rest)
            ∙ all-append (λ x. not (x == b' ')) (take n rest) (take q (drop n rest))
            ∙ ap₂ (◌&&◌) c (ap (λ x. lacks b' ' (take q x)) (drop-drop n (start + 1) input) ∙ k)),
      )

length-take_le : (n : ℕ) (s : Bytes) → length (take n s) ≤ n
length-take_le zero s = omega arith
length-take_le (suc n) [] = omega arith
length-take_le (suc n) (c ∷ s) = omega (arith, length-take_le n s)

length-take_whole : (n : ℕ) (s : Bytes) → length (take n s) ≤ length s
length-take_whole zero s = omega arith
length-take_whole (suc n) [] = omega arith
length-take_whole (suc n) (c ∷ s) = omega (arith, length-take_whole n s)

search_space-Good :
    (input : Bytes) (start n : ℕ) (r : Option ℕ)
    → start + 1 + n < length input
    → RfindAt b' ' (take (start + 1 + n) input) r
    → Good input start (1 + n) (search_space input start (start + 1 + n) r)
search_space-Good input start n none h f =
    first_space-Good input start n (1 + n) (find b' ' (drop (start + 1 + n) input)) h
      (ap (lacks b' ') (sym (drop-take (start + 1) n input)) ∙ lacks-drop b' ' (start + 1) _ f) refl
      (find-found b' ' (drop (start + 1 + n) input))
search_space-Good input start n (some pos) h (f, g, k) = elim (Bool-cases (ltb pos (start + 1))) [
  | inl near ↦
      let there : suc pos + (start - pos) ≡ start + 1 = ground arith in
      subst (Good input start (1 + n)) (sym (if_true (ltb pos (start + 1)) _ _ near)) (
        first_space-Good input start n (1 + n) (find b' ' (drop (start + 1 + n) input)) h
          (ap (lacks b' ') (sym (drop-take (start + 1) n input))
            ∙ ap (λ x. lacks b' ' (drop x (take (start + 1 + n) input))) (sym there)
            ∙ ap (lacks b' ') (sym (drop-drop (start - pos) (suc pos) (take (start + 1 + n) input)))
            ∙ lacks-drop b' ' (start - pos) _ k)
          refl (find-found b' ' (drop (start + 1 + n) input)))
  | inr far ↦
      let low : start + 1 ≤ pos = ground arith in
      let high : pos < start + 1 + n = omega (arith, f, length-take_le (start + 1 + n) input) in
      let there : start + (pos - start) ≡ pos = omega arith in
      let split : pos + (start + 1 + n - pos) ≡ start + 1 + n = omega arith in
      subst (Good input start (1 + n)) (sym (if_false (ltb pos (start + 1)) _ _ far)) (
        inr (
          omega arith,
          ap (λ x. starts_by b' ' (drop x input)) there
              ∙ starts_by-take b' ' (start + 1 + n - pos) (drop pos input) (
                  ap (starts_by b' ') (sym (drop-take pos (start + 1 + n - pos) input))
                  ∙ ap (λ x. starts_by b' ' (drop pos (take x input))) split
                  ∙ g),
        ),
        inl (omega (arith, length-take_le (pos - start) (drop start input))),
      )
]

last_space-take :
    (input : Bytes) (stop : ℕ) → 1 ≤ stop → last_space input stop ≡ rfind b' ' (take stop input)
last_space-take input stop h = if_false (stop == 0) _ _ (ground arith)

width_at-Good :
    (input : Bytes) (start n : ℕ)
    → start < length input
    → Good input start (1 + n) (width_at input start (1 + n) (start + 1 + n))
width_at-Good input start n h = elim (Bool-cases (leb (length input) (start + 1 + n))) [
  | inl e ↦
      let near : length input ≤ start + 1 + n = ground arith in
      subst (Good input start (1 + n)) (sym (if_true (leb (length input) (start + 1 + n)) _ _ e)) (
        inl (omega arith),
        inl (omega (arith, length-take_le (length input - start) (drop start input))),
      )
  | inr e ↦
      let far : start + 1 + n < length input = ground arith in
      let there : start + (1 + n) ≡ start + 1 + n = omega arith in
      subst (Good input start (1 + n)) (sym (if_false (leb (length input) (start + 1 + n)) _ _ e))
        (elim (Bool-cases (starts_by b' ' (drop (start + 1 + n) input))) [
          | inl k ↦
              subst (Good input start (1 + n))
                (sym (if_true (starts_by b' ' (drop (start + 1 + n) input)) _ _ k))
                (
                  inr (omega arith, ap (λ x. starts_by b' ' (drop x input)) there ∙ k),
                  inl (length-take_le (1 + n) (drop start input)),
                )
          | inr k ↦
              subst (Good input start (1 + n))
                (sym (if_false (starts_by b' ' (drop (start + 1 + n) input)) _ _ k))
                (subst (λ r. Good input start (1 + n) (search_space input start (start + 1 + n) r))
                  (sym (last_space-take input (start + 1 + n) (omega arith)))
                  (search_space-Good input start n (rfind b' ' (take (start + 1 + n) input)) far
                    (rfind-found b' ' (take (start + 1 + n) input))))
        ])
]

-- Where `refill` cuts its lines.
pub line_width-Good :
    (input : Bytes) (start n : ℕ)
    → start < length input
    → length input + 1 + n < 18446744073709551616
    → IsCut input start (line_width input start (1 + n))
      × Fits (1 + n) (substr input start (line_width input start (1 + n)))
unfolding line_width
line_width-Good input start n h b =
    let stop : add_size start (1 + n) ≡ start + 1 + n = omega arith in
    subst (λ x. Good input start (1 + n) (width_at input start (1 + n) x)) (sym stop)
      (width_at-Good input start n h)
