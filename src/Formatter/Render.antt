-- ===== src/Formatter/Render.antt =====
-- A reference definition of the formatter, without positions, and that `init` follows it.
use kyua.Prelude.{
  ℕ, zero, suc, ◌+◌, ◌-◌, subst, ◌≤◌, ◌<◌, ◌≡◌, ◌⊎◌, inl, inr, refl, sym, ap, ◌∙◌, true, false, not,
  ◌||◌, none, some, List, [], ◌∷◌, ◌++◌, arith, ◌==◌, ==_iff, if◌then◌else◌, if_true, if_false,
  length, take, drop, length-drop, Option-cases, Bool-cases, take-append-drop,
}
use kyua.Prelude.Bytes.{Bytes, bytes, find, substr, lacks, pieces-find}
use kyua.Prelude.Results.{Result, ok, err}
use kyua.Formatter.{
  FormatError, bad_format_error, byte_is, find_end, cut_placeholder, placeholder_at,
}
use kyua.Formatter.Stages.{Token, plain, pair, raw, text, is_proper, IsTail, drop-next}

-- What stands first in a format string: the text before a placeholder, with its percents halved, the
-- placeholder without its percent, and the rest; only text; or an error.
pub data Scanned : Type 0 where
  only_text : Bytes → Scanned
  a_hole : Bytes → Bytes → Bytes → Scanned
  malformed : Bytes → Scanned

abbrev pub before : ℕ → Scanned → Scanned
before c (only_text t) = only_text (c ∷ t)
before c (a_hole t p r) = a_hole (c ∷ t) p r
before c (malformed m) = malformed m

abbrev unterminated_text : Bytes → Bytes
unterminated_text p = bytes "Unterminated placeholder '" ++ (p ++ bytes "'")

abbrev pub unterminated : Bytes → Scanned
unterminated p = malformed (unterminated_text p)

-- Behind a percent that starts a placeholder, which ends at the next `s`.
abbrev pub at_percent : Bytes → Scanned
at_percent [] = malformed (bytes "Trailing %")
at_percent (d ∷ s) = elim (find b's' (d ∷ s)) [
  | none ↦ unterminated (b'%' ∷ d ∷ s)
  | some n ↦
      if lacks b'%' (take (suc n) (d ∷ s))
      then a_hole [] (take (suc n) (d ∷ s)) (drop (suc n) (d ∷ s))
      else unterminated (b'%' ∷ take (suc n) (d ∷ s))
]

unfoldable pub scan : Bytes → Scanned
unfolding find
scan [] = only_text []
scan (c ∷ []) = if c == b'%' then at_percent [] else only_text (c ∷ [])
scan (c ∷ d ∷ s) = elim (c == b'%') [
  | false ↦ before c (scan (d ∷ s))
  | true ↦ elim (d == b'%') [ true ↦ before b'%' (scan s) | false ↦ at_percent (d ∷ s) ]
]

abbrev pub before_all : Bytes → Scanned → Scanned
before_all [] x = x
before_all (c ∷ t) x = before c (before_all t x)

-- A text with its first placeholder split off.
abbrev pub View : Bytes → Type 0
View s =
    (ts : List Token) × (u : Bytes) × (s ≡ raw ts ++ u)
    × (is_proper ts ≡ true)
    × IsTail u
    × (scan s ≡ before_all (text ts) (scan u))

View-plain : (c d : ℕ) (s : Bytes) → (c == b'%') ≡ false → View (d ∷ s) → View (c ∷ d ∷ s)
unfolding scan
View-plain c d s k (ts, u, e, v, t, w) =
    (plain c ∷ ts, u, ap (λ x. c ∷ x) e, ground arith, t, rw (k, scan) (ap (before c) w))

View-pair : (s : Bytes) → View s → View (b'%' ∷ b'%' ∷ s)
unfolding scan
View-pair s (ts, u, e, v, t, w) =
    (pair ∷ ts, u, ap (λ x. b'%' ∷ b'%' ∷ x) e, v, t, ap (before b'%') w)

pub view : (s : Bytes) → View s
unfolding scan
view [] = ([], [], refl, refl, tt, refl)
view (c ∷ []) = elim (Bool-cases (c == b'%')) [
  | inl k ↦ ([], c ∷ [], refl, refl, ((==_iff c b'%').0 k, refl), refl)
  | inr k ↦ (plain c ∷ [], [], refl, ground arith, tt, rw (k, scan) refl)
]
view (c ∷ d ∷ s) = elim (Bool-cases (c == b'%')) [
  | inr k ↦ View-plain c d s k (view (d ∷ s))
  | inl k ↦ elim (Bool-cases (d == b'%')) [
    | inl l ↦
        subst (λ x. View (x ∷ d ∷ s)) (sym ((==_iff c b'%').0 k))
          (subst (λ x. View (b'%' ∷ x ∷ s)) (sym ((==_iff d b'%').0 l)) (View-pair s (view s)))
    | inr l ↦ ([], c ∷ d ∷ s, refl, refl, ((==_iff c b'%').0 k, l), refl)
  ]
]

pub scan_tail : (v : Bytes) → byte_is b'%' v ≡ false → scan (b'%' ∷ v) ≡ at_percent v
unfolding scan
scan_tail [] h = refl
scan_tail (d ∷ s) h = rw (h, scan) refl

find_end_lem :
    (s : Bytes) (end : ℕ)
    → find_end s end ≡ elim (find b's' s) [ none ↦ end + length s | some n ↦ end + n ]
unfolding find_end find
find_end_lem [] end = omega arith
find_end_lem (c ∷ s) end = ground (arith, find_end_lem s (end + 1))

take_all : (n : ℕ) (s : Bytes) → length s ≤ n → take n s ≡ s
take_all zero [] h = refl
take_all zero (c ∷ s) h = absurd (omega arith)
take_all (suc n) [] h = refl
take_all (suc n) (c ∷ s) h = ap (λ x. c ∷ x) (take_all n s (omega arith))

abbrev pub placed : Bytes → ℕ → Scanned → Result FormatError (ℕ × Bytes)
placed format b (only_text t) = ok (b, [])
placed format b (a_hole t p r) = ok (b, b'%' ∷ p)
placed format b (malformed m) = err (bad_format_error format m)

not_last :
    (e : Bytes) (b d : ℕ) (s : Bytes) → drop b e ≡ b'%' ∷ d ∷ s → (b == (length e - 1)) ≡ false
not_last e b d s h =
    let long : length e ≡ b + (2 + length s) = omega (arith, ap length h, length-drop b e) in
    ground arith

-- Where the placeholder is `p`.
cut_placeholder-cut :
    (format e : Bytes) (b end : ℕ) (p : Bytes)
    → substr e b (end - b + 1) ≡ p
    → cut_placeholder format e b end ≡ (
        if (end == length e) || not (lacks b'%' (drop 1 p))
        then placed format b (unterminated p)
        else ok (b, p))
cut_placeholder-cut format e b end p h = rw h refl

stop_at :
    (e : Bytes) (b d : ℕ) (s : Bytes) (end : ℕ)
    → drop b e ≡ b'%' ∷ d ∷ s
    → Path ℕ (elim (find b's' (d ∷ s)) [ none ↦ b + 1 + length (d ∷ s) | some n ↦ b + 1 + n ]) end
    → find_end (drop (b + 1) e) (b + 1) ≡ end
stop_at e b d s end h k =
    ap (λ x. find_end x (b + 1)) (drop-next b e b'%' _ h) ∙ find_end_lem (d ∷ s) (b + 1) ∙ k

cut_here :
    (format : Bytes) (b : ℕ) (p r : Bytes)
    → (if not (lacks b'%' p) then placed format b (unterminated (b'%' ∷ p)) else ok (b, b'%' ∷ p))
      ≡ placed format b (if lacks b'%' p then a_hole [] p r else unterminated (b'%' ∷ p))
cut_here format b p r = elim (Bool-cases (lacks b'%' p)) [ inl k ↦ rw k refl | inr k ↦ rw k refl ]

pub placeholder_at-placed :
    (format e : Bytes) (b : ℕ) (v : Bytes)
    → drop b e ≡ b'%' ∷ v
    → placeholder_at format e (some b) ≡ placed format b (at_percent v)
placeholder_at-placed format e b [] h =
    let last : length e ≡ b + 1 = omega (arith, ap length h, length-drop b e) in
    if_true (b == (length e - 1)) _ _ (ground arith)
placeholder_at-placed format e b (d ∷ s) h = elim (Option-cases (find b's' (d ∷ s))) [
  | inl k ↦
      let end = b + 1 + length (d ∷ s) in
      let whole : substr e b (end - b + 1) ≡ b'%' ∷ d ∷ s =
        ap (take (end - b + 1)) h ∙ take_all (end - b + 1) _ (omega arith) in
      if_false (b == (length e - 1)) _ _ (not_last e b d s h)
      ∙ ap (cut_placeholder format e b) (stop_at e b d s end h (rw k refl))
      ∙ cut_placeholder-cut format e b end _ whole
      ∙ (let long : length e ≡ b + (2 + length s) = omega (arith, ap length h, length-drop b e) in
          let reached : (end == length e) ≡ true = ground arith in rw (reached, at_percent, k) refl)
  | inr (n, k) ↦
      let end = b + 1 + n in
      let part : substr e b (end - b + 1) ≡ b'%' ∷ take (suc n) (d ∷ s) =
        ap (take (end - b + 1)) h
        ∙ ap (λ m. take m (b'%' ∷ d ∷ s)) (let r : end - b + 1 ≡ suc (suc n) = omega arith in r) in
      if_false (b == (length e - 1)) _ _ (not_last e b d s h)
      ∙ ap (cut_placeholder format e b) (stop_at e b d s end h (rw k refl))
      ∙ cut_placeholder-cut format e b end _ part
      ∙ (let long : length e ≡ b + (2 + length s) = omega (arith, ap length h, length-drop b e) in
          let short : n < length (d ∷ s) = (rw k at (pieces-find b's' (d ∷ s))).2 in
          let reached : (end == length e) ≡ false = ground arith in
          rw (reached, at_percent, k)
            (cut_here format b (take (suc n) (d ∷ s)) (drop (suc n) (d ∷ s))))
]

hole_cases :
    (p r : Bytes)
    → let x : Scanned = if lacks b'%' p then a_hole [] p r else unterminated (b'%' ∷ p) in
      (x ≡ a_hole [] p r) ⊎ ((m : Bytes) × (x ≡ malformed m))
hole_cases p r = elim (Bool-cases (lacks b'%' p)) [
  | inl k ↦ inl (rw k refl)
  | inr k ↦ inr (unterminated_text (b'%' ∷ p), rw k refl)
]

pub at_percent-cases :
    (v : Bytes)
    → ((m : Bytes) × (at_percent v ≡ malformed m))
      ⊎ ((p : Bytes) × (r : Bytes) × (at_percent v ≡ a_hole [] p r) × (v ≡ p ++ r))
at_percent-cases [] = inl (_, refl)
at_percent-cases (d ∷ s) = elim (Option-cases (find b's' (d ∷ s))) [
  | inl k ↦ inl (unterminated_text (b'%' ∷ d ∷ s), rw (at_percent, k) refl)
  | inr (n, k) ↦ elim (hole_cases (take (suc n) (d ∷ s)) (drop (suc n) (d ∷ s))) [
    | inl e ↦ inr (
      take (suc n) (d ∷ s),
      drop (suc n) (d ∷ s),
      rw (at_percent, k) e,
      sym (take-append-drop (suc n) (d ∷ s)),
    )
    | inr (m, e) ↦ inl (m, rw (at_percent, k) e)
  ]
]
