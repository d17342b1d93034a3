-- ===== src/Formatter/Stages.antt =====
-- A format string between two placeholders, as the loops of the formatter walk over it.
use kyua.Prelude.{
  ℕ, zero, suc, ◌+◌, ◌≤◌, ◌<◌, ◌≡◌, refl, sym, ap, ap₂, ◌∙◌, Bool, true, false, not, ◌&&◌, Option,
  none, some, List, [], ◌∷◌, ◌++◌, arith, ◌==◌, length, take, drop, length-drop, length-append,
  drop-drop, append_assoc, take-append-drop, take-add, drop-append, take-append,
}
use kyua.Prelude.Bytes.{Bytes, find, find_from}
use kyua.Formatter.{byte_is, skip_percents, find_pair, find_pair_from, strip_loop}

-- A byte that is not a percent, or two percents.
pub data Token : Type 0 where
  plain : ℕ → Token
  pair : Token

abbrev pub raw : List Token → Bytes
raw [] = []
raw (plain c ∷ ts) = c ∷ raw ts
raw (pair ∷ ts) = b'%' ∷ b'%' ∷ raw ts

abbrev pub text : List Token → Bytes
text [] = []
text (plain c ∷ ts) = c ∷ text ts
text (pair ∷ ts) = b'%' ∷ text ts

abbrev pub is_proper : List Token → Bool
is_proper [] = true
is_proper (plain c ∷ ts) = not (c == b'%') && is_proper ts
is_proper (pair ∷ ts) = is_proper ts

abbrev pub pairs : List Token → ℕ
pairs [] = 0
pairs (plain c ∷ ts) = pairs ts
pairs (pair ∷ ts) = suc (pairs ts)

pub length-text : (ts : List Token) → length (text ts) + pairs ts ≡ length (raw ts)
length-text [] = refl
length-text (plain c ∷ ts) = omega (arith, length-text ts)
length-text (pair ∷ ts) = omega (arith, length-text ts)

-- What follows the text: nothing, or a percent that is not doubled.
abbrev pub IsTail : Bytes → Type 0
IsTail [] = Unit {0}
IsTail (c ∷ u) = (c ≡ b'%') × (byte_is b'%' u ≡ false)

abbrev pub tail_at : Bytes → ℕ → Option ℕ
tail_at [] p = none
tail_at (c ∷ u) p = some p

pub drop-next : (p : ℕ) (e : Bytes) (c : ℕ) (s : Bytes) → drop p e ≡ c ∷ s → drop (p + 1) e ≡ s
drop-next p e c s h = sym (drop-drop 1 p e) ∙ ap (drop 1) h

pub take-next :
    (p : ℕ) (e : Bytes) (c : ℕ) (s : Bytes)
    → drop p e ≡ c ∷ s
    → take (p + 1) e ≡ take p e ++ (c ∷ [])
take-next p e c s h = take-add p 1 e ∙ ap (λ x. take p e ++ take 1 x) h

found_next :
    (d p c : ℕ) (s : Bytes)
    → (c == d) ≡ false
    → Path
        (Option ℕ)
        (elim (find d (c ∷ s)) [ none ↦ none | some n ↦ some (p + n) ])
        (elim (find d s) [ none ↦ none | some n ↦ some (p + 1 + n) ])
unfolding find
found_next d p c s k = ground arith

glue :
    (p : ℕ) (e : Bytes) (c : ℕ) (s t : Bytes)
    → drop p e ≡ c ∷ s
    → take (p + 1) e ++ t ≡ take p e ++ (c ∷ t)
glue p e c s t h = ap (λ y. y ++ t) (take-next p e c s h) ∙ append_assoc (take p e) (c ∷ []) t

find_from-next :
    (d p : ℕ) (e : Bytes) (c : ℕ) (s : Bytes)
    → drop p e ≡ c ∷ s
    → (c == d) ≡ false
    → find_from d e p ≡ find_from d e (p + 1)
unfolding find_from find
find_from-next d p e c s h k = rw (h, drop-next p e c s h, find_from) (found_next d p c s k)

find_from-here :
    (d p : ℕ) (e : Bytes) (c : ℕ) (s : Bytes)
    → drop p e ≡ c ∷ s
    → (c == d) ≡ true
    → find_from d e p ≡ some p
unfolding find_from find
find_from-here d p e c s h k = rw (h, k, find_from, find) (ap some (omega arith))

find_from-end : (d p : ℕ) (e : Bytes) → drop p e ≡ [] → find_from d e p ≡ none
unfolding find_from find
find_from-end d p e h = rw (h, find_from) refl

skip_none : (fuel : ℕ) (e : Bytes) → skip_percents fuel e none ≡ none
unfolding skip_percents
skip_none zero e = refl
skip_none (suc fuel) e = refl

-- The first loop of `find_next_placeholder` stops at the tail.
pub skip_percents-raw :
    (fuel p : ℕ) (e : Bytes) (ts : List Token) (u : Bytes)
    → drop p e ≡ raw ts ++ u
    → is_proper ts ≡ true
    → IsTail u
    → length (raw ts ++ u) ≤ fuel
    → skip_percents fuel e (find_from b'%' e p) ≡ tail_at u (p + length (raw ts))
unfolding skip_percents
skip_percents-raw fuel p e [] [] h v t l = rw (find_from-end b'%' p e h) (skip_none fuel e)
skip_percents-raw zero p e [] (c ∷ u) h v t l = absurd (omega arith)
skip_percents-raw (suc fuel) p e [] (c ∷ u) h v (t, k) l =
    rw (find_from-here b'%' p e c u h (rw t refl), drop-next p e c u h, k) (ap some (omega arith))
skip_percents-raw fuel p e (plain c ∷ ts) u h v t l =
    ap (skip_percents fuel e) (find_from-next b'%' p e c _ h (ground arith))
    ∙ skip_percents-raw fuel (p + 1) e ts u (drop-next p e c _ h) (ground arith) t (omega arith)
    ∙ ap (tail_at u) (omega arith)
skip_percents-raw zero p e (pair ∷ ts) u h v t l = absurd (omega arith)
skip_percents-raw (suc fuel) p e (pair ∷ ts) u h v t l =
    rw (find_from-here b'%' p e b'%' _ h refl, drop-next p e b'%' _ h)
      (skip_percents-raw fuel (p + 2) e ts u (sym (drop-drop 2 p e) ∙ ap (drop 2) h) v t
          (omega arith)
        ∙ ap (tail_at u) (omega arith))

paired_next :
    (p c : ℕ) (s : Bytes)
    → (c == b'%') ≡ false
    → Path
        (Option ℕ)
        (elim (find_pair (c ∷ s)) [ none ↦ none | some n ↦ some (p + n) ])
        (elim (find_pair s) [ none ↦ none | some n ↦ some (p + 1 + n) ])
unfolding find_pair
paired_next p c s k = ground arith

find_pair_from-next :
    (p : ℕ) (e : Bytes) (c : ℕ) (s : Bytes)
    → drop p e ≡ c ∷ s
    → (c == b'%') ≡ false
    → find_pair_from e p ≡ find_pair_from e (p + 1)
unfolding find_pair_from
find_pair_from-next p e c s h k = rw (h, drop-next p e c s h, find_pair_from) (paired_next p c s k)

find_pair_from-end : (p : ℕ) (e : Bytes) → drop p e ≡ [] → find_pair_from e p ≡ none
unfolding find_pair_from find_pair
find_pair_from-end p e h = rw (h, find_pair_from) refl

find_pair_from-here :
    (p : ℕ) (e s : Bytes) → drop p e ≡ b'%' ∷ b'%' ∷ s → find_pair_from e p ≡ some p
unfolding find_pair_from find_pair
find_pair_from-here p e s h = rw (h, find_pair_from) (ap some (omega arith))

length-take_within : (p : ℕ) (e : Bytes) → p ≤ length e → length (take p e) ≡ p
length-take_within p e h =
    omega (
      arith,
      ap length (take-append-drop p e),
      length-append (take p e) (drop p e),
      length-drop p e,
    )

drop-take : (p : ℕ) (e s : Bytes) → p ≤ length e → drop p (take p e ++ s) ≡ s
drop-take p e s h =
    ap (λ n. drop n (take p e ++ s)) (sym (length-take_within p e h)) ∙ drop-append (take p e) s

take-take : (p : ℕ) (e s : Bytes) → p ≤ length e → take p (take p e ++ s) ≡ take p e
take-take p e s h =
    ap (λ n. take n (take p e ++ s)) (sym (length-take_within p e h)) ∙ take-append (take p e) s

inside : (p : ℕ) (e : Bytes) (c : ℕ) (s : Bytes) → drop p e ≡ c ∷ s → p + 1 ≤ length e
inside p e c s h = omega (arith, ap length h, length-drop p e)

-- The loop of `strip_double_percent`, from the position `pos` on.
pub strip_loop-raw :
    (fuel pos removed : ℕ) (part : Bytes) (ts : List Token)
    → drop pos part ≡ raw ts
    → is_proper ts ≡ true
    → length (raw ts) < fuel
    → pos ≤ length part
    → strip_loop fuel part removed (find_pair_from part pos)
      ≡ (take pos part ++ text ts, removed + pairs ts)
unfolding strip_loop
strip_loop-raw zero pos removed part ts h v l k = absurd (omega arith)
strip_loop-raw (suc fuel) pos removed part [] h v l k = rw (find_pair_from-end pos part h) (
    ap₂ (λ x y. (x, y)) (sym (take-append-drop pos part) ∙ ap (λ y. take pos part ++ y) h)
      (omega arith))
strip_loop-raw fuel pos removed part (plain c ∷ ts) h v l k =
    ap (strip_loop fuel part removed) (find_pair_from-next pos part c _ h (ground arith))
    ∙ strip_loop-raw fuel (pos + 1) removed part ts (drop-next pos part c _ h) (ground arith)
        (omega arith) (inside pos part c _ h)
    ∙ ap (λ x. (x, removed + pairs ts)) (glue pos part c _ (text ts) h)
strip_loop-raw (suc fuel) pos removed part (pair ∷ ts) h v l k =
    let part' = take pos part ++ (b'%' ∷ raw ts) in
    let here : drop pos part' ≡ b'%' ∷ raw ts = drop-take pos part _ k in
    rw (find_pair_from-here pos part _ h, drop-next pos part b'%' _ h)
      (strip_loop-raw fuel (pos + 1) (removed + 1) part' ts (drop-next pos part' b'%' _ here) v
          (omega arith) (inside pos part' b'%' _ here)
        ∙ ap₂ (λ x y. (x, y))
            (glue pos part' b'%' _ (text ts) here
              ∙ ap (λ y. y ++ (b'%' ∷ text ts)) (take-take pos part _ k))
            (omega arith))
