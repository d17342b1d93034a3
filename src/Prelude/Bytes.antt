-- ===== src/Prelude/Bytes.antt =====
-- std::string as a list of bytes. A position that may be `npos` is an `Option ℕ`.
use Prim.Native.Char.{code}
use Prim.Native.Nat.{ℕ, suc, ◌+◌, ◌-◌, ◌≤◌, ◌<◌}
use Prim.Native.String.{String}
use mathlib.Core.Path.{ap, ◌≡◌, refl}
use mathlib.Core.Logic.{◌↔◌, ◌≢◌, ◌⊎◌, inl, inr}
use mathlib.Core.Bool.{Bool, true, false, not, ◌&&◌, ◌||◌}
use mathlib.Core.Option.{Option, none, some}
use mathlib.Core.List.{List, [], ◌∷◌, ◌++◌}
use native.Mathlib.Omega.{arith}
use kyua.Prelude.Tests.{◌==◌, ltb, if◌then◌else◌, Option-cases, Bool-cases}
use kyua.Prelude.Lists.{length, take, drop, all, length-drop, drop-drop, take-add, take-append-drop}

abbrev pub Bytes : Type 0
Bytes = List ℕ

-- The bytes of an ASCII literal.
abbrev pub bytes : String → Bytes
bytes String.[] = []
bytes (String.◌∷◌ c s) = code c ∷ bytes s

-- `operator==` of two strings.
unfoldable pub str_eq : Bytes → Bytes → Bool
str_eq [] [] = true
str_eq (x ∷ xs) (y ∷ ys) = x == y && str_eq xs ys
str_eq _ _ = false

pub str_eq_iff : (a b : Bytes) → (str_eq a b ≡ true) ↔ (a ≡ b)
unfolding str_eq
str_eq_iff (x ∷ a) (y ∷ b) = ground (arith, str_eq_iff a b)
str_eq_iff _ _ = ground arith

pub str_eq_self : (a : Bytes) → str_eq a a ≡ true
str_eq_self a = (str_eq_iff a a).1 refl

-- `operator<` of two strings: by bytes, a prefix first.
unfoldable pub str_lt : Bytes → Bytes → Bool
str_lt [] [] = false
str_lt [] (y ∷ ys) = true
str_lt (x ∷ xs) [] = false
str_lt (x ∷ xs) (y ∷ ys) = ltb x y || (x == y && str_lt xs ys)

pub str_lt_irrefl : (a : Bytes) → str_lt a a ≡ false
unfolding str_lt
str_lt_irrefl [] = refl
str_lt_irrefl (x ∷ a) = ground (arith, str_lt_irrefl a)

pub str_lt_trans : (a b c : Bytes) → str_lt a b ≡ true → str_lt b c ≡ true → str_lt a c ≡ true
unfolding str_lt
str_lt_trans (x ∷ a) (y ∷ b) (z ∷ c) h k = ground (arith, str_lt_trans a b c)
str_lt_trans _ _ _ h k = ground arith

pub str_lt_total : (a b : Bytes) → str_lt a b ≡ false → str_lt b a ≡ false → a ≡ b
unfolding str_lt
str_lt_total (x ∷ a) (y ∷ b) h k = ground (arith, str_lt_total a b)
str_lt_total _ _ h k = ground arith

-- `s.find(c)`.
unfoldable pub find : ℕ → Bytes → Option ℕ
find c [] = none
find c (x ∷ s) =
    let rest = find c s in
    if x == c then some 0 else elim rest [ none ↦ none | some n ↦ some (suc n) ]

-- `s.find(c, pos)`.
unfoldable pub find_from : ℕ → Bytes → ℕ → Option ℕ
unfolding find
find_from c s pos = elim (find c (drop pos s)) [ none ↦ none | some n ↦ some (pos + n) ]

-- `s.substr(pos, n)` at a position within the text.
abbrev pub substr : Bytes → ℕ → ℕ → Bytes
substr s pos n = take n (drop pos s)

-- `s.substr(pos, next - pos)`, where `next` may be `npos`.
abbrev pub substr_to : Bytes → ℕ → Option ℕ → Bytes
substr_to s pos none = drop pos s
substr_to s pos (some next) = substr s pos (next - pos)

abbrev pub lacks : ℕ → Bytes → Bool
lacks c = all (λ x. not (x == c))

-- A reference definition: the parts of a text between the occurrences of one byte.
abbrev pub push_front : ℕ → List Bytes → List Bytes
push_front c [] = (c ∷ []) ∷ []
push_front c (p ∷ ps) = (c ∷ p) ∷ ps

abbrev pub pieces : ℕ → Bytes → List Bytes
pieces d [] = [] ∷ []
pieces d (c ∷ s) = let rest = pieces d s in if c == d then [] ∷ rest else push_front c rest

abbrev PiecesAt : ℕ → Bytes → Option ℕ → Type 0
PiecesAt d s none = (pieces d s ≡ s ∷ []) × (lacks d s ≡ true)
PiecesAt d s (some n) =
    (pieces d s ≡ take n s ∷ pieces d (drop (suc n) s))
    × (drop n s ≡ d ∷ drop (suc n) s)
    × (n < length s)

-- What `find` returns, said by the parts.
pub pieces-find : (d : ℕ) (s : Bytes) → PiecesAt d s (find d s)
unfolding find
pieces-find d [] = (refl, refl)
pieces-find d (c ∷ s) = ground (arith, pieces-find d s)

pub pieces-ne-nil : (d : ℕ) (s : Bytes) → pieces d s ≢ []
pieces-ne-nil d [] = λ h. cc
pieces-ne-nil d (c ∷ s) = ground (arith, pieces-ne-nil d s)

pub pieces-lacks : (d : ℕ) (s : Bytes) → lacks d s ≡ true → pieces d s ≡ s ∷ []
pieces-lacks d [] h = refl
pieces-lacks d (c ∷ s) h = ground (arith, pieces-lacks d s)

pub pieces-append :
    (d : ℕ) (a s : Bytes) → lacks d a ≡ true → pieces d (a ++ (d ∷ s)) ≡ a ∷ pieces d s
pieces-append d [] s h = ground arith
pieces-append d (c ∷ a) s h = ground (arith, pieces-append d a s)

pub all-lacks-pieces : (d : ℕ) (s : Bytes) → all (lacks d) (pieces d s) ≡ true
all-lacks-pieces d [] = refl
all-lacks-pieces d (c ∷ s) = ground (arith, all-lacks-pieces d s)

-- What `find(c, pos)` returns, said by the parts of the text from `pos` on.
pub find_from_cases :
    (d : ℕ) (s : Bytes) (pos : ℕ)
    → ((find_from d s pos ≡ none) × (pieces d (drop pos s) ≡ drop pos s ∷ []))
      ⊎ ((n : ℕ) × (find_from d s pos ≡ some (pos + n))
          × (pieces d (drop pos s) ≡ take n (drop pos s) ∷ pieces d (drop (pos + n + 1) s))
          × (drop (pos + n) s ≡ d ∷ drop (pos + n + 1) s)
          × (pos + n < length s))
unfolding find_from
find_from_cases d s pos = elim (Option-cases (find d (drop pos s))) [
  | inl e ↦ inl (rw (e, find_from), (rw e at (pieces-find d (drop pos s))).0)
  | inr (n, e) ↦
      let found = rw e at (pieces-find d (drop pos s)) in
      let after : pos + n + 1 ≡ pos + suc n = omega arith in
      inr (
        n,
        rw (e, find_from),
        rw (after, ← drop-drop (suc n) pos s) found.0,
        rw (after, ← drop-drop (suc n) pos s, ← drop-drop n pos s) found.1,
        omega (arith, found.2, length-drop pos s),
      )
]

pub substr-drop :
    (s : Bytes) (start from : ℕ)
    → start ≤ from
    → substr s start (from - start) ++ drop from s ≡ drop start s
substr-drop s start from h =
    let reach : start + (from - start) ≡ from = omega arith in
    rw (← reach, ← drop-drop (from - start) start s, reach)
      (take-append-drop (from - start) (drop start s))

pub substr-add :
    (s : Bytes) (start from n : ℕ)
    → start ≤ from
    → substr s start (from + n - start) ≡ substr s start (from - start) ++ take n (drop from s)
substr-add s start from n h =
    let split : from + n - start ≡ from - start + n = omega arith in
    let reach : start + (from - start) ≡ from = omega arith in
    rw (split, take-add, drop-drop, reach)

pub lacks-middle : (d : ℕ) (a s : Bytes) → lacks d (a ++ (d ∷ s)) ≡ false
lacks-middle d [] s = ground arith
lacks-middle d (c ∷ a) s = ground (arith, lacks-middle d a s)

-- What `find(c)` returns, by how the text splits at the first occurrence.
pub data Split (d : ℕ) (s : Bytes) : Type 0 where
  absent : lacks d s ≡ true → find_from d s 0 ≡ none → Split d s
  at :
      (a r : Bytes)
      → s ≡ a ++ (d ∷ r)
      → lacks d a ≡ true
      → find_from d s 0 ≡ some (length a)
      → Split d s

find-lacks : (d : ℕ) (s : Bytes) → lacks d s ≡ true → find d s ≡ none
unfolding find
find-lacks d [] h = refl
find-lacks d (c ∷ s) h = ground (arith, find-lacks d s)

find-append : (d : ℕ) (a r : Bytes) → lacks d a ≡ true → find d (a ++ (d ∷ r)) ≡ some (length a)
unfolding find
find-append d [] r h = ground arith
find-append d (c ∷ a) r h = ground (arith, find-append d a r)

pub find_from-lacks : (d : ℕ) (s : Bytes) → lacks d s ≡ true → find_from d s 0 ≡ none
unfolding find_from
find_from-lacks d s h = rw (find-lacks d s h, find_from) refl

pub find_from-append :
    (d : ℕ) (a r : Bytes) → lacks d a ≡ true → find_from d (a ++ (d ∷ r)) 0 ≡ some (length a)
unfolding find_from
find_from-append d a r h = rw (find-append d a r h, find_from) (ap some (omega arith))

split_text :
    (d : ℕ) (s : Bytes)
    → (lacks d s ≡ true) ⊎ ((a : Bytes) × (r : Bytes) × (s ≡ a ++ (d ∷ r)) × (lacks d a ≡ true))
split_text d [] = inl refl
split_text d (c ∷ s) = elim (Bool-cases (c == d)) [
  | inl e ↦ inr ([], s, ground arith, refl)
  | inr e ↦ elim (split_text d s) [
    | inl h ↦ inl (ground arith)
    | inr (a, r, k, h) ↦ inr (c ∷ a, r, cc, ground arith)
  ]
]

pub find-Split : (d : ℕ) (s : Bytes) → Split d s
find-Split d s = elim (split_text d s) [
  | inl h ↦ absent h (find_from-lacks d s h)
  | inr (a, r, e, h) ↦ at a r e h (rw e (find_from-append d a r h))
]
