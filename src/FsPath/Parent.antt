-- ===== src/FsPath/Parent.antt =====
-- The loop of `is_parent_of`.
use kyua.Prelude.{
  ℕ, zero, suc, ◌<◌, ◌≡◌, ◌≢◌, ◌↔◌, ◌⊎◌, inl, inr, refl, sym, ap, ◌∙◌, true, false, [], ◌∷◌, ◌++◌,
  arith, length, length-append, append_assoc, Bool-cases,
}
use kyua.Prelude.Bytes.{Bytes, lacks, lacks-middle}
use kyua.Prelude.{subst}
use kyua.FsPath.{FsPath, dot, root, branch_path, path_eq, is_parent_loop, is_parent_of}
use kyua.FsPath.Normal.{IsNormal, IsNormal-ne-nil}
use kyua.FsPath.Branch.{single, top, nested, path-Ending, path_eq_iff}

-- Where two texts end in a separator and a tail, and the first tail holds no separator, the first
-- text is the second or goes on below it.
last_separator :
    (d : ℕ) (x leaf y rest : Bytes)
    → lacks d leaf ≡ true
    → x ++ (d ∷ leaf) ≡ y ++ (d ∷ rest)
    → (x ≡ y) ⊎ ((more : Bytes) × (x ≡ y ++ (d ∷ more)))
last_separator d [] leaf [] rest f e = inl refl
last_separator d (c ∷ x) leaf [] rest f e = inr (x, cc)
last_separator d [] leaf (c ∷ y) rest f e = ground (arith, lacks-middle d y rest)
last_separator d (b ∷ x) leaf (c ∷ y) rest f e = elim (last_separator d x leaf y rest f cc) [
  | inl same ↦ inl cc
  | inr (more, below) ↦ inr (more, cc)
]

-- Some text stands below `a` in `p`, behind a separator.
abbrev pub Below : FsPath → FsPath → Type 0
Below a p = (rest : Bytes) × (p.repr ≡ a.repr ++ (b'/' ∷ rest))

-- The directories at which the loop stops without a test.
abbrev pub IsTop : FsPath → Type 0
IsTop p = (p ≡ dot) ⊎ (p ≡ root)

abbrev pub IsParent : FsPath → FsPath → Type 0
IsParent a p = (a ≡ p) ⊎ ((¬ IsTop a) × Below a p)

path_eq_ne : (p q : FsPath) → p ≢ q → path_eq p q ≡ false
path_eq_ne p q h = elim (Bool-cases (path_eq p q)) [
  | inl e ↦ absurd (h ((path_eq_iff p q).0 e))
  | inr e ↦ e
]

Below-not-IsTop : (a q : FsPath) → a.repr ≢ [] → Below a q → ¬ IsTop q
Below-not-IsTop a q ne (rest, e) = go a.repr ne e
  where
    go : (r : Bytes) → r ≢ [] → q.repr ≡ r ++ (b'/' ∷ rest) → ¬ IsTop q
    go [] h k = absurd (h refl)
    go (c ∷ []) h k = λ t. ground arith
    go (c ∷ d ∷ r) h k = λ t. ground arith

pub Below-trans :
    (a q p : FsPath) (leaf : Bytes) → Below a q → p.repr ≡ q.repr ++ (b'/' ∷ leaf) → Below a p
Below-trans a q p leaf (rest, e) k = (
  rest ++ (b'/' ∷ leaf),
  k ∙ ap (λ s. s ++ (b'/' ∷ leaf)) e ∙ append_assoc a.repr (b'/' ∷ rest) _,
)

path_eq_self : (p : FsPath) → path_eq p p ≡ true
path_eq_self p = (path_eq_iff p p).1 refl

-- One round of the loop.
module _ (fuel : ℕ) (a p : FsPath) where
  round_yes :
      is_parent_loop (suc fuel) a p ≡ true
      → (a ≡ p)
        ⊎ ((branch_path p ≢ dot)
            × (branch_path p ≢ root)
            × (is_parent_loop fuel a (branch_path p) ≡ true))
  unfolding is_parent_loop
  round_yes h =
      ground
        (arith, path_eq_iff a p, path_eq_iff (branch_path p) dot, path_eq_iff (branch_path p) root)

  round_here : a ≡ p → is_parent_loop (suc fuel) a p ≡ true
  unfolding is_parent_loop
  round_here e = ground (arith, path_eq_iff a p)

  round_up :
      ¬ IsTop (branch_path p)
      → is_parent_loop fuel a (branch_path p) ≡ true
      → is_parent_loop (suc fuel) a p ≡ true
  unfolding is_parent_loop
  round_up h e = ground (arith, path_eq_iff (branch_path p) dot, path_eq_iff (branch_path p) root)

loop_here : (fuel : ℕ) (p a : FsPath) → 0 < fuel → a ≡ p → is_parent_loop fuel a p ≡ true
loop_here zero p a h e = absurd (omega arith)
loop_here (suc fuel) p a h e = round_here fuel a p e

pub append_cons-ne-nil : (c : ℕ) (s r : Bytes) → r ++ (c ∷ s) ≢ []
append_cons-ne-nil c s [] = λ e. cc
append_cons-ne-nil c s (d ∷ r) = λ e. cc

-- Where the loop answers yes, the path is the other or stands below it.
is_parent_loop-IsParent :
    (fuel : ℕ) (a p : FsPath) → IsNormal p → is_parent_loop fuel a p ≡ true → IsParent a p
unfolding is_parent_loop
is_parent_loop-IsParent zero a p n h = cc
is_parent_loop-IsParent (suc fuel) a p n h = elim (round_yes fuel a p h) [
  | inl e ↦ inl e
  | inr (not_dot, not_root, more) ↦ elim (path-Ending p n) [
    | single _ e _ ↦ absurd (not_dot e)
    | top _ _ _ e _ ↦ absurd (not_root e)
    | nested leaf shape _ up _ ↦ elim (is_parent_loop-IsParent fuel a (branch_path p) up more) [
      | inl e ↦ inr (
        λ t. elim t [ inl d ↦ not_dot (sym e ∙ d) | inr r ↦ not_root (sym e ∙ r) ],
        (leaf, rw e shape),
      )
      | inr (not_top, below) ↦ inr (not_top, Below-trans a (branch_path p) p leaf below shape)
    ]
  ]
]

-- With fuel for the length of the path, the loop reaches each directory above it.
is_parent_loop-Below :
    (fuel : ℕ) (a p : FsPath)
    → IsNormal p
    → a.repr ≢ []
    → ¬ IsTop a
    → length p.repr < fuel
    → Below a p
    → is_parent_loop fuel a p ≡ true
is_parent_loop-Below zero a p n ne not_top h below = absurd (omega arith)
is_parent_loop-Below (suc fuel) a p n ne not_top h (rest, e) = elim (path-Ending p n) [
  | single free _ _ ↦ ground (arith, lacks-middle b'/' a.repr rest)
  | top leaf shape free _ _ ↦ elim (last_separator b'/' [] leaf a.repr rest free (sym shape ∙ e)) [
    | inl same ↦ absurd (ne (sym same))
    | inr (more, below) ↦ absurd (append_cons-ne-nil b'/' more a.repr (sym below))
  ]
  | nested leaf shape free up _ ↦
      let shorter : length (branch_path p).repr < fuel =
        omega (arith, ap length shape, length-append (branch_path p).repr (b'/' ∷ leaf)) in
      elim (last_separator b'/' (branch_path p).repr leaf a.repr rest free (sym shape ∙ e)) [
        | inl same ↦
            let here : a ≡ branch_path p = ap (λ r. record { repr = r }) (sym same) in
            round_up fuel a p (subst (λ q. ¬ IsTop q) here not_top)
              (loop_here fuel (branch_path p) a (omega (arith, shorter)) here)
        | inr below ↦
            round_up fuel a p (Below-not-IsTop a (branch_path p) ne below)
              (is_parent_loop-Below fuel a (branch_path p) up ne not_top shorter below)
      ]
]

-- For paths in normal form, `is_parent_of` answers yes exactly if the two are one, or the first is not "." or "/" and
-- the second is the first with a separator and more behind it.
pub is_parent_of_iff :
    (a p : FsPath) → IsNormal a → IsNormal p → (is_parent_of a p ≡ true) ↔ IsParent a p
unfolding is_parent_of
is_parent_of_iff a p m n = (
  is_parent_loop-IsParent (suc (length p.repr)) a p n,
  λ w. elim w [
    | inl e ↦ round_here (length p.repr) a p e
    | inr (not_top, below) ↦
        is_parent_loop-Below (suc (length p.repr)) a p n (IsNormal-ne-nil a m) not_top (omega arith)
          below
  ],
)

pub IsParent-trans : (a b c : FsPath) → IsParent a b → IsParent b c → IsParent a c
IsParent-trans a b c (inl e) k = rw e k
IsParent-trans a b c (inr h) (inl e) = rw (← e) (inr h)
IsParent-trans a b c (inr (not_top, below)) (inr (_, (rest, e))) =
    inr (not_top, Below-trans a b c rest below e)

-- Two texts in front of a separator of one text.
separators :
    (d : ℕ) (x r y s : Bytes)
    → x ++ (d ∷ r) ≡ y ++ (d ∷ s)
    → (x ≡ y) ⊎ (((m : Bytes) × (y ≡ x ++ (d ∷ m))) ⊎ ((m : Bytes) × (x ≡ y ++ (d ∷ m))))
separators d [] r [] s e = inl refl
separators d [] r (c ∷ y) s e = inr (inl (y, cc))
separators d (c ∷ x) r [] s e = inr (inr (x, cc))
separators d (b ∷ x) r (c ∷ y) s e = elim (separators d x r y s cc) [
  | inl same ↦ inl cc
  | inr (inl (m, h)) ↦ inr (inl (m, cc))
  | inr (inr (m, h)) ↦ inr (inr (m, cc))
]

-- Of two directories above one path, one is above the other.
pub IsParent-linear : (a b p : FsPath) → IsParent a p → IsParent b p → IsParent a b ⊎ IsParent b a
IsParent-linear a b p (inl e) k = inr (rw e k)
IsParent-linear a b p h (inl e) = inl (rw e h)
IsParent-linear a b p (inr (u, (r, h))) (inr (v, (s, k))) =
    elim (separators b'/' a.repr r b.repr s (sym h ∙ k)) [
      | inl same ↦ inl (inl (ap (λ x. record { repr = x }) same))
      | inr (inl below) ↦ inl (inr (u, below))
      | inr (inr below) ↦ inr (inr (v, below))
    ]
