-- ===== src/FsPath/Branch.antt =====
-- `branch_path` and `leaf_name`.
use kyua.Prelude.{
  ℕ, ◌≡◌, ◌↔◌, inl, inr, refl, sym, ap, ◌∙◌, true, false, ◌&&◌, none, some, List, [], ◌∷◌, ◌++◌,
  arith, ◌==◌, if◌then◌else◌, length, drop-drop, take-append, drop-append, snoc_cases, append_assoc,
  append-nil, all-append,
}
use kyua.Prelude.Bytes.{Bytes, str_eq, str_eq_iff, find, find_from, lacks}
use kyua.Prelude.{subst}
use kyua.FsPath.{FsPath, path!, dot, root, rfind, branch_path, leaf_name, path_eq, add_component}
use kyua.FsPath.Normal.{
  IsNormal, render, slashes, is_tail, is_component, path!-IsNormal, path!-repr, normal-render,
  normalized-normal,
}

rfind-lacks : (c : ℕ) (s : Bytes) → lacks c s ≡ true → rfind c s ≡ none
unfolding rfind
rfind-lacks c [] h = refl
rfind-lacks c (x ∷ s) h = ground (arith, rfind-lacks c s)

rfind-append : (c : ℕ) (s t : Bytes) → lacks c t ≡ true → rfind c (s ++ (c ∷ t)) ≡ some (length s)
unfolding rfind
rfind-append c [] t h = ground (arith, rfind-lacks c t)
rfind-append c (x ∷ s) t h = ground (arith, rfind-append c s t)

slashes-snoc : (t : List Bytes) (x : Bytes) → slashes (t ++ (x ∷ [])) ≡ slashes t ++ (b'/' ∷ x)
slashes-snoc [] x = simp append-nil
slashes-snoc (c ∷ t) x = simp (slashes-snoc t x, append_assoc)

path!-dot : path! (b'.' ∷ []) ≡ dot
unfolding path! find_from find add_component str_eq
path!-dot = refl

path!-root : path! (b'/' ∷ []) ≡ root
unfolding path! find_from find add_component str_eq
path!-root = refl

pub path_eq_iff : (p q : FsPath) → (path_eq p q ≡ true) ↔ (p ≡ q)
unfolding path_eq
path_eq_iff p q = (
  λ h. ap (λ r. record { repr = r }) ((str_eq_iff p.repr q.repr).0 h),
  λ e. (str_eq_iff p.repr q.repr).1 (ap (λ (r : FsPath). r.repr) e),
)

-- How a path ends: with no separator, with its only one in front, or below its branch path.
pub data Ending (p : FsPath) : Type 0 where
  single : lacks b'/' p.repr ≡ true → branch_path p ≡ dot → leaf_name p ≡ p.repr → Ending p
  top :
      (leaf : Bytes)
      → p.repr ≡ b'/' ∷ leaf
      → lacks b'/' leaf ≡ true
      → branch_path p ≡ root
      → leaf_name p ≡ leaf
      → Ending p
  nested :
      (leaf : Bytes)
      → p.repr ≡ (branch_path p).repr ++ (b'/' ∷ leaf)
      → lacks b'/' leaf ≡ true
      → IsNormal (branch_path p)
      → leaf_name p ≡ leaf
      → Ending p

-- The last separator of a text that ends in a part with none.
module _ (p : FsPath) (pre leaf : Bytes) (shape : p.repr ≡ pre ++ (b'/' ∷ leaf))
    (free : lacks b'/' leaf ≡ true) where
  last_slash : rfind b'/' p.repr ≡ some (length pre)
  last_slash = rw shape (rfind-append b'/' pre leaf free)

  branch_path-repr : branch_path p ≡ (if length pre == 0 then root else path! pre)
  unfolding branch_path
  branch_path-repr = rw (last_slash, branch_path, path!-root, shape, take-append) refl

  leaf_name-repr : leaf_name p ≡ leaf
  unfolding leaf_name
  leaf_name-repr = rw (last_slash, leaf_name, shape, ← drop-drop 1 (length pre), drop-append) refl

branch_path-single : (p : FsPath) → lacks b'/' p.repr ≡ true → branch_path p ≡ dot
unfolding branch_path
branch_path-single p h = rw (rfind-lacks b'/' p.repr h, branch_path) path!-dot

leaf_name-single : (p : FsPath) → lacks b'/' p.repr ≡ true → leaf_name p ≡ p.repr
unfolding leaf_name
leaf_name-single p h = rw (rfind-lacks b'/' p.repr h, leaf_name) refl

repr-path!-render :
    (h : Bytes) (t : List Bytes)
    → lacks b'/' h ≡ true
    → is_tail t ≡ true
    → (path! (render h t)).repr ≡ render h t
unfolding path!
repr-path!-render h t k l = normalized-normal (render h t) ∙ normal-render h t k l

Ending-nested :
    (p : FsPath) (h x : Bytes) (t : List Bytes)
    → p.repr ≡ render h t ++ (b'/' ∷ x)
    → (length (render h t) == 0) ≡ false
    → lacks b'/' h ≡ true
    → is_tail t ≡ true
    → lacks b'/' x ≡ true
    → Ending p
Ending-nested p h x t shape long k l f =
    let up : branch_path p ≡ path! (render h t) =
      branch_path-repr p (render h t) x shape f ∙ rw long refl in
    let same : (branch_path p).repr ≡ render h t =
      ap (λ (q : FsPath). q.repr) up ∙ repr-path!-render h t k l in
    nested x (shape ∙ ap (λ s. s ++ (b'/' ∷ x)) (sym same)) f
      (subst IsNormal (sym up) (path!-IsNormal (render h t)))
      (leaf_name-repr p (render h t) x shape f)

Ending-below :
    (p : FsPath) (h x : Bytes) (t : List Bytes)
    → p.repr ≡ render h (t ++ (x ∷ []))
    → lacks b'/' h ≡ true
    → is_tail t ≡ true
    → lacks b'/' x ≡ true
    → Ending p
Ending-below p [] x [] e k l f =
    let shape : p.repr ≡ [] ++ (b'/' ∷ x) = e ∙ simp append-nil in
    top x shape f (branch_path-repr p [] x shape f) (leaf_name-repr p [] x shape f)
Ending-below p (c ∷ h) x t e k l f =
    Ending-nested p (c ∷ h) x t (e ∙ simp (slashes-snoc, append_assoc)) (ground arith) k l f
Ending-below p [] x (c ∷ t) e k l f =
    Ending-nested p [] x (c ∷ t) (e ∙ simp (slashes-snoc, append_assoc)) (ground arith) k l f

Ending-single : (p : FsPath) (h : Bytes) → p.repr ≡ render h [] → lacks b'/' h ≡ true → Ending p
Ending-single p [] e k =
    top [] e refl (branch_path-repr p [] [] e refl) (leaf_name-repr p [] [] e refl)
Ending-single p (c ∷ h) e k =
    let free : lacks b'/' p.repr ≡ true = rw (e, append-nil) k in
    single free (branch_path-single p free) (leaf_name-single p free)

pub path-Ending : (p : FsPath) → IsNormal p → Ending p
path-Ending p n = elim (snoc_cases n.tail) [
  | inl e ↦ Ending-single p n.head (n.shape ∙ ap (render n.head) e) n.head_lacks
  | inr (t, x, e) ↦
      let whole = rw e at n.tail_is in
      let parts = all-append (λ c. lacks b'/' c && is_component c) t (x ∷ []) in
      Ending-below p n.head x t (n.shape ∙ ap (render n.head) e) n.head_lacks
        (ground (arith, whole, parts)) (ground (arith, whole, parts))
]

long : (c : ℕ) (s : Bytes) → (length (c ∷ s) == 0) ≡ false
long c s = ground arith

branch_leaf-nested :
    (p q : FsPath) (c : Bytes)
    → IsNormal p
    → q.repr ≡ p.repr ++ (b'/' ∷ c)
    → (length p.repr == 0) ≡ false
    → lacks b'/' c ≡ true
    → (branch_path q ≡ p) × (leaf_name q ≡ c)
branch_leaf-nested p q c n shape nz f = (
  branch_path-repr q p.repr c shape f ∙ rw nz (path!-repr p n),
  leaf_name-repr q p.repr c shape f,
)

-- A path with one more component has that component as its leaf, above the rest.
pub branch_leaf-render :
    (p q : FsPath) (h c : Bytes) (t : List Bytes)
    → IsNormal p
    → p.repr ≡ render h t
    → q.repr ≡ render h (t ++ (c ∷ []))
    → lacks b'/' c ≡ true
    → (branch_path q ≡ p) × (leaf_name q ≡ c)
branch_leaf-render p q [] c [] n e k f =
    let shape : q.repr ≡ [] ++ (b'/' ∷ c) = k ∙ simp append-nil in
    (
      branch_path-repr q [] c shape f ∙ ap (λ r. record { repr = r }) (sym e),
      leaf_name-repr q [] c shape f,
    )
branch_leaf-render p q (x ∷ h) c t n e k f =
    branch_leaf-nested p q c n (rw e (k ∙ simp (slashes-snoc, append_assoc)))
      (rw e (long x (h ++ slashes t))) f
branch_leaf-render p q [] c (x ∷ t) n e k f =
    branch_leaf-nested p q c n (rw e (k ∙ simp (slashes-snoc, append_assoc)))
      (rw e (long b'/' (x ++ slashes t))) f
