-- ===== src/FsPath/Normal.antt =====
-- The shape of a normalized path: a first component, and components behind separators.
use kyua.Prelude.{
  ℕ, zero, suc, ◌+◌, ◌-◌, ◌≤◌, ◌<◌, ◌≡◌, ◌≢◌, inl, inr, refl, sym, ap, ◌∙◌, Bool, true, false, not,
  ◌&&◌, none, some, List, [], ◌∷◌, ◌++◌, arith, ◌==◌, length, take, drop, filter, is_empty, all,
  append_assoc, append-nil, Bool-cases,
}
use kyua.Prelude.Bytes.{
  Bytes, str_eq, find_from, substr, lacks, pieces, find_from_cases, pieces-lacks, pieces-append,
  all-lacks-pieces,
}
use kyua.Prelude.{subst}
use kyua.Prelude.Results.{ok}
use kyua.FsPath.{FsPath, path, path!, add_component, normalize_loop, or_root, normalized}

abbrev pub slashes : List Bytes → Bytes
slashes [] = []
slashes (c ∷ cs) = b'/' ∷ (c ++ slashes cs)

-- What may stand behind a separator.
unfoldable pub is_component : Bytes → Bool
unfolding str_eq
is_component c = not (is_empty c) && not (str_eq c (b'.' ∷ []))

abbrev pub is_tail : List Bytes → Bool
is_tail = all (λ c. lacks b'/' c && is_component c)

abbrev pub render : Bytes → List Bytes → Bytes
render h t = or_root (h ++ slashes t)

abbrev pub head_of : List Bytes → Bytes
head_of [] = []
head_of (p ∷ ps) = p

abbrev pub tail_of : List Bytes → List Bytes
tail_of [] = []
tail_of (p ∷ ps) = ps

-- A reference definition of `normalize`: drop the empty and the "." components behind the first.
unfoldable pub normal : Bytes → Bytes
normal s = render (head_of (pieces b'/' s)) (filter is_component (tail_of (pieces b'/' s)))

-- Behind the first component, a round adds the component if it is kept.
add_component-slashes :
    (c : Bytes) (cs : List Bytes) (out : Bytes)
    → add_component false c out ++ slashes (filter is_component cs)
      ≡ out ++ slashes (filter is_component (c ∷ cs))
unfolding add_component is_component
add_component-slashes [] cs out = refl
add_component-slashes (x ∷ c) cs out = elim (Bool-cases (str_eq (x ∷ c) (b'.' ∷ []))) [
  | inl e ↦ rw e refl
  | inr e ↦ rw e (append_assoc out (b'/' ∷ x ∷ c) (slashes (filter is_component cs)))
]

-- One round of the loop, by what `find` returns.
module _ (fuel : ℕ) (s : Bytes) (pos : ℕ) (out : Bytes) where
  loop_last :
      find_from b'/' s pos ≡ none
      → normalize_loop (suc fuel) s pos out ≡ add_component (pos == 0) (drop pos s) out
  unfolding normalize_loop
  loop_last e = ground arith

  loop_next :
      (next : ℕ)
      → find_from b'/' s pos ≡ some next
      → normalize_loop (suc fuel) s pos out
        ≡ normalize_loop fuel s
            (next + 1)
            (add_component (pos == 0) (substr s pos (next - pos)) out)
  unfolding normalize_loop
  loop_next next e = ground arith

normalize_loop-slashes :
    (fuel : ℕ) (s : Bytes) (pos : ℕ) (out : Bytes)
    → 0 < pos
    → pos ≤ length s
    → length s < pos + fuel
    → normalize_loop fuel s pos out
      ≡ out ++ slashes (filter is_component (pieces b'/' (drop pos s)))
unfolding normalize_loop
normalize_loop-slashes zero s pos out h k l = absurd (omega arith)
normalize_loop-slashes (suc fuel) s pos out h k l =
    let later : (pos == 0) ≡ false = ground arith in
    elim (find_from_cases b'/' s pos) [
      | inl (e, parts) ↦
          rw (loop_last fuel s pos out e, parts, later)
            (sym (append-nil _) ∙ add_component-slashes (drop pos s) [] out)
      | inr (n, e, parts, hit, within) ↦
          let offset : pos + n - pos ≡ n = omega arith in
          rw (loop_next fuel s pos out (pos + n) e, parts, later, offset)
            (normalize_loop-slashes fuel s (pos + n + 1) _ (omega arith) (omega arith) (omega arith)
              ∙ add_component-slashes (take n (drop pos s)) _ out)
    ]

add_component-first : (c : Bytes) → add_component true c [] ≡ c
unfolding add_component
add_component-first [] = refl
add_component-first (x ∷ c) = refl

-- The position loop computes the reference definition.
pub normalized-normal : (s : Bytes) → normalized s ≡ normal s
unfolding normalized normal
normalized-normal s = ap or_root (elim (find_from_cases b'/' s 0) [
  | inl (e, parts) ↦
      rw (loop_last (length s) s 0 [] e, parts) (add_component-first s ∙ sym (append-nil s))
  | inr (n, e, parts, hit, within) ↦
      let offset : 0 + n - 0 ≡ n = omega arith in
      rw (loop_next (length s) s 0 [] (0 + n) e, parts, offset, add_component-first (take n s))
        (normalize_loop-slashes (length s) s (0 + n + 1) (take n s) (omega arith) (omega arith)
          (omega arith))
])

pub pieces-slashes :
    (h : Bytes) (t : List Bytes)
    → lacks b'/' h ≡ true
    → is_tail t ≡ true
    → pieces b'/' (h ++ slashes t) ≡ h ∷ t
pieces-slashes h [] k l = rw append-nil (pieces-lacks b'/' h k)
pieces-slashes h (c ∷ t) k l =
    pieces-append b'/' h (c ++ slashes t) k
    ∙ ap (◌∷◌ h) (pieces-slashes c t (ground arith) (ground arith))

pub is_tail-filter :
    (ps : List Bytes) → all (lacks b'/') ps ≡ true → is_tail (filter is_component ps) ≡ true
is_tail-filter [] h = refl
is_tail-filter (p ∷ ps) h = ground (arith, is_tail-filter ps)

pub filter-is_tail : (t : List Bytes) → is_tail t ≡ true → filter is_component t ≡ t
filter-is_tail [] h = refl
filter-is_tail (c ∷ t) h = ground (arith, filter-is_tail t)

-- A path is a first component, empty for an absolute path, and components that are neither empty
-- nor "."; none of them holds a separator.
pub record IsNormal (p : FsPath) : Type 0 where
  pub head : Bytes
  pub tail : List Bytes
  pub shape : p.repr ≡ render head tail
  pub head_lacks : lacks b'/' head ≡ true
  pub tail_is : is_tail tail ≡ true

all-lacks-tail :
    (ps : List Bytes) → all (lacks b'/') ps ≡ true → all (lacks b'/') (tail_of ps) ≡ true
all-lacks-tail [] h = refl
all-lacks-tail (p ∷ ps) h = ground arith

all-lacks-head : (ps : List Bytes) → all (lacks b'/') ps ≡ true → lacks b'/' (head_of ps) ≡ true
all-lacks-head [] h = refl
all-lacks-head (p ∷ ps) h = ground arith

pub path!-IsNormal : (s : Bytes) → IsNormal (path! s)
unfolding path! normal
path!-IsNormal s = record {
  head = head_of (pieces b'/' s);
  tail = filter is_component (tail_of (pieces b'/' s));
  shape = normalized-normal s;
  head_lacks = all-lacks-head (pieces b'/' s) (all-lacks-pieces b'/' s);
  tail_is = is_tail-filter _ (all-lacks-tail (pieces b'/' s) (all-lacks-pieces b'/' s));
}

pub normal-render :
    (h : Bytes) (t : List Bytes)
    → lacks b'/' h ≡ true
    → is_tail t ≡ true
    → normal (render h t) ≡ render h t
unfolding normal is_component
normal-render [] [] k l = refl
normal-render (x ∷ h) t k l = rw (pieces-slashes (x ∷ h) t k l, filter-is_tail t l)
normal-render [] (c ∷ t) k l = rw (pieces-slashes [] (c ∷ t) k l, filter-is_tail (c ∷ t) l)

pub path!-repr : (p : FsPath) → IsNormal p → path! p.repr ≡ p
unfolding path!
path!-repr p n =
    ap (λ r. record { repr = r })
      (ap normalized n.shape
        ∙ normalized-normal (render n.head n.tail)
        ∙ normal-render n.head n.tail n.head_lacks n.tail_is
        ∙ sym n.shape)

pub path!-path : (s : Bytes) → s ≢ [] → path s ≡ ok (path! s)
unfolding path path!
path!-path [] h = absurd (h refl)
path!-path (c ∷ s) h = refl

path-path! : (s : Bytes) {p : FsPath} → path s ≡ ok p → path! s ≡ p
unfolding path path!
path-path! [] h = cc
path-path! (c ∷ s) h = cc

render-ne-nil : (h : Bytes) (t : List Bytes) → render h t ≢ []
render-ne-nil h t = go (h ++ slashes t)
  where
    go : (s : Bytes) → or_root s ≢ []
    go [] = λ e. cc
    go (c ∷ s) = λ e. cc

-- A path that is made from a text is in normal form.
pub path-IsNormal : (s : Bytes) {p : FsPath} → path s ≡ ok p → IsNormal p
path-IsNormal s e = subst IsNormal (path-path! s e) (path!-IsNormal s)

-- A path in normal form is what its own text is made into.
pub path-repr : (p : FsPath) → IsNormal p → path p.repr ≡ ok p
path-repr p n =
    path!-path p.repr (rw n.shape (render-ne-nil n.head n.tail)) ∙ ap ok (path!-repr p n)

pub IsNormal-ne-nil : (p : FsPath) → IsNormal p → p.repr ≢ []
IsNormal-ne-nil p n = rw n.shape (render-ne-nil n.head n.tail)
