-- ===== src/FsPath/Join.antt =====
-- `operator/`.
use kyua.Prelude.{
  ◌≡◌, ◌≢◌, refl, sym, ap, ◌∙◌, true, false, ◌&&◌, List, [], ◌∷◌, ◌++◌, arith, filter, append_assoc,
  append-nil, all-append,
}
use kyua.Prelude.Bytes.{Bytes, lacks, pieces, pieces-lacks, pieces-append, all-lacks-pieces}
use kyua.Prelude.{subst}
use kyua.Prelude.Results.{ok, ◌>>=◌}
use kyua.FsPath.{
  FsPath, path, path!, is_absolute, join_path, join_text, branch_path, leaf_name, or_root,
}
use kyua.FsPath.Branch.{branch_leaf-render}
use kyua.FsPath.Parent.{append_cons-ne-nil}
use kyua.FsPath.Normal.{
  IsNormal, render, slashes, is_tail, is_component, normal, path-repr, normalized-normal,
  path!-path, pieces-slashes, filter-is_tail, is_tail-filter,
}

pieces-slashes_append :
    (h : Bytes) (t : List Bytes) (s : Bytes)
    → lacks b'/' h ≡ true
    → is_tail t ≡ true
    → pieces b'/' (h ++ (slashes t ++ (b'/' ∷ s))) ≡ h ∷ (t ++ pieces b'/' s)
pieces-slashes_append h [] s k l = pieces-append b'/' h s k
pieces-slashes_append h (c ∷ t) s k l = rw append_assoc (
    pieces-append b'/' h (c ++ (slashes t ++ (b'/' ∷ s))) k
    ∙ ap (◌∷◌ h) (pieces-slashes_append c t s (ground arith) (ground arith)))

filter-append :
    (t u : List Bytes)
    → filter is_component (t ++ u) ≡ filter is_component t ++ filter is_component u
filter-append [] u = refl
filter-append (c ∷ t) u = ground (arith, filter-append t u)

-- The normal form of a path with more text behind it.
normal-join :
    (h : Bytes) (t : List Bytes) (s : Bytes)
    → lacks b'/' h ≡ true
    → is_tail t ≡ true
    → normal (render h t ++ (b'/' ∷ s)) ≡ render h (t ++ filter is_component (pieces b'/' s))
unfolding normal is_component
normal-join [] [] s k l = refl
normal-join (c ∷ h) t s k l =
    rw (append_assoc, pieces-slashes_append (c ∷ h) t s k l, filter-append, filter-is_tail t l) refl
normal-join [] (c ∷ t) s k l =
    let kept : filter is_component (c ∷ (t ++ pieces b'/' s))
        ≡ (c ∷ t) ++ filter is_component (pieces b'/' s) =
      filter-append (c ∷ t) (pieces b'/' s)
      ∙ ap (λ u. u ++ filter is_component (pieces b'/' s)) (filter-is_tail (c ∷ t) l) in
    rw (append_assoc, pieces-slashes_append c t s (ground arith) (ground arith))
      (ap (λ u. or_root (slashes u)) kept)

-- The path that `operator/` makes of a path and a text.
below : (p : FsPath) → IsNormal p → Bytes → FsPath
below p n s = record { repr = render n.head (n.tail ++ filter is_component (pieces b'/' s)) }

path-below :
    (p : FsPath) (n : IsNormal p) (s : Bytes) → path (p.repr ++ (b'/' ∷ s)) ≡ ok (below p n s)
unfolding below path!
path-below p n s =
    path!-path (p.repr ++ (b'/' ∷ s)) (append_cons-ne-nil b'/' s p.repr)
    ∙ ap (λ r. ok (record { repr = r }))
        (normalized-normal (p.repr ++ (b'/' ∷ s))
          ∙ rw n.shape (normal-join n.head n.tail s n.head_lacks n.tail_is))

all_is_tail-append :
    (t u : List Bytes) → is_tail t ≡ true → is_tail u ≡ true → is_tail (t ++ u) ≡ true
all_is_tail-append t u h k = ground (arith, all-append (λ c. lacks b'/' c && is_component c) t u)

below-IsNormal : (p : FsPath) (n : IsNormal p) (s : Bytes) → IsNormal (below p n s)
unfolding below
below-IsNormal p n s = record {
  head = n.head;
  tail = n.tail ++ filter is_component (pieces b'/' s);
  shape = refl;
  head_lacks = n.head_lacks;
  tail_is =
      all_is_tail-append n.tail _ n.tail_is
        (is_tail-filter (pieces b'/' s) (all-lacks-pieces b'/' s));
}

relative_head :
    (h : Bytes) (t : List Bytes) → is_absolute (record { repr = render h t }) ≡ false → h ≢ []
unfolding is_absolute
relative_head [] [] h e = cc
relative_head [] (c ∷ t) h e = cc
relative_head (c ∷ x) t h e = cc

pieces-render :
    (h : Bytes) (t : List Bytes)
    → h ≢ []
    → lacks b'/' h ≡ true
    → is_tail t ≡ true
    → pieces b'/' (render h t) ≡ h ∷ t
pieces-render [] t ne k l = absurd (ne refl)
pieces-render (c ∷ h) t ne k l = pieces-slashes (c ∷ h) t k l

is_absolute-render :
    (h : Bytes) (t : List Bytes)
    → h ≢ []
    → lacks b'/' h ≡ true
    → is_absolute (record { repr = render h t }) ≡ false
unfolding is_absolute
is_absolute-render [] t ne k = absurd (ne refl)
is_absolute-render (c ∷ h) t ne k = ground arith

join_path-below :
    (p q : FsPath) (n : IsNormal p) → is_absolute q ≡ false → join_path p q ≡ ok (below p n q.repr)
unfolding join_path
join_path-below p q n e = rw (e, path-below p n q.repr) refl

-- A relative path, by its first component.
module _ (b : FsPath) (m : IsNormal b) (rb : is_absolute b ≡ false) where
  head-ne-nil : m.head ≢ []
  head-ne-nil =
      relative_head m.head m.tail
        (subst (λ q. is_absolute q ≡ false) (ap (λ r. record { repr = r }) m.shape) rb)

  is_absolute-below : (s : Bytes) → is_absolute (below b m s) ≡ false
  unfolding below
  is_absolute-below s = is_absolute-render m.head _ head-ne-nil m.head_lacks

  pieces-below :
      (s : Bytes)
      → filter is_component (pieces b'/' (below b m s).repr)
        ≡ filter is_component (pieces b'/' b.repr) ++ filter is_component (pieces b'/' s)
  unfolding below
  pieces-below s =
      let rest = filter is_component (pieces b'/' s) in
      let rest_is = is_tail-filter (pieces b'/' s) (all-lacks-pieces b'/' s) in
      rw
        (
          m.shape,
          pieces-render m.head m.tail head-ne-nil m.head_lacks m.tail_is,
          pieces-render m.head (m.tail ++ rest) head-ne-nil m.head_lacks
              (all_is_tail-append m.tail rest m.tail_is rest_is),
        )
        (filter-append (m.head ∷ m.tail) rest ∙ rw (filter-is_tail rest rest_is) refl)

-- For paths in normal form, joining is associative, and does not fail, where the second and third
-- are relative.
pub join_path_assoc :
    (a b c : FsPath)
    → IsNormal a
    → IsNormal b
    → IsNormal c
    → is_absolute b ≡ false
    → is_absolute c ≡ false
    → (d : FsPath) × ((join_path a b >>= λ ab. join_path ab c) ≡ ok d)
      × ((join_path b c >>= λ bc. join_path a bc) ≡ ok d)
unfolding below below-IsNormal
join_path_assoc a b c l m n rb rc =
    let ab = below a l b.repr in
    let ab_normal = below-IsNormal a l b.repr in
    (
      below ab ab_normal c.repr,
      rw (join_path-below a b l rb) (join_path-below ab c ab_normal rc),
      rw (join_path-below b c m rc) (
          join_path-below a (below b m c.repr) l (is_absolute-below b m rb c.repr)
          ∙ ap (λ u. ok (record { repr = render l.head u }))
              (ap (◌++◌ l.tail) (pieces-below b m rb c.repr) ∙ sym (append_assoc l.tail _ _))),
    )

component-IsNormal :
    (c : Bytes) → lacks b'/' c ≡ true → is_component c ≡ true → IsNormal (record { repr = c })
unfolding is_component
component-IsNormal [] f k = cc
component-IsNormal (x ∷ c) f k = record {
  head = x ∷ c;
  tail = [];
  shape = sym (append-nil (x ∷ c));
  head_lacks = f;
  tail_is = refl;
}

is_absolute-component :
    (c : Bytes)
    → lacks b'/' c ≡ true
    → is_component c ≡ true
    → is_absolute (record { repr = c }) ≡ false
unfolding is_component is_absolute
is_absolute-component [] f k = refl
is_absolute-component (x ∷ c) f k = ground arith

filter-kept : (c : Bytes) → is_component c ≡ true → filter is_component (c ∷ []) ≡ c ∷ []
filter-kept c k = rw k refl

-- A component that is not empty, not "." and holds no separator, joined to a path in normal form,
-- has the path as its branch and itself as its leaf.
pub branch_leaf-join :
    (p : FsPath) (c : Bytes)
    → IsNormal p
    → lacks b'/' c ≡ true
    → is_component c ≡ true
    → (q : FsPath) × (join_text p c ≡ ok q) × (branch_path q ≡ p) × (leaf_name q ≡ c)
unfolding join_text below
branch_leaf-join p c n f k =
    let rest : FsPath = record { repr = c } in
    let rest_normal = component-IsNormal c f k in
    let relative = is_absolute-component c f k in
    let whole = pieces-lacks b'/' c f in
    let q = below p n c in
    let parts =
      branch_leaf-render p q n.head c n.tail n n.shape (rw (whole, filter-kept c k) refl) f in
    (
      q,
      rw (path-repr rest rest_normal, join_text) (join_path-below p rest n relative),
      parts.0,
      parts.1,
    )
