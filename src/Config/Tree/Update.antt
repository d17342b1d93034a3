-- ===== src/Config/Tree/Update.antt =====
-- What a setter of a configuration tree does to the leaf at its key.
use kyua.Prelude.{
  ◌≡◌, ◌⊎◌, inl, inr, refl, sym, ap, ◌∙◌, Bool, true, false, none, some, [], ◌∷◌, if_true,
  Option-cases,
}
use kyua.Prelude.Bytes.{Bytes, str_eq_self}
use kyua.Prelude.Results.{Result, ok, err}
use kyua.Config.{TreeKey, ConfigError, Leaf, leaf, inner, Children, empty, find_child, put_child}
use kyua.Config.Tree.{lookup_ro, lookup_rw, Change, put_leaf}
use kyua.Config.Tree.Others.{found_at, leaf_at, leaf_at-cons, leaf_at-put, none_at-empty}

-- The leaf at a key was `old`, or the hook made it.
abbrev pub WasLeaf : TreeKey → Leaf → Children → TreeKey → Leaf → Type 0
WasLeaf full fresh cs key old =
    (leaf_at full cs key ≡ some old) ⊎ ((leaf_at full cs key ≡ none) × (old ≡ fresh))

-- What a setter that threw nothing did.
abbrev pub Stored : TreeKey → Leaf → Change → Children → TreeKey → Children → Type 0
Stored full fresh change cs key after =
    (old : Leaf) × (l : Leaf) × WasLeaf full fresh cs key old
    × (change old ≡ ok l)
    × (leaf_at full after key ≡ some l)

put_leaf-Stored :
    (full : TreeKey) (fresh : Leaf) (change : Change) (cs : Children) (n : Bytes) (old : Leaf)
    → WasLeaf full fresh cs (n ∷ []) old
    → (r : Result ConfigError Leaf) → change old ≡ r
    → (put_leaf cs n old r).1 ≡ none
    → Stored full fresh change cs (n ∷ []) (put_leaf cs n old r).0
put_leaf-Stored full fresh change cs n old w (ok l) e h =
    (old, l, w, e, leaf_at-put full cs n n (leaf l) [] ∙ if_true _ _ _ (str_eq_self n))
put_leaf-Stored full fresh change cs n old w (err x) e h = cc

-- A child that stands for a stored leaf.
inner-Stored :
    (full : TreeKey) (fresh : Leaf) (change : Change) (cs sub made : Children) (n x : Bytes)
    (ns : TreeKey) (d : Bool)
    → leaf_at full cs (n ∷ x ∷ ns) ≡ leaf_at full sub (x ∷ ns)
    → Stored full fresh change sub (x ∷ ns) made
    → Stored full fresh change cs (n ∷ x ∷ ns) (put_child cs n (inner d made))
inner-Stored full fresh change cs sub made n x ns d e (old, l, w, c, k) = (
  old,
  l,
  rw e w,
  c,
  leaf_at-put full cs n n (inner d made) (x ∷ ns) ∙ if_true _ _ _ (str_eq_self n) ∙ k,
)

found-none :
    (full : TreeKey) (cs : Children) (n : Bytes) (ms : TreeKey)
    → find_child cs n ≡ none
    → leaf_at full cs (n ∷ ms) ≡ none
found-none full cs n ms e = leaf_at-cons full cs n ms ∙ ap (λ o. found_at full o ms) e

-- A setter that throws nothing changed the leaf at its key, which may be one that the hook made.
pub lookup_rw-Stored :
    (full : TreeKey) (fresh : Leaf) (change : Change) (d : Bool) (cs : Children) (key : TreeKey)
    → (lookup_rw full fresh change d cs key).1 ≡ none
    → Stored full fresh change cs key (lookup_rw full fresh change d cs key).0
unfolding lookup_rw lookup_ro
lookup_rw-Stored full fresh change d cs [] h = cc
lookup_rw-Stored full fresh change d cs (n ∷ []) h = elim (Option-cases (find_child cs n)) [
  | inl e ↦
      elim d
          as (λ k.
            (lookup_rw full fresh change k cs (n ∷ [])).1 ≡ none
            → Stored full fresh change cs (n ∷ []) (lookup_rw full fresh change k cs (n ∷ [])).0) [
              | true ↦
                  rw (e, lookup_rw)
                    (put_leaf-Stored full fresh change cs n fresh
                      (inr (found-none full cs n [] e, refl)) (change fresh) refl)
              | false ↦ λ k. cc
            ]
        h
  | inr (leaf l, e) ↦
      rw (e, lookup_rw)
        (put_leaf-Stored full fresh change cs n l
          (inl (leaf_at-cons full cs n [] ∙ ap (λ o. found_at full o []) e)) (change l) refl
          (rw (e, lookup_rw) at h))
  | inr (inner dd sub, e) ↦ cc
]
lookup_rw-Stored full fresh change d cs (n ∷ x ∷ ns) h = elim (Option-cases (find_child cs n)) [
  | inl e ↦
      elim d
          as (λ k.
            (lookup_rw full fresh change k cs (n ∷ x ∷ ns)).1 ≡ none
            → Stored full fresh change cs (n ∷ x ∷ ns)
                (lookup_rw full fresh change k cs (n ∷ x ∷ ns)).0) [
                  | true ↦
                      rw (e, lookup_rw)
                        (λ k.
                          inner-Stored full fresh change cs empty _ n x ns true
                            (found-none full cs n (x ∷ ns) e
                              ∙ sym (none_at-empty full true (x ∷ ns)))
                            (lookup_rw-Stored full fresh change true empty (x ∷ ns) k))
                  | false ↦ λ k. cc
                ]
        h
  | inr (leaf l, e) ↦ cc
  | inr (inner dd sub, e) ↦
      rw (e, lookup_rw)
        (inner-Stored full fresh change cs sub _ n x ns dd
          (leaf_at-cons full cs n (x ∷ ns) ∙ ap (λ o. found_at full o (x ∷ ns)) e)
          (lookup_rw-Stored full fresh change dd sub (x ∷ ns) (rw (e, lookup_rw) at h)))
]
