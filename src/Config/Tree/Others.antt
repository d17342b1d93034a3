-- ===== src/Config/Tree/Others.antt =====
-- A setter of a configuration tree leaves the other leaves as they are.
use kyua.Prelude.{
  ◌≡◌, ◌≢◌, inl, inr, refl, sym, ap, ap₂, ◌∙◌, Bool, true, false, Option, none, some, [], ◌∷◌,
  arith, if◌then◌else◌, if_true, if_false, Option-cases, Bool-cases,
}
use kyua.Prelude.Bytes.{Bytes, str_eq, str_eq_iff}
use kyua.Prelude.Results.{Result, ok, err}
use kyua.Config.{
  TreeKey, ConfigError, Leaf, Node, leaf, inner, Children, empty, child, find_child, put_child,
}
use kyua.Config.Tree.{lookup_ro, lookup_rw, Change, put_leaf}

abbrev pub as_leaf : Result ConfigError Node → Option Leaf
as_leaf (ok (leaf l)) = some l
as_leaf r = none

-- The leaf that a lookup finds.
abbrev pub leaf_at : TreeKey → Children → TreeKey → Option Leaf
leaf_at full cs key = as_leaf (lookup_ro full cs key)

pub find-put :
    (cs : Children) (n m : Bytes) (node : Node)
    → find_child (put_child cs n node) m ≡ (if str_eq n m then some node else find_child cs m)
unfolding find_child put_child
find-put empty n m node = refl
find-put (child k old cs) n m node =
    ground (arith, find-put cs n m node, str_eq_iff k n, str_eq_iff k m, str_eq_iff n m)

abbrev pub node_at : TreeKey → Node → TreeKey → Option Leaf
node_at full (leaf l) [] = some l
node_at full (leaf l) (m ∷ ms) = none
node_at full (inner d cs) [] = none
node_at full (inner d cs) (m ∷ ms) = leaf_at full cs (m ∷ ms)

abbrev pub found_at : TreeKey → Option Node → TreeKey → Option Leaf
found_at full none ms = none
found_at full (some node) ms = node_at full node ms

pub leaf_at-cons :
    (full : TreeKey) (cs : Children) (n : Bytes) (ms : TreeKey)
    → leaf_at full cs (n ∷ ms) ≡ found_at full (find_child cs n) ms
unfolding lookup_ro
leaf_at-cons full cs n [] = ground arith
leaf_at-cons full cs n (m ∷ ms) = ground arith

pub leaf_at-put :
    (full : TreeKey) (cs : Children) (n m : Bytes) (node : Node) (ms : TreeKey)
    → leaf_at full (put_child cs n node) (m ∷ ms)
      ≡ (if str_eq n m then node_at full node ms else leaf_at full cs (m ∷ ms))
leaf_at-put full cs n m node ms = elim (Bool-cases (str_eq n m)) [
  | inl e ↦
      leaf_at-cons full (put_child cs n node) m ms
      ∙ ap (λ o. found_at full o ms) (find-put cs n m node ∙ if_true _ _ _ e)
      ∙ sym (if_true _ _ _ e)
  | inr e ↦
      leaf_at-cons full (put_child cs n node) m ms
      ∙ ap (λ o. found_at full o ms) (find-put cs n m node ∙ if_false _ _ _ e)
      ∙ sym (leaf_at-cons full cs m ms)
      ∙ sym (if_false _ _ _ e)
]

-- Putting a node that shows what the old one showed changes nothing.
pub put_same :
    (full : TreeKey) (cs : Children) (n m : Bytes) (node : Node) (ms : TreeKey)
    → (n ≡ m → node_at full node ms ≡ found_at full (find_child cs n) ms)
    → leaf_at full (put_child cs n node) (m ∷ ms) ≡ leaf_at full cs (m ∷ ms)
put_same full cs n m node ms h = elim (Bool-cases (str_eq n m)) [
  | inl e ↦
      leaf_at-put full cs n m node ms
      ∙ if_true _ _ _ e
      ∙ h ((str_eq_iff n m).0 e)
      ∙ ap (λ k. found_at full (find_child cs k) ms) ((str_eq_iff n m).0 e)
      ∙ sym (leaf_at-cons full cs m ms)
  | inr e ↦ leaf_at-put full cs n m node ms ∙ if_false _ _ _ e
]

pub put_leaf-other :
    (full : TreeKey) (cs : Children) (n m : Bytes) (old : Leaf) (r : Result ConfigError Leaf)
    (ms : TreeKey)
    → (m ∷ ms) ≢ (n ∷ [])
    → ((x : Bytes) (xs : TreeKey) → found_at full (find_child cs n) (x ∷ xs) ≡ none)
    → leaf_at full (put_leaf cs n old r).0 (m ∷ ms) ≡ leaf_at full cs (m ∷ ms)
put_leaf-other full cs n m old (ok l) [] h k =
    put_same full cs n m (leaf l) [] (λ e. absurd (h (rw e refl)))
put_leaf-other full cs n m old (err w) [] h k =
    put_same full cs n m (leaf old) [] (λ e. absurd (h (rw e refl)))
put_leaf-other full cs n m old (ok l) (x ∷ ms) h k =
    put_same full cs n m (leaf l) (x ∷ ms) (λ e. sym (k x ms))
put_leaf-other full cs n m old (err w) (x ∷ ms) h k =
    put_same full cs n m (leaf old) (x ∷ ms) (λ e. sym (k x ms))

pub inner_same :
    (full : TreeKey) (d : Bool) (made sub : Children) (ms : TreeKey)
    → leaf_at full made ms ≡ leaf_at full sub ms
    → node_at full (inner d made) ms ≡ node_at full (inner d sub) ms
inner_same full d made sub [] h = refl
inner_same full d made sub (m ∷ ms) h = h

pub none_at-empty :
    (full : TreeKey) (d : Bool) (ms : TreeKey) → node_at full (inner d empty) ms ≡ none
unfolding lookup_ro find_child
none_at-empty full d [] = refl
none_at-empty full d (m ∷ []) = refl
none_at-empty full d (m ∷ x ∷ ms) = refl

-- A setter leaves what is found at every other key as it was, whatever it did.
pub lookup_rw-others :
    (full : TreeKey) (fresh : Leaf) (change : Change) (d : Bool) (cs : Children)
    (key other : TreeKey)
    → other ≢ key
    → leaf_at full (lookup_rw full fresh change d cs key).0 other ≡ leaf_at full cs other
unfolding lookup_rw lookup_ro
lookup_rw-others full fresh change d cs [] other h = refl
lookup_rw-others full fresh change d cs (n ∷ []) [] h = refl
lookup_rw-others full fresh change d cs (n ∷ x ∷ ns) [] h = refl
lookup_rw-others full fresh change d cs (n ∷ []) (m ∷ ms) h =
    elim (Option-cases (find_child cs n)) [
      | inl e ↦
          elim d
            as (λ k.
              leaf_at full (lookup_rw full fresh change k cs (n ∷ [])).0 (m ∷ ms)
              ≡ leaf_at full cs (m ∷ ms)) [
                | true ↦
                    rw (e, lookup_rw)
                      (put_leaf-other full cs n m fresh (change fresh) ms h (λ y ys. rw e refl))
                | false ↦ rw (e, lookup_rw) refl
              ]
      | inr (leaf l, e) ↦
          rw (e, lookup_rw) (put_leaf-other full cs n m l (change l) ms h (λ y ys. rw e refl))
      | inr (inner dd sub, e) ↦ rw (e, lookup_rw) refl
    ]
lookup_rw-others full fresh change d cs (n ∷ x ∷ ns) (m ∷ ms) h =
    elim (Option-cases (find_child cs n)) [
      | inl e ↦
          elim d
            as (λ k.
              leaf_at full (lookup_rw full fresh change k cs (n ∷ x ∷ ns)).0 (m ∷ ms)
              ≡ leaf_at full cs (m ∷ ms)) [
                | true ↦
                    rw (e, lookup_rw)
                      (put_same full cs n m (inner true _) ms (λ p. rw e (
                        inner_same full true _ empty ms (
                          lookup_rw-others full fresh change true empty (x ∷ ns) ms
                            (λ q. h (ap₂ (◌∷◌) (sym p) q)))
                        ∙ none_at-empty full true ms)))
                | false ↦ rw (e, lookup_rw) refl
              ]
      | inr (leaf l, e) ↦ rw (e, lookup_rw) refl
      | inr (inner dd sub, e) ↦
          rw (e, lookup_rw)
            (put_same full cs n m (inner dd _) ms (λ p. rw e (
              inner_same full dd _ sub ms (
                lookup_rw-others full fresh change dd sub (x ∷ ns) ms
                  (λ q. h (ap₂ (◌∷◌) (sym p) q))))))
    ]
