-- ===== src/Config/Combine/Values.antt =====
-- utils/config (nodes.cpp, tree.cpp): the leaves of the combination of two trees.
use kyua.Prelude.{
  ℕ, zero, suc, ◌≡◌, inl, inr, refl, sym, ap, ap₂, ◌∙◌, Bool, false, Option, none, some, [], ◌∷◌,
  ◌++◌, if◌then◌else◌, Option-cases, arith, ◌||◌,
}
use kyua.Prelude.Bytes.{Bytes}
use kyua.Prelude.Results.{Result, ok, err}
use kyua.Config.{
  TreeKey, ConfigError, Leaf, is_set, copy_leaf, Node, leaf, inner, Children, empty, find_child,
}
use kyua.Config.Tree.{Tree}
use kyua.Config.Tree.Others.{leaf_at, leaf_at-cons, node_at, found_at}
use kyua.Config.Combine.{
  Combine, combine_children_into, combine_into, combine_node, height, with_root, combine_trees,
}
use kyua.Config.Combine.Copied.{copied, node_at-copy}
use kyua.Config.Combine.Passes.{Made, >>=-ok, pass-old, pass-none, pass-new}

-- The leaf of a key from its leaves in the base and in the overrides: the leaf of the overrides
-- when it is set, else the leaf of the base, else what there is; a copy of it.
abbrev pub merged : Option Leaf → Option Leaf → Option Leaf
merged none o = copied o
merged (some l) none = copied (some l)
merged (some l) (some m) = copied (some (if is_set m then m else l))

merged-none : (o : Option Leaf) → merged o none ≡ copied o
merged-none none = refl
merged-none (some l) = refl

-- A `combine` that merges at every key.
Merges : TreeKey → Combine → Type 0
Merges full f =
    (key : TreeKey) (a b r : Node)
    → f key a b ≡ ok r
    → (ms : TreeKey) → node_at full r ms ≡ merged (node_at full a ms) (node_at full b ms)

Made-merged :
    (full : TreeKey) (f : Combine) (key : TreeKey) (n : Bytes) (a r : Node) (o : Option Node)
    → Merges full f
    → Made f key n a o r
    → (ms : TreeKey) → node_at full r ms ≡ merged (node_at full a ms) (found_at full o ms)
unfolding Merges
Made-merged full f key n a r none g h ms =
    ap (λ x. node_at full x ms) h ∙ node_at-copy full a ms ∙ sym (merged-none (node_at full a ms))
Made-merged full f key n a r (some b) g h ms = g (key ++ (n ∷ [])) a b r h ms

combine_into-merged :
    (full : TreeKey) (f : Combine) (key : TreeKey) (cs ds all : Children) (n : Bytes) (ms : TreeKey)
    → Merges full f
    → combine_into f key cs ds ≡ ok all
    → found_at full (find_child all n) ms
      ≡ merged (found_at full (find_child cs n) ms) (found_at full (find_child ds n) ms)
unfolding combine_into find_child
combine_into-merged full f key cs ds all n ms g h =
    let inverted = >>=-ok (combine_children_into f key cs ds empty) _ all h in
    let first : Children = inverted.0 in
    elim (Option-cases (find_child cs n)) [
      | inr (a, e) ↦
          let new = pass-new f key cs ds empty first n a inverted.1 refl e in
          let kept = pass-old f key ds cs first all n new.0 inverted.2 new.2 in
          ap (λ o. found_at full o ms) kept
          ∙ Made-merged full f key n a new.0 (find_child ds n) g new.1 ms
          ∙ ap (λ o. merged (found_at full o ms) (found_at full (find_child ds n) ms)) (sym e)
      | inl e ↦
          let lacks = pass-none f key cs ds empty first n inverted.1 refl e in
          elim (Option-cases (find_child ds n)) [
            | inl d ↦
                ap (λ o. found_at full o ms) (pass-none f key ds cs first all n inverted.2 lacks d)
                ∙ ap₂ (λ o p. merged (found_at full o ms) (found_at full p ms)) (sym e) (sym d)
            | inr (b, d) ↦
                let new = pass-new f key ds cs first all n b inverted.2 lacks d in
                ap (λ o. found_at full o ms) new.2
                ∙ Made-merged full f key n b new.0 (find_child cs n) g new.1 ms
                ∙ ap (λ o. merged (node_at full b ms) (found_at full o ms)) e
                ∙ merged-none (node_at full b ms)
                ∙ ap₂ (λ o p. merged (found_at full o ms) (found_at full p ms)) (sym e) (sym d)
          ]
    ]

node_or : Node → Result ConfigError Node → Node
node_or a (ok b) = b
node_or a (err e) = a

inner-merged :
    (full : TreeKey) (d e : Bool) (cs ds all : Children) (ms : TreeKey)
    → ((n : Bytes) (ns : TreeKey)
        → found_at full (find_child all n) ns
          ≡ merged (found_at full (find_child cs n) ns) (found_at full (find_child ds n) ns))
    → node_at full (inner (d || e) all) ms
      ≡ merged (node_at full (inner d cs) ms) (node_at full (inner e ds) ms)
inner-merged full d e cs ds all [] h = refl
inner-merged full d e cs ds all (n ∷ ns) h =
    leaf_at-cons full all n ns
    ∙ h n ns
    ∙ ap₂ merged (sym (leaf_at-cons full cs n ns)) (sym (leaf_at-cons full ds n ns))

leaf-merged :
    (full : TreeKey) (l m : Leaf) (ms : TreeKey)
    → node_at full (leaf (if is_set m then copy_leaf m else copy_leaf l)) ms
      ≡ merged (node_at full (leaf l) ms) (node_at full (leaf m) ms)
leaf-merged full l m [] = ground arith
leaf-merged full l m (n ∷ ns) = refl

combine_node-Merges : (full : TreeKey) (fuel : ℕ) → Merges full (combine_node fuel)
unfolding combine_node Merges node_or
combine_node-Merges full zero key a b r h ms = absurd cc
combine_node-Merges full (suc fuel) key (leaf l) (leaf m) r h ms =
    ap (λ x. node_at full x ms) (sym (ap (node_or r) h)) ∙ leaf-merged full l m ms
combine_node-Merges full (suc fuel) key (leaf l) (inner d ds) r h ms = absurd cc
combine_node-Merges full (suc fuel) key (inner d cs) (leaf m) r h ms = absurd cc
combine_node-Merges full (suc fuel) key (inner d cs) (inner e ds) r h ms =
    let inverted = >>=-ok (combine_into (combine_node fuel) key cs ds) _ r h in
    ap (λ x. node_at full x ms) (sym (ap (node_or r) inverted.2))
    ∙ inner-merged full d e cs ds inverted.0 ms (λ n ns.
      combine_into-merged full (combine_node fuel) key cs ds inverted.0 n ns
        (combine_node-Merges full fuel) inverted.1)

root_or : Children → Result ConfigError Tree → Children
root_or cs (ok t) = t.root
root_or cs (err e) = cs

with_root-leaf_at :
    (t made : Tree) (r : Node) (full : TreeKey) (n : Bytes) (ns : TreeKey)
    → with_root t r ≡ ok made
    → leaf_at full made.root (n ∷ ns) ≡ node_at full r (n ∷ ns)
unfolding root_or
with_root-leaf_at t made (leaf l) full n ns h = absurd cc
with_root-leaf_at t made (inner d cs) full n ns h =
    ap (λ c. leaf_at full c (n ∷ ns)) (sym (ap (root_or cs) h))

-- When two trees combine, the combination has at every key the value that is set in the
-- overrides, else that of the base, and a leaf wherever one of the two has one.
pub combine_trees-merged :
    (t overrides made : Tree) (full key : TreeKey) (n : Bytes)
    → combine_trees t overrides ≡ ok made
    → leaf_at full made.root (n ∷ key)
      ≡ merged (leaf_at full t.root (n ∷ key)) (leaf_at full overrides.root (n ∷ key))
unfolding combine_trees Merges
combine_trees-merged t overrides made full key n h =
    let inverted =
      >>=-ok
        (combine_node (height (inner false t.root)) [] (inner false t.root)
          (inner false overrides.root))
        _ made h in
    with_root-leaf_at t made inverted.0 full n key inverted.2
    ∙ combine_node-Merges full (height (inner false t.root)) [] (inner false t.root)
        (inner false overrides.root) inverted.0 inverted.1 (n ∷ key)
