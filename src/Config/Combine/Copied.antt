-- ===== src/Config/Combine/Copied.antt =====
-- utils/config: a copy of a tree against the tree.
use kyua.Prelude.{◌≡◌, refl, ap, sym, ◌∙◌, Option, none, some, [], ◌∷◌, arith}
use kyua.Prelude.Bytes.{Bytes}
use kyua.Config.{TreeKey, Leaf, copy_leaf, Node, leaf, inner, Children, empty, child, find_child}
use kyua.Config.Tree.Others.{leaf_at-cons, node_at, found_at}
use kyua.Config.Combine.{copy_node, copy_children}

abbrev pub copied : Option Leaf → Option Leaf
copied none = none
copied (some l) = some (copy_leaf l)

abbrev pub copied_node : Option Node → Option Node
copied_node none = none
copied_node (some a) = some (copy_node a)

find_child-copy :
    (cs : Children) (n : Bytes) → find_child (copy_children cs) n ≡ copied_node (find_child cs n)
unfolding copy_children find_child
find_child-copy empty n = refl
find_child-copy (child m node cs) n = ground (arith, find_child-copy cs n)

-- A copy shows at every key the copy of the leaf.
pub node_at-copy :
    (full : TreeKey) (a : Node) (ms : TreeKey)
    → node_at full (copy_node a) ms ≡ copied (node_at full a ms)
unfolding copy_node
node_at-copy full (leaf l) [] = refl
node_at-copy full (leaf l) (m ∷ ms) = refl
node_at-copy full (inner d cs) [] = refl
node_at-copy full (inner d cs) (m ∷ ms) =
    leaf_at-cons full (copy_children cs) m ms
    ∙ ap (λ o. found_at full o ms) (find_child-copy cs m)
    ∙ elim (find_child cs m)
        as (λ o. found_at full (copied_node o) ms ≡ copied (found_at full o ms)) [
          | none ↦ refl
          | some a ↦ node_at-copy full a ms
        ]
    ∙ ap copied (sym (leaf_at-cons full cs m ms))
