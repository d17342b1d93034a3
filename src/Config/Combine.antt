-- ===== src/Config/Combine.antt =====
-- utils/config (nodes.cpp, tree.cpp): copies and combinations of configuration trees.
use kyua.Prelude.{ℕ, zero, suc, false, ◌||◌, none, some, [], ◌∷◌, ◌++◌, max, if◌then◌else◌}
use kyua.Prelude.Results.{Result, ok, err, ◌>>=◌}
use kyua.Config.{
  TreeKey, ConfigError, bad_combination_error, failed_precondition, is_set, copy_leaf, Node, leaf,
  inner, Children, empty, child, find_child, put_child,
}
use kyua.Config.Tree.{Tree}
pub mod Copied
pub mod Passes
pub mod Values
pub mod Clashes

-- `deep_copy` of the nodes and `copy_into`: the children in the order of their names, into a map
-- that is empty.
unfoldable mutual
  pub copy_node : Node → Node
  copy_node (leaf l) = leaf (copy_leaf l)
  copy_node (inner dynamic cs) = inner dynamic (copy_children cs)

  pub copy_children : Children → Children
  copy_children empty = empty
  copy_children (child name node cs) = child name (copy_node node) (copy_children cs)

-- The virtual method `combine` of a node.
abbrev pub Combine : Type 0
Combine = TreeKey → Node → Node → Result ConfigError Node

-- `combine_children_into`: the children `c1` into the children of the node, by the `combine` of
-- the nodes below.
unfoldable pub combine_children_into :
    Combine → TreeKey → Children → Children → Children → Result ConfigError Children
combine_children_into combine key empty c2 node = ok node
combine_children_into combine key (child name new c1) c2 node = elim (find_child node name) [
  | some old ↦ combine_children_into combine key c1 c2 node
  | none ↦ elim (find_child c2 name) [
    | none ↦ combine_children_into combine key c1 c2 (put_child node name (copy_node new))
    | some other ↦ combine (key ++ (name ∷ [])) new other >>= λ made.
        combine_children_into combine key c1 c2 (put_child node name made)
  ]
]

-- `combine_into` of two inner nodes.
unfoldable pub combine_into : Combine → TreeKey → Children → Children → Result ConfigError Children
combine_into combine key cs ds = combine_children_into combine key cs ds empty >>= λ node.
    combine_children_into combine key ds cs node

-- `combine` of the classes of nodes, on fuel for the levels of the tree.
unfoldable pub combine_node : ℕ → Combine
combine_node zero key a b = err failed_precondition
combine_node (suc fuel) key (leaf l) (leaf m) =
    ok (leaf (if is_set m then copy_leaf m else copy_leaf l))
combine_node (suc fuel) key (leaf l) (inner d ds) = err (bad_combination_error key)
combine_node (suc fuel) key (inner d cs) (leaf m) = err (bad_combination_error key)
combine_node (suc fuel) key (inner d cs) (inner e ds) =
    combine_into (combine_node fuel) key cs ds >>= λ all. ok (inner (d || e) all)

-- The levels of a tree.
unfoldable mutual
  pub height : Node → ℕ
  height (leaf l) = 1
  height (inner dynamic cs) = suc (height_of_children cs)

  pub height_of_children : Children → ℕ
  height_of_children empty = 0
  height_of_children (child name node cs) = max (height node) (height_of_children cs)

-- `tree::deep_copy`.
unfoldable pub deep_copy : Tree → Tree
deep_copy t = record t { root = copy_children t.root }

-- `tree::combine`, on the fuel that the tree needs: the roots are static inner nodes.
abbrev pub with_root : Tree → Node → Result ConfigError Tree
with_root t (inner dynamic cs) = ok (record t { root = cs })
with_root t (leaf l) = err failed_precondition

unfoldable pub combine_trees : Tree → Tree → Result ConfigError Tree
combine_trees t overrides =
    combine_node (height (inner false t.root)) [] (inner false t.root) (inner false overrides.root)
    >>= with_root t
