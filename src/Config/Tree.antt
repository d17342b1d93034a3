-- ===== src/Config/Tree.antt =====
-- utils/config (nodes.cpp, tree.cpp, tree.ipp): configuration trees and their operations.
use kyua.Prelude.{
  ◌-◌, ◌/◌, ◌<◌, Bool, true, false, Option, none, some, List, [], ◌∷◌, if◌then◌else◌,
}
use kyua.Prelude.Bytes.{Bytes, bytes, find, at}
use kyua.Prelude.Results.{Result, ok, err, ◌>>=◌}
use kyua.Units.{Floats}
use kyua.Config.{
  set_user, user_node, TreeKey, ConfigError, unknown_key_error, incomplete_key, invalid_key_value,
  value_error, failed_precondition, parse_key, Leaf, string_node, strings_set_node, is_set,
  set_string, to_string, Node, leaf, inner, Children, empty, child, find_child, put_child,
}
pub mod Others
pub mod Update
pub mod Setters

-- `inner_node::lookup_ro` of the rest of the key `full`.
unfoldable pub lookup_ro : TreeKey → Children → TreeKey → Result ConfigError Node
unfolding find_child
lookup_ro full cs [] = err failed_precondition
lookup_ro full cs (name ∷ []) = elim (find_child cs name) [
  | none ↦ err (unknown_key_error full)
  | some node ↦ ok node
]
lookup_ro full cs (name ∷ next ∷ rest) = elim (find_child cs name) [
  | none ↦ err (unknown_key_error full)
  | some node ↦ elim node [
    | leaf l ↦ err (incomplete_key full)
    | inner dynamic sub ↦ lookup_ro full sub (next ∷ rest)
  ]
]

-- A change of the leaf that `lookup_rw` finds; a change that throws leaves the leaf as it is.
abbrev pub Change : Type 0
Change = Leaf → Result ConfigError Leaf

-- The children behind an operation, and what it threw.
abbrev pub Changed : Type 0
Changed = Children × Option ConfigError

abbrev pub put_leaf : Children → Bytes → Leaf → Result ConfigError Leaf → Changed
put_leaf cs name old (ok l) = (put_child cs name (leaf l), none)
put_leaf cs name old (err e) = (put_child cs name (leaf old), some e)

-- `inner_node::lookup_rw`, which makes nodes as a dynamic node wants them, and the change of the
-- leaf. `fresh` is the leaf that the hook makes.
unfoldable pub lookup_rw : TreeKey → Leaf → Change → Bool → Children → TreeKey → Changed
unfolding find_child put_child
lookup_rw full fresh change dynamic cs [] = (cs, some failed_precondition)
lookup_rw full fresh change dynamic cs (name ∷ []) = elim (find_child cs name) [
  | none ↦
      if dynamic then put_leaf cs name fresh (change fresh) else (cs, some (unknown_key_error full))
  | some node ↦ elim node [
    | leaf l ↦ put_leaf cs name l (change l)
    | inner d sub ↦ (cs, some (invalid_key_value full (bytes "Type mismatch")))
  ]
]
lookup_rw full fresh change dynamic cs (name ∷ next ∷ rest) = elim (find_child cs name) [
  | none ↦
      let made = lookup_rw full fresh change true empty (next ∷ rest) in
      if dynamic
      then (put_child cs name (inner true made.0), made.1)
      else (cs, some (unknown_key_error full))
  | some node ↦ elim node [
    | leaf l ↦ (cs, some (incomplete_key full))
    | inner d sub ↦
        let made = lookup_rw full fresh change d sub (next ∷ rest) in
        (put_child cs name (inner d made.0), made.1)
  ]
]

-- `static_inner_node::define`; `none` is a failed PRE or UNREACHABLE.
unfoldable pub define : Node → Children → TreeKey → Option Children
unfolding find_child put_child
define node cs [] = none
define node cs (name ∷ []) = elim (find_child cs name) [
  | some old ↦ none
  | none ↦ some (put_child cs name node)
]
define node cs (name ∷ next ∷ rest) = elim (find_child cs name) [
  | none ↦ elim (define node empty (next ∷ rest)) [
    | none ↦ none
    | some sub ↦ some (put_child cs name (inner false sub))
  ]
  | some old ↦ elim old [
    | leaf l ↦ none
    | inner dynamic sub ↦ elim dynamic [
      | true ↦ none
      | false ↦ elim (define node sub (next ∷ rest)) [
        | none ↦ none
        | some made ↦ some (put_child cs name (inner false made))
      ]
    ]
  ]
]

pub record Tree : Type 0 where
  pub strict : Bool
  pub root : Children

-- The constructor.
abbrev pub new_tree : Bool → Tree
new_tree strict = record { strict = strict; root = empty }

-- `tree::define`; `none` is an UNREACHABLE_MSG.
unfoldable pub define_node : Tree → Bytes → Node → Option Tree
unfolding parse_key define
define_node t dotted_key node = elim (parse_key dotted_key) [
  | err e ↦ none
  | ok key ↦ elim (define node t.root key) [ none ↦ none | some cs ↦ some (record t { root = cs }) ]
]

-- `tree::is_set`.
abbrev pub node_is_set : Result ConfigError Node → Bool
node_is_set (ok (leaf l)) = is_set l
node_is_set r = false

unfoldable pub is_set_key : Tree → Bytes → Result ConfigError Bool
unfolding parse_key lookup_ro is_set
is_set_key t dotted_key =
    parse_key dotted_key >>= λ key. ok (node_is_set (lookup_ro key t.root key))

abbrev pub string_value : TreeKey → Node → Result ConfigError Bytes
string_value key (leaf (string_node (some s))) = ok s
string_value key (leaf (user_node (some s))) = ok s
string_value key node = err (unknown_key_error key)

-- `tree::lookup< string_node >`; a user_node is a string_node.
unfoldable pub lookup_string_node : Tree → Bytes → Result ConfigError Bytes
unfolding parse_key lookup_ro
lookup_string_node t dotted_key =
    parse_key dotted_key >>= λ key. lookup_ro key t.root key >>= string_value key

abbrev pub strings_value : TreeKey → Node → Result ConfigError (List Bytes)
strings_value key (leaf (strings_set_node (some words))) = ok words
strings_value key node = err (unknown_key_error key)

-- `tree::lookup< strings_set_node >`.
unfoldable pub lookup_strings : Tree → Bytes → Result ConfigError (List Bytes)
unfolding parse_key lookup_ro
lookup_strings t dotted_key =
    parse_key dotted_key >>= λ key. lookup_ro key t.root key >>= strings_value key

abbrev pub text_value : Floats → TreeKey → Node → Result ConfigError Bytes
text_value f key (leaf l) = elim (to_string f l) [ none ↦ err failed_precondition | some s ↦ ok s ]
text_value f key (inner d cs) = err (unknown_key_error key)

-- `tree::lookup_string`.
unfoldable pub lookup_string : Floats → Tree → Bytes → Result ConfigError Bytes
unfolding parse_key lookup_ro
lookup_string f t dotted_key =
    parse_key dotted_key >>= λ key. lookup_ro key t.root key >>= text_value f key

-- The handlers of the setters of a tree: what they throw.
unfoldable pub rethrow : Bool → TreeKey → Option ConfigError → Option ConfigError
rethrow strict key (some (unknown_key_error k)) =
    if strict then some (unknown_key_error k) else none
rethrow strict key (some (incomplete_key k)) = if strict then some (incomplete_key k) else none
rethrow strict key (some (value_error what)) = some (invalid_key_value key what)
rethrow strict key e = e

abbrev change_tree : Tree → TreeKey → Changed → Tree × Option ConfigError
change_tree t key (cs, thrown) = (record t { root = cs }, rethrow t.strict key thrown)

-- A setter of the tree: `lookup_rw` and the change of the leaf.
unfoldable pub set_at : Tree → Bytes → Leaf → (TreeKey → Change) → Tree × Option ConfigError
unfolding parse_key lookup_rw rethrow
set_at t dotted_key fresh change = elim (parse_key dotted_key) [
  | err e ↦ (t, some e)
  | ok key ↦ change_tree t key (lookup_rw key fresh (change key) false t.root key)
]

-- `tree::set_string`.
unfoldable pub set_string_key : Floats → Tree → Bytes → Bytes → Tree × Option ConfigError
unfolding set_at
set_string_key f t dotted_key raw =
    set_at t dotted_key (string_node none) (λ key l. set_string f l raw)

abbrev pub set_string_node : Bytes → TreeKey → Change
set_string_node s key (string_node v) = ok (string_node (some s))
set_string_node s key (user_node v) = set_user s
set_string_node s key l = err (invalid_key_value key (bytes "Type mismatch"))

-- `tree::set< string_node >`.
unfoldable pub set_key : Tree → Bytes → Bytes → Tree × Option ConfigError
unfolding set_at
set_key t dotted_key value = set_at t dotted_key (string_node none) (set_string_node value)
