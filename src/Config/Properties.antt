-- ===== src/Config/Properties.antt =====
-- utils/config (nodes.cpp, tree.cpp): the properties of a tree as texts.
use kyua.Prelude.{
  suc, Bool, true, false, ◌&&◌, none, some, List, [], ◌∷◌, ◌++◌, drop, length, is_empty,
  if◌then◌else◌,
}
use kyua.Prelude.Bytes.{Bytes, bytes, str_eq, str_lt}
use kyua.Prelude.Results.{Result, ok, err, ◌>>=◌}
use kyua.Units.{Floats}
use kyua.Config.{
  TreeKey, ConfigError, value_error, failed_precondition, parse_key, flatten_key, Leaf, is_set,
  to_string, Node, leaf, inner, Children, empty, child,
}
use kyua.Config.Tree.{Tree, lookup_ro}

-- `properties_map`, in the order of the keys, and `properties[key] = value`.
abbrev pub PropertiesMap : Type 0
PropertiesMap = List (Bytes × Bytes)

unfoldable pub put_property : Bytes → Bytes → PropertiesMap → PropertiesMap
unfolding str_eq str_lt
put_property key value [] = (key, value) ∷ []
put_property key value ((k, v) ∷ rest) =
    let put = put_property key value rest in
    if str_eq key k
    then (key, value) ∷ rest
    else if str_lt key k
    then (key, value) ∷ ((k, v) ∷ rest)
    else (k, v) ∷ put

-- A leaf in `inner_node::all_properties`.
unfoldable pub leaf_property : Floats → TreeKey → Leaf → PropertiesMap → PropertiesMap
unfolding flatten_key
leaf_property f key l properties =
    if is_set l
    then elim (to_string f l) [
      | none ↦ properties
      | some s ↦ put_property (flatten_key key) s properties
    ]
    else properties

-- `inner_node::all_properties`.
unfoldable mutual
  pub node_properties : Floats → TreeKey → Node → PropertiesMap → PropertiesMap
  node_properties f key (leaf l) properties = leaf_property f key l properties
  node_properties f key (inner d cs) properties = children_properties f key cs properties

  pub children_properties : Floats → TreeKey → Children → PropertiesMap → PropertiesMap
  children_properties f key empty properties = properties
  children_properties f key (child name node cs) properties =
      children_properties f key cs (node_properties f (key ++ (name ∷ [])) node properties)

-- The loop that strips the key.
unfoldable pub stripped : Bytes → PropertiesMap → PropertiesMap → PropertiesMap
stripped dotted_key [] properties = properties
stripped dotted_key ((k, v) ∷ rest) properties =
    stripped dotted_key rest (put_property (drop (suc (length dotted_key)) k) v properties)

abbrev pub exported : Floats → Bytes → TreeKey → Node → Result ConfigError PropertiesMap
exported f dotted_key key (inner d cs) = ok (children_properties f key cs [])
exported f dotted_key key (leaf l) = err (
    value_error
      (bytes "Cannot export properties from a leaf node; '" ++ (dotted_key ++ bytes "' given")))

unfoldable pub properties_at : Floats → Tree → Bytes → Result ConfigError PropertiesMap
unfolding parse_key lookup_ro
properties_at f t dotted_key =
    if is_empty dotted_key
    then exported f dotted_key [] (inner false t.root)
    else (parse_key dotted_key >>= λ key. lookup_ro key t.root key >>= exported f dotted_key key)

-- `tree::all_properties`.
unfoldable pub all_properties : Floats → Tree → Bytes → Bool → Result ConfigError PropertiesMap
unfolding properties_at
all_properties f t dotted_key strip_key =
    if strip_key && is_empty dotted_key
    then err failed_precondition
    else if strip_key
    then (properties_at f t dotted_key >>= λ properties. ok (stripped dotted_key properties []))
    else properties_at f t dotted_key

-- The comparison of the maps, and `operator==` of trees.
unfoldable pub properties_eq : PropertiesMap → PropertiesMap → Bool
unfolding str_eq
properties_eq [] [] = true
properties_eq [] (q ∷ qs) = false
properties_eq (p ∷ ps) [] = false
properties_eq ((k, v) ∷ ps) ((l, w) ∷ qs) = str_eq k l && (str_eq v w && properties_eq ps qs)

unfoldable pub tree_eq : Floats → Tree → Tree → Result ConfigError Bool
unfolding all_properties
tree_eq f a b = all_properties f a [] false >>= λ ps.
    all_properties f b [] false >>= λ qs. ok (properties_eq ps qs)
