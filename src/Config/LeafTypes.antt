-- ===== src/Config/LeafTypes.antt =====
-- The classes of leaves of utils/config/nodes.hpp and model/metadata.cpp, and the templates
-- `lookup` and `set` of utils/config/tree.ipp at a class.
use kyua.Prelude.{ℕ, Bool, Option, none, some, List}
use kyua.Prelude.Bytes.{Bytes, bytes}
use kyua.Prelude.Results.{Result, ok, err, ◌>>=◌}
use kyua.Delta.{Delta}
use kyua.FsPath.{FsPath}
use kyua.Config.{
  TreeKey, ConfigError, unknown_key_error, invalid_key_value, Leaf, bool_node, string_node,
  strings_set_node, bytes_node, delta_node, user_node, paths_set_node, set_user, set_paths, Node,
  leaf, inner, parse_key,
}
use kyua.Config.Tree.{Tree, lookup_ro, set_at, Change}

-- The leaf classes, by the values they hold: `read` is the `dynamic_cast` to the class with the
-- value that is set, `fresh` is what the hook of the class makes, and `assign` is the cast and
-- the `set` of the class, with its validation; `hold` is a leaf that holds a value.
pub record LeafType {ℓ} (A : Type ℓ) : Type ℓ where
  pub read : Leaf → Option A
  pub fresh : Leaf
  pub assign : TreeKey → A → Change
  pub hold : A → Leaf

abbrev mismatch : TreeKey → Result ConfigError Leaf
mismatch key = err (invalid_key_value key (bytes "Type mismatch"))

abbrev read_strings : Leaf → Option (List Bytes)
read_strings (strings_set_node v) = v
read_strings l = none

abbrev assign_strings : TreeKey → List Bytes → Change
assign_strings key v (strings_set_node old) = ok (strings_set_node (some v))
assign_strings key v l = mismatch key

abbrev pub string_sets : LeafType (List Bytes)
string_sets = record {
  read = read_strings;
  fresh = strings_set_node none;
  assign = assign_strings;
  hold = λ v. strings_set_node (some v);
}

abbrev read_string : Leaf → Option Bytes
read_string (string_node v) = v
read_string (user_node v) = v
read_string l = none

abbrev assign_string : TreeKey → Bytes → Change
assign_string key v (string_node old) = ok (string_node (some v))
assign_string key v (user_node old) = set_user v
assign_string key v l = mismatch key

abbrev pub strings : LeafType Bytes
strings = record {
  read = read_string;
  fresh = string_node none;
  assign = assign_string;
  hold = λ v. string_node (some v);
}

abbrev read_bool : Leaf → Option Bool
read_bool (bool_node v) = v
read_bool l = none

abbrev assign_bool : TreeKey → Bool → Change
assign_bool key v (bool_node old) = ok (bool_node (some v))
assign_bool key v l = mismatch key

abbrev pub bools : LeafType Bool
bools = record {
  read = read_bool;
  fresh = bool_node none;
  assign = assign_bool;
  hold = λ v. bool_node (some v);
}

abbrev read_bytes : Leaf → Option ℕ
read_bytes (bytes_node v) = v
read_bytes l = none

abbrev assign_bytes : TreeKey → ℕ → Change
assign_bytes key v (bytes_node old) = ok (bytes_node (some v))
assign_bytes key v l = mismatch key

abbrev pub quantities : LeafType ℕ
quantities = record {
  read = read_bytes;
  fresh = bytes_node none;
  assign = assign_bytes;
  hold = λ v. bytes_node (some v);
}

abbrev read_delta : Leaf → Option Delta
read_delta (delta_node v) = v
read_delta l = none

abbrev assign_delta : TreeKey → Delta → Change
assign_delta key v (delta_node old) = ok (delta_node (some v))
assign_delta key v l = mismatch key

abbrev pub deltas : LeafType Delta
deltas = record {
  read = read_delta;
  fresh = delta_node none;
  assign = assign_delta;
  hold = λ v. delta_node (some v);
}

abbrev read_user : Leaf → Option Bytes
read_user (user_node v) = v
read_user l = none

abbrev assign_user : TreeKey → Bytes → Change
assign_user key v (user_node old) = set_user v
assign_user key v l = mismatch key

abbrev pub users : LeafType Bytes
users = record {
  read = read_user;
  fresh = user_node none;
  assign = assign_user;
  hold = λ v. user_node (some v);
}

abbrev read_paths : Leaf → Option (List FsPath)
read_paths (paths_set_node v) = v
read_paths l = none

abbrev assign_paths : TreeKey → List FsPath → Change
assign_paths key v (paths_set_node old) = set_paths v
assign_paths key v l = mismatch key

abbrev pub path_sets : LeafType (List FsPath)
path_sets = record {
  read = read_paths;
  fresh = paths_set_node none;
  assign = assign_paths;
  hold = λ v. paths_set_node (some v);
}

-- `tree::lookup` and `tree::set` at a class of leaves.
abbrev pub value_in : {A : Type 0} → LeafType A → TreeKey → Node → Result ConfigError A
value_in n key (leaf l) = elim (n.read l) [ none ↦ err (unknown_key_error key) | some v ↦ ok v ]
value_in n key (inner d cs) = err (unknown_key_error key)

unfoldable pub lookup : {A : Type 0} → LeafType A → Tree → Bytes → Result ConfigError A
unfolding parse_key lookup_ro
lookup n t dotted_key = parse_key dotted_key >>= λ key. lookup_ro key t.root key >>= value_in n key

unfoldable pub set : {A : Type 0} → LeafType A → Tree → Bytes → A → Tree × Option ConfigError
unfolding set_at
set n t dotted_key v = set_at t dotted_key n.fresh (λ key. n.assign key v)
