-- ===== src/Config.antt =====
-- utils/config (keys.cpp, nodes.cpp, nodes.ipp): the nodes of configuration trees, and their keys.
use kyua.Prelude.{
  ℕ, zero, suc, ◌+◌, ◌-◌, ◌/◌, ap, Bool, true, false, not, ◌&&◌, ◌||◌, Option, none, some, List, [],
  ◌∷◌, ◌++◌, map, ltb, if◌then◌else◌, any, is_empty, all,
}
use kyua.Prelude.Bytes.{Bytes, bytes, str_eq, str_lt, find, at}
use kyua.Prelude.Integer.{ℤ, pos, negsuc, show_int, show_nat}
use kyua.Prelude.Results.{Result, ok, err, ◌>>=◌}
use kyua.Text.{split, join, to_type_int, to_type_bool, to_type_unsigned}
use kyua.Units.{Floats, format, to_type_bytes}
use kyua.Delta.{Delta}
use kyua.FsPath.{
  FsPath, PathError, invalid_path_error, join_error, path, path_lt, path_eq, is_absolute,
  ncomponents,
}
pub mod Tree
pub mod Combine
pub mod LeafTypes
pub mod Properties

-- `tree_key`.
abbrev pub TreeKey : Type 0
TreeKey = List Bytes

-- The exceptions of the module, and a failed PRE or UNREACHABLE.
pub data ConfigError : Type 0 where
  invalid_key_error : Bytes → ConfigError
  unknown_key_error : TreeKey → ConfigError
  incomplete_key : TreeKey → ConfigError
  invalid_key_value : TreeKey → Bytes → ConfigError
  bad_combination_error : TreeKey → ConfigError
  value_error : Bytes → ConfigError
  failed_precondition : ConfigError

-- `flatten_key`.
unfoldable pub flatten_key : TreeKey → Bytes
unfolding join
flatten_key key = join key (bytes ".")

-- `parse_key`.
unfoldable pub parse_key : Bytes → Result ConfigError TreeKey
unfolding split
parse_key str =
    let key = split str b'.' in
    if is_empty key
    then err (invalid_key_error (bytes "Empty key"))
    else if any is_empty key
    then err (invalid_key_error (bytes "Empty component in key '" ++ (str ++ bytes "'")))
    else ok key

-- The leaves of the tree with their values, by the classes of nodes.hpp and of model/metadata.cpp.
pub data Leaf : Type 0 where
  bool_node : Option Bool → Leaf
  int_node : Option ℤ → Leaf
  positive_int_node : Option ℤ → Leaf
  string_node : Option Bytes → Leaf
  strings_set_node : Option (List Bytes) → Leaf
  bytes_node : Option ℕ → Leaf
  delta_node : Option Delta → Leaf
  user_node : Option Bytes → Leaf
  paths_set_node : Option (List FsPath) → Leaf

abbrev is_given {ℓ} : {A : Type ℓ} → Option A → Bool
is_given none = false
is_given (some a) = true

unfoldable pub is_set : Leaf → Bool
is_set (bool_node v) = is_given v
is_set (int_node v) = is_given v
is_set (positive_int_node v) = is_given v
is_set (string_node v) = is_given v
is_set (strings_set_node v) = is_given v
is_set (bytes_node v) = is_given v
is_set (delta_node v) = is_given v
is_set (user_node v) = is_given v
is_set (paths_set_node v) = is_given v

-- `deep_copy`: a positive_int_node inherits that of int_node, which makes an int_node.
unfoldable pub copy_leaf : Leaf → Leaf
copy_leaf (positive_int_node v) = int_node v
copy_leaf l = l

-- `positive_int_node::validate`.
unfoldable pub is_positive : ℤ → Bool
is_positive (pos zero) = false
is_positive (pos (suc n)) = true
is_positive (negsuc n) = false

abbrev not_converted : Bytes → ConfigError
not_converted raw =
    value_error (bytes "Failed to convert string value '" ++ (raw ++ bytes "' to the node's type"))

-- A std::set of strings.
unfoldable pub insert_string : Bytes → List Bytes → List Bytes
unfolding str_lt str_eq
insert_string s [] = s ∷ []
insert_string s (t ∷ ts) =
    if str_lt s t then s ∷ t ∷ ts else if str_eq s t then t ∷ ts else t ∷ insert_string s ts

-- The loop of `base_set_node::set_string`.
unfoldable pub words_set : List Bytes → List Bytes → List Bytes
unfolding insert_string
words_set [] words = words
words_set (word ∷ rest) words =
    words_set rest (if is_empty word then words else insert_string word words)

-- A std::set of paths.
unfoldable pub insert_path : FsPath → List FsPath → List FsPath
unfolding path_lt path_eq
insert_path p [] = p ∷ []
insert_path p (q ∷ qs) =
    if path_lt p q then p ∷ q ∷ qs else if path_eq p q then q ∷ qs else q ∷ insert_path p qs

-- What the exceptions of utils/fs/exceptions.cpp say.
unfoldable path_what : PathError → Bytes
path_what (invalid_path_error text reason) =
    bytes "Invalid path '" ++ (text ++ (bytes "': " ++ reason))
path_what (join_error a b reason) =
    bytes "Cannot join paths '" ++ (a ++ (bytes "' and '" ++ (b ++ (bytes "': " ++ reason))))

-- The loop of `base_set_node::set_string` with `paths_set_node::parse_one`.
unfoldable pub paths_set : List Bytes → List FsPath → Result ConfigError (List FsPath)
unfolding insert_path path_what
paths_set [] paths = ok paths
paths_set (word ∷ rest) paths = if is_empty word then paths_set rest paths else elim (path word) [
  | err e ↦ err (value_error (path_what e))
  | ok p ↦ paths_set rest (insert_path p paths)
]

-- `paths_set_node::validate`: the first path that is refused.
unfoldable pub relative_path : List FsPath → Option FsPath
unfolding is_absolute ncomponents
relative_path [] = none
relative_path (p ∷ ps) =
    if not (is_absolute p) && ltb 1 (ncomponents p) then some p else relative_path ps

-- `user_node::validate`.
unfoldable pub is_valid_user : Bytes → Bool
unfolding str_eq
is_valid_user user =
    is_empty user || (str_eq user (bytes "root") || str_eq user (bytes "unprivileged"))

-- `set` of the classes that validate.
unfoldable pub set_user : Bytes → Result ConfigError Leaf
unfolding is_valid_user
set_user user =
    if is_valid_user user
    then ok (user_node (some user))
    else err (value_error (bytes "Invalid required user value"))

unfoldable pub set_paths : List FsPath → Result ConfigError Leaf
unfolding relative_path
set_paths paths = elim (relative_path paths) [
  | none ↦ ok (paths_set_node (some paths))
  | some p ↦ err (value_error (bytes "Relative path '" ++ (p.repr ++ bytes "' not allowed")))
]

-- `set_string` of each class.
unfoldable pub set_string : Floats → Leaf → Bytes → Result ConfigError Leaf
unfolding is_positive words_set paths_set set_user set_paths
set_string f (bool_node v) raw = elim (to_type_bool raw) [
  | none ↦ err (not_converted raw)
  | some b ↦ ok (bool_node (some b))
]
set_string f (int_node v) raw = elim (to_type_int raw) [
  | none ↦ err (not_converted raw)
  | some n ↦ ok (int_node (some n))
]
set_string f (positive_int_node v) raw = elim (to_type_int raw) [
  | none ↦ err (not_converted raw)
  | some n ↦
      if is_positive n
      then ok (positive_int_node (some n))
      else err (value_error (bytes "Must be a positive integer"))
]
set_string f (string_node v) raw = ok (string_node (some raw))
set_string f (strings_set_node v) raw = ok (strings_set_node (some (words_set (split raw b' ') [])))
set_string f (bytes_node v) raw = elim (to_type_bytes f raw) [
  | none ↦ err (not_converted raw)
  | some n ↦ ok (bytes_node (some n))
]
set_string f (delta_node v) raw = elim (to_type_unsigned raw) [
  | none ↦ err (value_error (bytes "Invalid time delta " ++ raw))
  | some seconds ↦ ok (delta_node (some (record { seconds = seconds; useconds = 0 })))
]
set_string f (user_node v) raw = set_user raw
set_string f (paths_set_node v) raw = paths_set (split raw b' ') [] >>= set_paths

abbrev show_bool : Bool → Bytes
show_bool true = bytes "true"
show_bool false = bytes "false"

-- `to_string` of each class; `none` is a failed precondition, where the leaf is not set.
unfoldable pub to_string : Floats → Leaf → Option Bytes
unfolding join show_int format
to_string f (bool_node v) = elim v [ none ↦ none | some b ↦ some (show_bool b) ]
to_string f (int_node v) = elim v [ none ↦ none | some n ↦ some (show_int n) ]
to_string f (positive_int_node v) = elim v [ none ↦ none | some n ↦ some (show_int n) ]
to_string f (string_node v) = v
to_string f (strings_set_node v) = elim v [
  | none ↦ none
  | some words ↦ some (join words (bytes " "))
]
to_string f (bytes_node v) = elim v [ none ↦ none | some n ↦ some (format f n) ]
to_string f (delta_node v) = elim v [ none ↦ none | some d ↦ some (show_nat d.seconds) ]
to_string f (user_node v) = v
to_string f (paths_set_node v) = elim v [
  | none ↦ none
  | some paths ↦ some (join (map (λ p. p.repr) paths) (bytes " "))
]

-- A node is a leaf, or an inner node with its children, in the order of their names. The flag
-- stands for the class of an inner node, static or dynamic, and for its `_dynamic`. They differ
-- in a static node that `combine` made dynamic only, which the model has as a dynamic one; of the
-- operations only `define` asks for the class.
mutual
  pub data Node : Type 0 where
    leaf : Leaf → Node
    inner : Bool → Children → Node

  pub data Children : Type 0 where
    empty : Children
    child : Bytes → Node → Children → Children

-- `_children.find`.
unfoldable pub find_child : Children → Bytes → Option Node
unfolding str_eq
find_child empty name = none
find_child (child n node cs) name = if str_eq n name then some node else find_child cs name

-- `_children[name] = node`.
unfoldable pub put_child : Children → Bytes → Node → Children
unfolding str_eq str_lt
put_child empty name node = child name node empty
put_child (child n m cs) name node =
    if str_eq n name
    then child n node cs
    else if str_lt name n
    then child name node (child n m cs)
    else child n m (put_child cs name node)
