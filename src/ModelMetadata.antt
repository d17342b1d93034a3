-- ===== src/ModelMetadata.antt =====
-- model/metadata.cpp: the metadata of a test, over configuration trees.
use kyua.Prelude.{
  ℕ, Bool, true, false, not, ◌&&◌, Option, none, some, List, [], ◌∷◌, if◌then◌else◌, is_empty,
}
use kyua.Prelude.Bytes.{Bytes, bytes, str_eq}
use kyua.Prelude.Results.{Result, ok, err, ◌>>=◌}
use kyua.Delta.{Delta}
use kyua.FsPath.{FsPath}
use kyua.Config.{
  TreeKey, ConfigError, unknown_key_error, failed_precondition, invalid_key_value, Leaf, bool_node,
  string_node, strings_set_node, bytes_node, delta_node, user_node, paths_set_node, set_user,
  set_paths, Node, leaf, inner, empty, parse_key,
}
use kyua.Config.Tree.{Tree, new_tree, define_node, is_set_key, lookup_ro, set_at, Change}
use kyua.Config.LeafTypes.{
  LeafType, string_sets, strings, bools, quantities, deltas, users, path_sets, lookup, set,
}
use kyua.Config.Combine.{combine_trees}
pub mod Builder
pub mod Overrides
pub mod Setters
pub mod Throws
pub mod Properties

-- The keys and the classes of `init_tree`.
abbrev pub properties : List (Bytes × Node)
properties =
    (bytes "allowed_architectures", leaf (strings_set_node none))
    ∷ (bytes "allowed_platforms", leaf (strings_set_node none))
    ∷ (bytes "custom", inner true empty)
    ∷ (bytes "description", leaf (string_node none))
    ∷ (bytes "execenv", leaf (string_node none))
    ∷ (bytes "execenv_jail_params", leaf (string_node none))
    ∷ (bytes "has_cleanup", leaf (bool_node none))
    ∷ (bytes "is_exclusive", leaf (bool_node none))
    ∷ (bytes "required_configs", leaf (strings_set_node none))
    ∷ (bytes "required_disk_space", leaf (bytes_node none))
    ∷ (bytes "required_files", leaf (paths_set_node none))
    ∷ (bytes "required_memory", leaf (bytes_node none))
    ∷ (bytes "required_kmods", leaf (strings_set_node none))
    ∷ (bytes "required_programs", leaf (paths_set_node none))
    ∷ (bytes "required_user", leaf (user_node none))
    ∷ (bytes "timeout", leaf (delta_node none))
    ∷ []

-- `init_tree`.
unfoldable pub define_all : List (Bytes × Node) → Tree → Result ConfigError Tree
unfolding define_node
define_all [] t = ok t
define_all ((key, node) ∷ rest) t = elim (define_node t key node) [
  | none ↦ err failed_precondition
  | some u ↦ define_all rest u
]

unfoldable pub init_tree : Tree → Result ConfigError Tree
unfolding define_all
init_tree t = define_all properties t

-- What a call of `set` leaves when it throws nothing.
abbrev pub thrown_or : Tree × Option ConfigError → Result ConfigError Tree
thrown_or (t, none) = ok t
thrown_or (t, some e) = err e

-- `set_defaults`.
unfoldable pub set_defaults : Tree → Result ConfigError Tree
unfolding set
set_defaults t = do
  t ← thrown_or (set string_sets t (bytes "allowed_architectures") [])
  t ← thrown_or (set string_sets t (bytes "allowed_platforms") [])
  t ← thrown_or (set strings t (bytes "description") [])
  t ← thrown_or (set strings t (bytes "execenv") [])
  t ← thrown_or (set strings t (bytes "execenv_jail_params") [])
  t ← thrown_or (set bools t (bytes "has_cleanup") false)
  t ← thrown_or (set bools t (bytes "is_exclusive") false)
  t ← thrown_or (set string_sets t (bytes "required_configs") [])
  t ← thrown_or (set quantities t (bytes "required_disk_space") 0)
  t ← thrown_or (set path_sets t (bytes "required_files") [])
  t ← thrown_or (set quantities t (bytes "required_memory") 0)
  t ← thrown_or (set string_sets t (bytes "required_kmods") [])
  t ← thrown_or (set path_sets t (bytes "required_programs") [])
  t ← thrown_or (set users t (bytes "required_user") [])
  thrown_or (set deltas t (bytes "timeout") (record { seconds = 300; useconds = 0 }))

-- `get_defaults`.
unfoldable pub get_defaults : Result ConfigError Tree
unfolding init_tree set_defaults
get_defaults = init_tree (new_tree true) >>= set_defaults

-- `metadata`: its properties.
pub record Metadata : Type 0 where
  pub props : Tree

-- `apply_overrides`.
unfoldable pub apply_overrides : Metadata → Metadata → Result ConfigError Metadata
unfolding combine_trees
apply_overrides m overrides =
    combine_trees m.props overrides.props >>= λ t. ok (record { props = t })

-- The getters: the value of the property, or its default.
unfoldable pub default_of : {A : Type 0} → LeafType A → Bytes → Result ConfigError A
default_of n key = get_defaults >>= λ t. lookup n t key

unfoldable pub get : {A : Type 0} → LeafType A → Bytes → Metadata → Result ConfigError A
get n key m =
    is_set_key m.props key >>= λ given. if given then lookup n m.props key else default_of n key

abbrev pub allowed_architectures : Metadata → Result ConfigError (List Bytes)
allowed_architectures = get string_sets (bytes "allowed_architectures")

abbrev pub allowed_platforms : Metadata → Result ConfigError (List Bytes)
allowed_platforms = get string_sets (bytes "allowed_platforms")

abbrev pub description : Metadata → Result ConfigError Bytes
description = get strings (bytes "description")

abbrev pub execenv : Metadata → Result ConfigError Bytes
execenv = get strings (bytes "execenv")

abbrev pub execenv_jail_params : Metadata → Result ConfigError Bytes
execenv_jail_params = get strings (bytes "execenv_jail_params")

-- `has_execenv`.
unfoldable pub has_execenv : Metadata → Result ConfigError Bool
unfolding str_eq
has_execenv m = execenv m >>= λ name. ok (not (is_empty name) && not (str_eq name (bytes "host")))

abbrev pub has_cleanup : Metadata → Result ConfigError Bool
has_cleanup = get bools (bytes "has_cleanup")

abbrev pub is_exclusive : Metadata → Result ConfigError Bool
is_exclusive = get bools (bytes "is_exclusive")

abbrev pub required_configs : Metadata → Result ConfigError (List Bytes)
required_configs = get string_sets (bytes "required_configs")

abbrev pub required_disk_space : Metadata → Result ConfigError ℕ
required_disk_space = get quantities (bytes "required_disk_space")

abbrev pub required_files : Metadata → Result ConfigError (List FsPath)
required_files = get path_sets (bytes "required_files")

abbrev pub required_memory : Metadata → Result ConfigError ℕ
required_memory = get quantities (bytes "required_memory")

abbrev pub required_kmods : Metadata → Result ConfigError (List Bytes)
required_kmods = get string_sets (bytes "required_kmods")

abbrev pub required_programs : Metadata → Result ConfigError (List FsPath)
required_programs = get path_sets (bytes "required_programs")

abbrev pub required_user : Metadata → Result ConfigError Bytes
required_user = get users (bytes "required_user")

abbrev pub timeout : Metadata → Result ConfigError Delta
timeout = get deltas (bytes "timeout")
