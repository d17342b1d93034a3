-- ===== src/ModelMetadata/Builder.antt =====
-- model/metadata.cpp: the builder of metadata.
use kyua.Prelude.{ℕ, Bool, true, false, Option, none, some, List, [], ◌∷◌, ◌++◌, if◌then◌else◌}
use kyua.Prelude.Bytes.{Bytes, bytes}
use kyua.Prelude.Results.{Result, ok, err, ◌>>=◌}
use kyua.Units.{Floats}
use kyua.Delta.{Delta}
use kyua.FsPath.{FsPath}
use kyua.Config.{
  TreeKey, ConfigError, unknown_key_error, incomplete_key, value_error, insert_string, insert_path,
  parse_key,
}
use kyua.Config.Tree.{Tree, new_tree, is_set_key, lookup_rw, set_string_key, Change}
use kyua.Config.Combine.{deep_copy}
use kyua.Config.LeafTypes.{
  LeafType, string_sets, strings, bools, quantities, deltas, users, path_sets, set,
}
use kyua.ModelMetadata.{default_of, init_tree, Metadata}

-- The exceptions that leave the builder: `model::error`, `model::format_error`, those of
-- utils/config that are not rewritten, and a failed PRE.
pub data ModelError : Type 0 where
  error : Bytes → ModelError
  format_error : Bytes → ModelError
  config_error : ConfigError → ModelError
  already_built : ModelError

-- `metadata_builder::impl`.
pub record Builder : Type 0 where
  pub props : Tree
  pub built : Bool

-- The builder behind a call, and what the call threw.
abbrev pub Built : Type 0
Built = Builder × Option ModelError

abbrev pub unknown_property : Bytes → Bytes
unknown_property key = bytes "Unknown metadata property " ++ key

abbrev pub invalid_value : Bytes → Bytes → Bytes
invalid_value key what =
    bytes "Invalid value for metadata property " ++ (key ++ (bytes ": " ++ what))

-- The handlers of the templates `lookup_rw` and `set`, and those of `set_string`, by the class
-- of the exception they throw.
unfoldable pub rewritten : (Bytes → ModelError) → Bytes → ConfigError → ModelError
rewritten throws key (unknown_key_error k) = throws (unknown_property key)
rewritten throws key (incomplete_key k) = throws (unknown_property key)
rewritten throws key (value_error what) = throws (invalid_value key what)
rewritten throws key e = config_error e

abbrev pub rewritten_option : (Bytes → ModelError) → Bytes → Option ConfigError → Option ModelError
rewritten_option throws key none = none
rewritten_option throws key (some e) = some (rewritten throws key e)

abbrev pub with_props : (Bytes → ModelError) → Bytes → Builder → Tree × Option ConfigError → Built
with_props throws key b (t, thrown) = (record b { props = t }, rewritten_option throws key thrown)

-- The same without a handler.
abbrev pub with_tree : Builder → Tree × Option ConfigError → Built
with_tree b (t, none) = (record b { props = t }, none)
with_tree b (t, some e) = (record b { props = t }, some (config_error e))

-- `set` with error rewriting.
unfoldable pub set_property : {A : Type 0} → LeafType A → Bytes → A → Builder → Built
set_property n key v b = with_props error key b (set n b.props key v)

-- `tree::lookup_rw` and a change of the value it refers to, which is not validated.
abbrev pub changed_value : {A : Type 0} → LeafType A → (A → A) → TreeKey → Change
changed_value n f key l = elim (n.read l) [
  | none ↦ err (unknown_key_error key)
  | some v ↦ ok (n.hold (f v))
]

unfoldable pub modify :
    {A : Type 0} → LeafType A → (A → A) → Tree → Bytes → Tree × Option ConfigError
modify n f t dotted_key = elim (parse_key dotted_key) [
  | err e ↦ (t, some e)
  | ok key ↦
      let made = lookup_rw key n.fresh (changed_value n f key) false t.root key in
      (record t { root = made.0 }, made.1)
]

-- The first half of an `add_` method: the property gets its default when it is not set. The
-- exceptions are those of the tree.
abbrev pub default_into : {A : Type 0} → LeafType A → Bytes → Builder → Result ConfigError A → Built
default_into n key b (err e) = (b, some (config_error e))
default_into n key b (ok v) = with_tree b (set n b.props key v)

abbrev pub unset_default :
    {A : Type 0} → LeafType A → Bytes → Builder → Result ConfigError Bool → Built
unset_default n key b (err e) = (b, some (config_error e))
unset_default n key b (ok true) = (b, none)
unset_default n key b (ok false) = default_into n key b (default_of n key)

abbrev pub modified : {A : Type 0} → LeafType A → Bytes → (A → A) → Built → Built
modified n key f (b, some e) = (b, some e)
modified n key f (b, none) = with_props error key b (modify n f b.props key)

-- The `add_` methods.
unfoldable pub add_value : {A : Type 0} → LeafType A → Bytes → (A → A) → Builder → Built
add_value n key f b = modified n key f (unset_default n key b (is_set_key b.props key))

abbrev pub add_allowed_architecture : Bytes → Builder → Built
add_allowed_architecture arch =
    add_value string_sets (bytes "allowed_architectures") (insert_string arch)

abbrev pub add_allowed_platform : Bytes → Builder → Built
add_allowed_platform platform =
    add_value string_sets (bytes "allowed_platforms") (insert_string platform)

abbrev pub add_required_config : Bytes → Builder → Built
add_required_config var = add_value string_sets (bytes "required_configs") (insert_string var)

abbrev pub add_required_file : FsPath → Builder → Built
add_required_file path = add_value path_sets (bytes "required_files") (insert_path path)

abbrev pub add_required_program : FsPath → Builder → Built
add_required_program path = add_value path_sets (bytes "required_programs") (insert_path path)

-- `add_custom`, which rewrites no exception.
unfoldable pub add_custom : Floats → Bytes → Bytes → Builder → Built
add_custom f key value b = with_tree b (set_string_key f b.props (bytes "custom." ++ key) value)

-- The setters.
abbrev pub set_allowed_architectures : List Bytes → Builder → Built
set_allowed_architectures = set_property string_sets (bytes "allowed_architectures")

abbrev pub set_allowed_platforms : List Bytes → Builder → Built
set_allowed_platforms = set_property string_sets (bytes "allowed_platforms")

-- `set_custom`: the loop over the properties.
unfoldable pub set_custom : Floats → List (Bytes × Bytes) → Builder → Built
set_custom f [] b = (b, none)
set_custom f ((key, value) ∷ rest) b = elim (add_custom f key value b).1 [
  | none ↦ set_custom f rest (add_custom f key value b).0
  | some e ↦ ((add_custom f key value b).0, some e)
]

abbrev pub set_description : Bytes → Builder → Built
set_description = set_property strings (bytes "description")

abbrev pub set_execenv : Bytes → Builder → Built
set_execenv = set_property strings (bytes "execenv")

abbrev pub set_execenv_jail_params : Bytes → Builder → Built
set_execenv_jail_params = set_property strings (bytes "execenv_jail_params")

abbrev pub set_has_cleanup : Bool → Builder → Built
set_has_cleanup = set_property bools (bytes "has_cleanup")

abbrev pub set_is_exclusive : Bool → Builder → Built
set_is_exclusive = set_property bools (bytes "is_exclusive")

abbrev pub set_required_configs : List Bytes → Builder → Built
set_required_configs = set_property string_sets (bytes "required_configs")

abbrev pub set_required_disk_space : ℕ → Builder → Built
set_required_disk_space = set_property quantities (bytes "required_disk_space")

abbrev pub set_required_files : List FsPath → Builder → Built
set_required_files = set_property path_sets (bytes "required_files")

abbrev pub set_required_memory : ℕ → Builder → Built
set_required_memory = set_property quantities (bytes "required_memory")

abbrev pub set_required_programs : List FsPath → Builder → Built
set_required_programs = set_property path_sets (bytes "required_programs")

abbrev pub set_required_user : Bytes → Builder → Built
set_required_user = set_property users (bytes "required_user")

abbrev pub set_timeout : Delta → Builder → Built
set_timeout = set_property deltas (bytes "timeout")

-- `set_string`.
unfoldable pub set_string : Floats → Bytes → Bytes → Builder → Built
set_string f key value b = with_props format_error key b (set_string_key f b.props key value)

-- The constructors of the builder, from nothing and from a metadata object.
unfoldable pub new_builder : Result ConfigError Builder
new_builder = init_tree (new_tree true) >>= λ t. ok (record { props = t; built = false })

unfoldable pub builder_from : Metadata → Builder
builder_from base = record { props = deep_copy base.props; built = false }

-- `build`.
unfoldable pub build : Builder → Result ModelError (Metadata × Builder)
build b =
    if b.built
    then err already_built
    else ok (record { props = b.props }, record b { built = true })
