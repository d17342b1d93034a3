-- ===== src/AtfList.antt =====
-- engine/atf_list.cpp and the map of model/test_case.cpp: the list of test cases of an ATF program.
use kyua.Prelude.{
  ℕ, zero, suc, ◌+◌, Bool, false, not, ◌||◌, ◌&&◌, Option, none, some, List, [], ◌∷◌, ◌++◌,
  if◌then◌else◌, is_empty, length, take, drop, ltb,
}
use kyua.Prelude.Bytes.{Bytes, bytes, str_eq, str_lt, pieces}
use kyua.Prelude.Search.{find_str, starts_with}
use kyua.Prelude.Results.{Result, ok, err, ◌>>=◌}
use kyua.Units.{Floats}
use kyua.Config.{ConfigError}
use kyua.ModelMetadata.{Metadata}
use kyua.ModelMetadata.Builder.{
  ModelError, config_error, Builder, Built, new_builder, set_string, add_custom, build,
}
pub mod Printed
pub mod Fuel

-- What leaves the parser: `engine::format_error`, the same with the text of an exception of
-- utils/config, or an exception of model that passes through.
pub data ListError : Type 0 where
  format_error : Bytes → ListError
  from_config : ConfigError → ListError
  from_model : ModelError → ListError
  out_of_fuel : ListError

-- `split_prop_line`.
unfoldable pub split_prop_line : Bytes → Result ListError (Bytes × Bytes)
unfolding find_str
split_prop_line line = elim (find_str (bytes ": ") line) [
  | none ↦
      err (format_error (bytes "Invalid property line; expecting line of the form 'name: value'"))
  | some pos ↦ ok (take pos line, drop (pos + 2) line)
]

-- A map with strings as keys, in their order: `find`, and `insert`, which keeps what is there.
unfoldable pub has_key {ℓ} : {A : Type ℓ} → Bytes → List (Bytes × A) → Bool
unfolding str_eq
has_key key [] = false
has_key key ((k, a) ∷ rest) = str_eq key k || has_key key rest

unfoldable pub insert_key {ℓ} : {A : Type ℓ} → Bytes → A → List (Bytes × A) → List (Bytes × A)
unfolding str_eq str_lt
insert_key key a [] = (key, a) ∷ []
insert_key key a ((k, b) ∷ rest) =
    let inserted = insert_key key a rest in
    if str_eq key k
    then (k, b) ∷ rest
    else if str_lt key k
    then (key, a) ∷ ((k, b) ∷ rest)
    else (k, b) ∷ inserted

-- `properties_map`.
abbrev pub Properties : Type 0
Properties = List (Bytes × Bytes)

-- One line of `parse_properties`.
unfoldable pub add_property : Bytes × Bytes → Properties → Result ListError Properties
unfolding has_key insert_key
add_property (name, value) properties =
    if has_key name properties
    then err (format_error (bytes "Duplicate value for property " ++ name))
    else ok (insert_key name value properties)

-- `parse_properties` of the complete lines that remain: the properties and the lines behind the
-- empty line that ends them.
unfoldable pub parse_properties :
    List Bytes → Properties → Result ListError (Properties × List Bytes)
unfolding split_prop_line add_property
parse_properties [] properties = ok (properties, [])
parse_properties ([] ∷ rest) properties = ok (properties, rest)
parse_properties ((c ∷ line) ∷ rest) properties = split_prop_line (c ∷ line) >>= λ property.
    add_property property properties >>= parse_properties rest

-- The property of the metadata that an ATF property sets.
unfoldable pub metadata_key : Bytes → Option Bytes
unfolding str_eq
metadata_key name =
    if str_eq name (bytes "descr")
    then some (bytes "description")
    else if str_eq name (bytes "has.cleanup")
    then some (bytes "has_cleanup")
    else if str_eq name (bytes "require.arch")
    then some (bytes "allowed_architectures")
    else if str_eq name (bytes "execenv")
    then some (bytes "execenv")
    else if str_eq name (bytes "execenv.jail.params")
    then some (bytes "execenv_jail_params")
    else if str_eq name (bytes "is.exclusive")
    then some (bytes "is_exclusive")
    else if str_eq name (bytes "require.config")
    then some (bytes "required_configs")
    else if str_eq name (bytes "require.diskspace")
    then some (bytes "required_disk_space")
    else if str_eq name (bytes "require.files")
    then some (bytes "required_files")
    else if str_eq name (bytes "require.kmods")
    then some (bytes "required_kmods")
    else if str_eq name (bytes "require.machine")
    then some (bytes "allowed_platforms")
    else if str_eq name (bytes "require.memory")
    then some (bytes "required_memory")
    else if str_eq name (bytes "require.progs")
    then some (bytes "required_programs")
    else if str_eq name (bytes "require.user")
    then some (bytes "required_user")
    else if str_eq name (bytes "timeout")
    then some (bytes "timeout")
    else none

-- The handler of `parse_atf_metadata`.
abbrev pub caught : Built → Result ListError Builder
caught (b, none) = ok b
caught (b, some (config_error e)) = err (from_config e)
caught (b, some e) = err (from_model e)

-- One round of the loop of `parse_atf_metadata`.
unfoldable pub set_atf_property : Floats → Bytes × Bytes → Builder → Result ListError Builder
unfolding metadata_key starts_with
set_atf_property f (name, value) b = elim (metadata_key name) [
  | some key ↦ caught (set_string f key value b)
  | none ↦
      if ltb 2 (length name) && starts_with (bytes "X-") name
      then caught (add_custom f (drop 2 name) value b)
      else err (format_error (bytes "Unknown test case metadata property '" ++ (name ++ bytes "'")))
]

unfoldable pub set_atf_properties : Floats → Properties → Builder → Result ListError Builder
set_atf_properties f [] b = ok b
set_atf_properties f (property ∷ rest) b =
    set_atf_property f property b >>= set_atf_properties f rest

abbrev pub started : Result ConfigError Builder → Result ListError Builder
started (ok b) = ok b
started (err e) = err (from_config e)

abbrev pub finished : Result ModelError (Metadata × Builder) → Result ListError Metadata
finished (ok (m, b)) = ok m
finished (err e) = err (from_model e)

-- `parse_atf_metadata`.
unfoldable pub parse_atf_metadata : Floats → Properties → Result ListError Metadata
parse_atf_metadata f props =
    started new_builder >>= λ b. set_atf_properties f props b >>= λ made. finished (build made)

-- `test_cases_map`: the metadata of each test case by its name. `add` of the builder inserts.
abbrev pub TestCases : Type 0
TestCases = List (Bytes × Metadata)

unfoldable pub add_test_case : Bytes → Metadata → TestCases → TestCases
unfolding insert_key
add_test_case name m cases = insert_key name m cases

-- The test for a definition line.
unfoldable pub identifier : Bytes × Bytes → Result ListError Bytes
unfolding str_eq
identifier (name, value) =
    if not (str_eq name (bytes "ident")) || is_empty value
    then err
        (format_error (bytes "Invalid test case definition; must be preceeded by the identifier"))
    else ok value

-- The loop of `parse_atf_list` over the complete lines. Every round reads one line at least.
unfoldable pub parse_test_cases : ℕ → Floats → List Bytes → TestCases → Result ListError TestCases
parse_test_cases zero f lines cases = err out_of_fuel
parse_test_cases (suc fuel) f [] cases = ok cases
parse_test_cases (suc fuel) f (line ∷ lines) cases = do
  property ← split_prop_line line
  name ← identifier property
  parsed ← parse_properties lines []
  m ← parse_atf_metadata f parsed.0
  parse_test_cases fuel f parsed.1 (add_test_case name m cases)

-- The lines that `getline` reads while the stream is good, and the text behind the last newline.
unfoldable pub complete_lines : List Bytes → List Bytes × Bytes
complete_lines [] = ([], [])
complete_lines (line ∷ []) = ([], line)
complete_lines (line ∷ next ∷ rest) =
    let more = complete_lines (next ∷ rest) in (line ∷ more.0, more.1)

abbrev pub content_type : Bytes
content_type = bytes "Content-Type: application/X-atf-tp; version=\"1\""

abbrev pub bad_content_type : Bytes → ListError
bad_content_type line = format_error (
    bytes
      "Invalid header for test case list; expecting Content-Type for application/X-atf-tp version 1, got '"
    ++ (line ++ bytes "'"))

abbrev pub no_blank_line : Bytes → ListError
no_blank_line line = format_error (
    bytes "Invalid header for test case list; expecting a blank line, got '" ++ (line ++ bytes "'"))

abbrev pub some_cases : TestCases → Result ListError TestCases
some_cases [] = err (format_error (bytes "No test cases"))
some_cases (c ∷ cases) = ok (c ∷ cases)

-- `parse_atf_list`, of the complete lines and of the text behind them.
unfoldable pub parse_lines : Floats → List Bytes → Bytes → Result ListError TestCases
unfolding str_eq
parse_lines f [] last = err (bad_content_type last)
parse_lines f (line ∷ []) last =
    if str_eq line content_type then err (no_blank_line last) else err (bad_content_type line)
parse_lines f (line ∷ blank ∷ lines) last =
    if not (str_eq line content_type)
    then err (bad_content_type line)
    else if not (is_empty blank)
    then err (no_blank_line blank)
    else (parse_test_cases (suc (length lines)) f lines [] >>= some_cases)

unfoldable pub parse_atf_list : Floats → Bytes → Result ListError TestCases
unfolding complete_lines
parse_atf_list f input =
    let lines = complete_lines (pieces b'\n' input) in parse_lines f lines.0 lines.1
