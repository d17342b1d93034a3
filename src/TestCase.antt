-- ===== src/TestCase.antt =====
-- model/test_case.cpp: a test case, with the metadata of the test program that holds it.
use kyua.Prelude.{
  ◌-◌, ◌≡◌, Bool, ◌&&◌, Option, none, some, ◌∷◌, ltb, length, drop, take, if◌then◌else◌,
}
use kyua.Prelude.Bytes.{Bytes, bytes, str_eq}
use kyua.Prelude.Results.{Result, ok, err, ◌>>=◌}
use kyua.Config.{TreeKey, ConfigError, Leaf, copy_leaf, parse_key}
use kyua.Config.Tree.{lookup_ro, node_is_set}
use kyua.TestResult.{TestResult}
use kyua.Config.LeafTypes.{LeafType}
use kyua.ModelMetadata.{Metadata, apply_overrides, get}
use kyua.ModelMetadata.Overrides.{get-apply_overrides}
use kyua.ModelMetadata.Builder.{
  ModelError, config_error, new_builder, set_description, build, Built,
}

-- `test_case::impl`, less the debugger. The metadata of the test program are not owned.
pub record TestCase : Type 0 where
  pub name : Bytes
  pub md_defaults : Option Metadata
  pub md : Metadata
  pub fake_result : Option TestResult

-- The public constructor.
abbrev pub test_case : Bytes → Metadata → TestCase
test_case name md = record { name = name; md_defaults = none; md = md; fake_result = none }

-- The name of a fake test case, as the constructor of those requires it.
unfoldable pub is_fake_name : Bytes → Bool
unfolding str_eq
is_fake_name name =
    ltb 4 (length name)
    && (str_eq (take 2 name) (bytes "__") && str_eq (drop (length name - 2) name) (bytes "__"))

abbrev pub after_set : Built → Result ModelError Metadata
after_set (b, some e) = err e
after_set (b, none) = elim (build b) [ err e ↦ err e | ok (m, c) ↦ ok m ]

-- The constructor of a fake test case; none is a failed PRE.
unfoldable pub fake_test_case : Bytes → Bytes → TestResult → Option (Result ModelError TestCase)
unfolding is_fake_name
fake_test_case name description result =
    if is_fake_name name
    then some (elim new_builder [
      | err e ↦ err (config_error e)
      | ok b ↦ after_set (set_description description b) >>= λ m.
          ok (record { name = name; md_defaults = none; md = m; fake_result = some result })
    ])
    else none

-- `apply_metadata_defaults`.
unfoldable pub apply_metadata_defaults : Option Metadata → TestCase → TestCase
apply_metadata_defaults defaults t = record t { md_defaults = defaults }

-- `get_metadata`, and `get_raw_metadata`.
unfoldable pub get_metadata : TestCase → Result ConfigError Metadata
get_metadata t = elim t.md_defaults [
  | none ↦ ok t.md
  | some defaults ↦ apply_overrides defaults t.md
]

abbrev pub get_raw_metadata : TestCase → Metadata
get_raw_metadata t = t.md

-- With the metadata of a test program as its defaults, a test case has at every valid key the
-- property that its own metadata set, and else the property of the test program, whatever
-- defaults it had before.
pub get_metadata-apply_metadata_defaults :
    {A : Type 0} (n : LeafType A) (dotted_key name : Bytes) (rest : TreeKey) (defaults : Metadata)
    (t : TestCase) (made : Metadata)
    → ((l : Leaf) → n.read (copy_leaf l) ≡ n.read l)
    → parse_key dotted_key ≡ ok (name ∷ rest)
    → get_metadata (apply_metadata_defaults (some defaults) t) ≡ ok made
    → get n dotted_key made ≡ (
        if node_is_set (lookup_ro (name ∷ rest) t.md.props.root (name ∷ rest))
        then get n dotted_key (get_raw_metadata t)
        else get n dotted_key defaults)
unfolding get_metadata apply_metadata_defaults
get_metadata-apply_metadata_defaults n dotted_key name rest defaults t made c p h =
    get-apply_overrides n dotted_key name rest defaults t.md made c p h
