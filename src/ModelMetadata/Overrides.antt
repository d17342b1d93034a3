-- ===== src/ModelMetadata/Overrides.antt =====
-- model/metadata.cpp: the getters behind `apply_overrides`.
use kyua.Prelude.{
  ◌≡◌, refl, sym, ap, ◌∙◌, Bool, false, Option, none, some, ◌∷◌, if◌then◌else◌, arith,
}
use kyua.Prelude.Bytes.{Bytes}
use kyua.Prelude.Results.{Result, ok, err, ◌>>=◌}
use kyua.Config.{
  TreeKey, ConfigError, unknown_key_error, Leaf, bool_node, int_node, positive_int_node,
  string_node, strings_set_node, bytes_node, delta_node, user_node, paths_set_node, is_set,
  copy_leaf, Node, leaf, inner, parse_key,
}
use kyua.Config.Tree.{is_set_key, lookup_ro, node_is_set}
use kyua.Config.Tree.Others.{as_leaf, leaf_at}
use kyua.Config.Combine.{combine_trees}
use kyua.Config.Combine.Copied.{copied}
use kyua.Config.Combine.Values.{merged, combine_trees-merged}
use kyua.Config.Combine.Passes.{>>=-ok}
use kyua.Config.LeafTypes.{LeafType, value_in, lookup}
use kyua.ModelMetadata.{Metadata, apply_overrides, get, default_of}

-- The value of a getter from the leaf of its key.
abbrev pub leaf_value :
    {A : Type 0} → LeafType A → Result ConfigError A → TreeKey → Option Leaf → Result ConfigError A
leaf_value n default key none = default
leaf_value n default key (some l) =
    if is_set l
    then elim (n.read l) [ none ↦ err (unknown_key_error key) | some v ↦ ok v ]
    else default

found_value :
    {A : Type 0} (n : LeafType A) (default : Result ConfigError A) (key : TreeKey)
    (r : Result ConfigError Node)
    → (if node_is_set r then (r >>= value_in n key) else default)
      ≡ leaf_value n default key (as_leaf r)
unfolding is_set
found_value n default key (ok (leaf l)) = ground arith
found_value n default key (ok (inner d cs)) = refl
found_value n default key (err e) = refl

pub get-leaf_value :
    {A : Type 0} (n : LeafType A) (dotted_key : Bytes) (key : TreeKey) (m : Metadata)
    → parse_key dotted_key ≡ ok key
    → get n dotted_key m ≡ leaf_value n (default_of n dotted_key) key (leaf_at key m.props.root key)
unfolding get is_set_key lookup
get-leaf_value n dotted_key key m h =
    rw h (found_value n (default_of n dotted_key) key (lookup_ro key m.props.root key))

-- A merged leaf has the value of the leaf of the overrides when it is set, else of the base.
leaf_is_set : Option Leaf → Bool
leaf_is_set none = false
leaf_is_set (some l) = is_set l

copy_leaf-is_set : (l : Leaf) → is_set (copy_leaf l) ≡ is_set l
unfolding copy_leaf is_set
copy_leaf-is_set (bool_node v) = refl
copy_leaf-is_set (int_node v) = refl
copy_leaf-is_set (positive_int_node v) = refl
copy_leaf-is_set (string_node v) = refl
copy_leaf-is_set (strings_set_node v) = refl
copy_leaf-is_set (bytes_node v) = refl
copy_leaf-is_set (delta_node v) = refl
copy_leaf-is_set (user_node v) = refl
copy_leaf-is_set (paths_set_node v) = refl

leaf_value-copied :
    {A : Type 0} (n : LeafType A) (default : Result ConfigError A) (key : TreeKey) (o : Option Leaf)
    → ((l : Leaf) → n.read (copy_leaf l) ≡ n.read l)
    → leaf_value n default key (copied o) ≡ leaf_value n default key o
leaf_value-copied n default key none h = refl
leaf_value-copied n default key (some l) h = rw (h l, copy_leaf-is_set l) refl

leaf_value-merged :
    {A : Type 0} (n : LeafType A) (default : Result ConfigError A) (key : TreeKey)
    (o p : Option Leaf)
    → ((l : Leaf) → n.read (copy_leaf l) ≡ n.read l)
    → leaf_value n default key (merged o p)
      ≡ (if leaf_is_set p then leaf_value n default key p else leaf_value n default key o)
unfolding leaf_is_set
leaf_value-merged n default key none none h = refl
leaf_value-merged n default key none (some m) h =
    leaf_value-copied n default key (some m) h ∙ ground arith
leaf_value-merged n default key (some l) none h = leaf_value-copied n default key (some l) h
leaf_value-merged n default key (some l) (some m) h =
    leaf_value-copied n default key (some (if is_set m then m else l)) h ∙ ground arith

is_set-leaf_at :
    (key : TreeKey) (r : Result ConfigError Node) → node_is_set r ≡ leaf_is_set (as_leaf r)
unfolding leaf_is_set
is_set-leaf_at key (ok (leaf l)) = refl
is_set-leaf_at key (ok (inner d cs)) = refl
is_set-leaf_at key (err e) = refl

metadata_or : Metadata → Result ConfigError Metadata → Metadata
metadata_or m (ok n) = n
metadata_or m (err e) = m

-- When overrides apply to a metadata object, every getter at a valid key, of a class whose copies
-- keep their values, gives what it gives for the overrides where they set the property, and
-- else what it gives for the base.
pub get-apply_overrides :
    {A : Type 0} (n : LeafType A) (dotted_key name : Bytes) (rest : TreeKey)
    (base overrides made : Metadata)
    → ((l : Leaf) → n.read (copy_leaf l) ≡ n.read l)
    → parse_key dotted_key ≡ ok (name ∷ rest)
    → apply_overrides base overrides ≡ ok made
    → get n dotted_key made ≡ (
        if node_is_set (lookup_ro (name ∷ rest) overrides.props.root (name ∷ rest))
        then get n dotted_key overrides
        else get n dotted_key base)
unfolding apply_overrides metadata_or
get-apply_overrides n dotted_key name rest base overrides made c p h =
    let key : TreeKey = name ∷ rest in
    let inverted = >>=-ok (combine_trees base.props overrides.props) _ made h in
    let same : made.props ≡ inverted.0 = ap (λ r. (metadata_or made r).props) (sym inverted.2) in
    get-leaf_value n dotted_key key made p
    ∙ ap (λ t. leaf_value n (default_of n dotted_key) key (leaf_at key t.root key)) same
    ∙ ap (leaf_value n (default_of n dotted_key) key)
        (combine_trees-merged base.props overrides.props inverted.0 key rest name inverted.1)
    ∙ leaf_value-merged n (default_of n dotted_key) key (leaf_at key base.props.root key)
        (leaf_at key overrides.props.root key) c
    ∙ rw
        (
          is_set-leaf_at key (lookup_ro key overrides.props.root key),
          get-leaf_value n dotted_key key base p,
          get-leaf_value n dotted_key key overrides p,
        )
        refl
