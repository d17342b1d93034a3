-- ===== src/ModelMetadata/Setters.antt =====
-- model/metadata.cpp: what the setters of the builder promise to the getters.
use kyua.Prelude.{◌≡◌, refl, ap, ◌∙◌, true, Option, none, some}
use kyua.Prelude.Bytes.{Bytes}
use kyua.Prelude.Results.{ok}
use kyua.Config.{TreeKey, ConfigError, Leaf, is_set, parse_key}
use kyua.Config.Tree.{set_at}
use kyua.Config.Tree.Setters.{set_at-Stored}
use kyua.Config.LeafTypes.{LeafType, set}
use kyua.ModelMetadata.{get, default_of}
use kyua.ModelMetadata.Overrides.{leaf_value, get-leaf_value}
use kyua.ModelMetadata.Builder.{ModelError, error, Builder, rewritten_option, set_property}

-- A class whose `set`, when it throws nothing, leaves a leaf that is set and holds the value.
abbrev pub Keeps : {A : Type 0} → LeafType A → Type 0
Keeps n =
    (key : TreeKey) (v : _) (old l : Leaf)
    → n.assign key v old ≡ ok l
    → (is_set l ≡ true) × (n.read l ≡ some v)

rewritten-none :
    (throws : Bytes → ModelError) (key : Bytes) (e : Option ConfigError)
    → rewritten_option throws key e ≡ none
    → e ≡ none
rewritten-none throws key none h = refl
rewritten-none throws key (some e) h = absurd cc

-- In a strict tree, a getter gives the value that the setter of its key was given, when the
-- setter threw nothing.
pub get-set_property :
    {A : Type 0} (n : LeafType A) (dotted_key : Bytes) (v : A) (b : Builder) (key : TreeKey)
    → Keeps n
    → b.props.strict ≡ true
    → parse_key dotted_key ≡ ok key
    → (set_property n dotted_key v b).1 ≡ none
    → get n dotted_key (record { props = (set_property n dotted_key v b).0.props }) ≡ ok v
unfolding set_property set
get-set_property n dotted_key v b key k s p h =
    let thrown_none =
      rewritten-none error dotted_key (set_at b.props dotted_key n.fresh (λ x. n.assign x v)).1 h in
    let (old, l, w, c, found) =
      set_at-Stored b.props dotted_key n.fresh (λ x. n.assign x v) key p s thrown_none in
    let (given, value) = k key v old l c in
    get-leaf_value n dotted_key key (record { props = (set_property n dotted_key v b).0.props }) p
    ∙ ap (leaf_value n (default_of n dotted_key) key) found
    ∙ rw (given, value) refl
