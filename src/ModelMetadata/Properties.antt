-- ===== src/ModelMetadata/Properties.antt =====
-- model/metadata.cpp: the properties of metadata as texts, and their comparison.
use kyua.Prelude.{Bool, true, false, []}
use kyua.Prelude.Bytes.{bytes}
use kyua.Prelude.Results.{Result, ◌>>=◌}
use kyua.Units.{Floats}
use kyua.Config.{ConfigError}
use kyua.Config.Combine.{combine_trees}
use kyua.Config.Properties.{PropertiesMap, all_properties, tree_eq}
use kyua.ModelMetadata.{Metadata, get_defaults}

-- `custom`.
unfoldable pub custom : Floats → Metadata → Result ConfigError PropertiesMap
unfolding all_properties
custom f m = all_properties f m.props (bytes "custom") true

-- `to_properties`.
unfoldable pub to_properties : Floats → Metadata → Result ConfigError PropertiesMap
unfolding all_properties
to_properties f m =
    get_defaults >>= λ defaults. combine_trees defaults m.props >>= λ t. all_properties f t [] false

-- `operator==`.
unfoldable pub metadata_eq : Floats → Metadata → Metadata → Result ConfigError Bool
unfolding tree_eq
metadata_eq f a b = do
  defaults ← get_defaults
  s ← combine_trees defaults a.props
  t ← combine_trees defaults b.props
  tree_eq f s t
