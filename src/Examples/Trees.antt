-- ===== src/Examples/Trees.antt =====
-- Configuration trees, metadata and lists of test cases at concrete inputs.
use kyua.Prelude.{
  ◌*◌, ◌/◌, ◌%◌, ◌≡◌, ◌⊎◌, refl, sym, ap, true, false, none, some, List, [], ◌∷◌, arith,
  if◌then◌else◌,
}
use kyua.Prelude.Bytes.{bytes, find_from}
use kyua.Prelude.Results.{Result, ok, err, ◌>>=◌}
use kyua.Prelude.Integer.{show_nat, size_mod}
use kyua.Text.{to_type_size}
use kyua.Units.{Floats}
use kyua.Config.{
  TreeKey, ConfigError, bad_combination_error, Leaf, is_set, bool_node, int_node, positive_int_node,
  string_node, strings_set_node, bytes_node, delta_node, user_node, paths_set_node, copy_leaf,
  parse_key, find_child, put_child, leaf, inner, empty, child,
}
use kyua.Config.Tree.{Tree, lookup_ro, node_is_set, set_at, lookup_rw, rethrow}
use kyua.Config.Tree.Others.{leaf_at}
use kyua.Config.Combine.{combine_trees, combine_node, height, combine_into, combine_children_into}
use kyua.Config.Combine.Values.{merged, combine_trees-merged}
use kyua.Config.Combine.Clashes.{clash, combine_trees-err}
use kyua.Config.LeafTypes.{set, quantities}
use kyua.ModelMetadata.{get, apply_overrides}
use kyua.ModelMetadata.Overrides.{get-apply_overrides}
use kyua.ModelMetadata.Builder.{Builder, rewritten, set_property, set_string}
use kyua.ModelMetadata.Setters.{Keeps, get-set_property}
use kyua.ModelMetadata.Throws.{Reported, set_string-Reported}
use kyua.AtfList.{parse_test_cases, parse_atf_list}
use kyua.AtfList.Printed.{Case, list_lines, meaning, parse_test_cases-printed}
use kyua.AtfList.Fuel.{has_cases, parse_atf_list-has_cases}

-- Whole numbers, and no fractions.
abbrev whole_numbers : Floats
whole_numbers = record {
  read_scaled = λ s m. elim (to_type_size s) [ none ↦ none | some n ↦ some ((n * m) % size_mod) ];
  show_scaled = λ n unit. show_nat (n / unit);
}

-- A tree of a required memory and a description under "custom".
abbrev tree : Leaf → Leaf → Tree
tree custom memory = record {
  strict = true;
  root =
      child (bytes "custom") (inner true (child (bytes "bug") (leaf custom) empty))
        (child (bytes "required_memory") (leaf memory) empty);
}

abbrev base_tree : Tree
base_tree = tree (string_node (some (bytes "12"))) (bytes_node (some 1024))

abbrev overriding : Tree
overriding = tree (string_node none) (bytes_node (some 4096))

abbrev combined : Tree
combined = tree (string_node (some (bytes "12"))) (bytes_node (some 4096))

base_tree-combined : combine_trees base_tree overriding ≡ ok combined
unfolding combine_trees combine_node height combine_into combine_children_into find_child put_child
    is_set copy_leaf
base_tree-combined = refl

memory_key : parse_key (bytes "required_memory") ≡ ok (bytes "required_memory" ∷ [])
unfolding parse_key find_from
memory_key = refl

combine_trees-merged_example :
    leaf_at [] combined.root (bytes "custom" ∷ bytes "bug" ∷ [])
    ≡ merged
        (leaf_at [] base_tree.root (bytes "custom" ∷ bytes "bug" ∷ []))
        (leaf_at [] overriding.root (bytes "custom" ∷ bytes "bug" ∷ []))
combine_trees-merged_example =
    combine_trees-merged base_tree overriding combined [] (bytes "bug" ∷ []) (bytes "custom")
      base_tree-combined

-- A leaf where the base has an inner node.
abbrev clashing : Tree
clashing = record { strict = true; root = child (bytes "custom") (leaf (string_node none)) empty }

combine_trees-err_example :
    (key : TreeKey) × (bad_combination_error (bytes "custom" ∷ []) ≡ bad_combination_error key)
    × (clash (inner false base_tree.root) (inner false clashing.root) key ≡ true)
unfolding combine_trees combine_node height combine_into combine_children_into find_child
combine_trees-err_example =
    combine_trees-err base_tree clashing (bad_combination_error (bytes "custom" ∷ [])) refl

quantities-copy : (l : Leaf) → quantities.read (copy_leaf l) ≡ quantities.read l
unfolding copy_leaf
quantities-copy (bool_node v) = refl
quantities-copy (int_node v) = refl
quantities-copy (positive_int_node v) = refl
quantities-copy (string_node v) = refl
quantities-copy (strings_set_node v) = refl
quantities-copy (bytes_node v) = refl
quantities-copy (delta_node v) = refl
quantities-copy (user_node v) = refl
quantities-copy (paths_set_node v) = refl

get-apply_overrides_example :
    get quantities (bytes "required_memory") (record { props = combined }) ≡ (
      if node_is_set
        (lookup_ro (bytes "required_memory" ∷ []) overriding.root (bytes "required_memory" ∷ []))
      then get quantities (bytes "required_memory") (record { props = overriding })
      else get quantities (bytes "required_memory") (record { props = base_tree }))
unfolding apply_overrides
get-apply_overrides_example =
    get-apply_overrides quantities (bytes "required_memory") (bytes "required_memory") []
      (record { props = base_tree }) (record { props = overriding }) (record { props = combined })
      quantities-copy memory_key (ap (λ r. r >>= λ t. ok (record { props = t })) base_tree-combined)

leaf_or : Leaf → Result ConfigError Leaf → Leaf
leaf_or l (ok m) = m
leaf_or l (err e) = l

quantities-Keeps : Keeps quantities
unfolding is_set leaf_or
quantities-Keeps key v (bool_node old) l h = absurd cc
quantities-Keeps key v (int_node old) l h = absurd cc
quantities-Keeps key v (positive_int_node old) l h = absurd cc
quantities-Keeps key v (string_node old) l h = absurd cc
quantities-Keeps key v (strings_set_node old) l h = absurd cc
quantities-Keeps key v (bytes_node old) l h =
    let e : bytes_node (some v) ≡ l = ap (leaf_or l) h in
    (ap is_set (sym e), ap quantities.read (sym e))
quantities-Keeps key v (delta_node old) l h = absurd cc
quantities-Keeps key v (user_node old) l h = absurd cc
quantities-Keeps key v (paths_set_node old) l h = absurd cc

abbrev builder : Builder
builder = record { props = base_tree; built = false }

get-set_property_example :
    get quantities (bytes "required_memory") (record { props = combined }) ≡ ok 4096
unfolding set_property set set_at lookup_rw find_child put_child parse_key find_from rethrow
    rewritten
get-set_property_example =
    get-set_property quantities (bytes "required_memory") 4096 builder
      (bytes "required_memory" ∷ []) quantities-Keeps refl memory_key refl

set_string-Reported_example :
    Reported whole_numbers
      (bytes "required_memory")
      (bytes "x")
      base_tree.root
      (parse_key (bytes "required_memory"))
      (set_string whole_numbers (bytes "required_memory") (bytes "x") builder).1
set_string-Reported_example =
    set_string-Reported whole_numbers (bytes "required_memory") (bytes "x") builder refl

abbrev two_cases : List Case
two_cases =
    (bytes "first", (bytes "descr", bytes "The first") ∷ (bytes "timeout", bytes "20") ∷ [])
    ∷ (bytes "second", [])
    ∷ []

parse_test_cases-printed_example :
    parse_test_cases 3 whole_numbers (list_lines two_cases) [] ≡ meaning whole_numbers two_cases []
unfolding kyua.Prelude.Search.find_str
parse_test_cases-printed_example =
    parse_test_cases-printed 3 whole_numbers two_cases [] refl (omega arith)

parse_atf_list-has_cases_example : has_cases (parse_atf_list whole_numbers (bytes "no list")) ≡ true
parse_atf_list-has_cases_example = parse_atf_list-has_cases whole_numbers (bytes "no list")
