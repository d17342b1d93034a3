-- ===== src/Filters.antt =====
-- engine/filters.cpp. A `std::set` is the list of its elements in the order of iteration, which
-- is that of `operator<`.
pub mod Order
pub mod Parse
pub mod Matching
pub mod Disjoint
pub mod State
use kyua.Prelude.{
  ℕ, ◌+◌, ◌-◌, ◌<◌, Bool, true, false, not, ◌&&◌, ◌||◌, Option, none, some, List, [], ◌∷◌, ◌++◌,
  ◌==◌, if◌then◌else◌, length, drop, filter, any, is_empty,
}
use kyua.Prelude.Bytes.{Bytes, str_eq, str_lt, find, find_from, substr, substr_to}
use kyua.Prelude.Results.{Result, ok, err}
use kyua.FsPath.{FsPath, PathError, path, is_absolute, path_eq, path_lt, is_parent_of}

pub record TestFilter : Type 0 where
  pub test_program : FsPath
  pub test_case : Bytes

-- The `std::runtime_error`s of this file, by what their texts name.
pub data FilterError : Type 0 where
  empty_filter : FilterError
  empty_program : Bytes → FilterError
  empty_case : Bytes → FilterError
  absolute_program : Bytes → FilterError
  invalid_path : Bytes → PathError → FilterError
  not_disjoint : Bytes → Bytes → FilterError

-- The `try` block of `parse`, behind the constructor of the path.
unfoldable pub parse_with :
    Bytes → Option ℕ → Result PathError FsPath → Result FilterError TestFilter
parse_with str pos (err e) = err (invalid_path str e)
parse_with str pos (ok program) =
    if is_absolute program then err (absolute_program program.repr) else elim pos [
      | none ↦ ok (record { test_program = program; test_case = [] })
      | some p ↦ ok (record { test_program = program; test_case = drop (p + 1) str })
    ]

-- `pos == k`, where `pos` may be `npos`.
abbrev is_at : Option ℕ → ℕ → Bool
is_at none k = false
is_at (some p) k = p == k

-- `parse` behind the search for the colon.
unfoldable pub parse_at : Bytes → Option ℕ → Result FilterError TestFilter
parse_at str pos =
    if is_empty str
    then err empty_filter
    else if is_at pos 0
    then err (empty_program str)
    else if is_at pos (length str - 1)
    then err (empty_case str)
    else parse_with str pos (path (substr_to str 0 pos))

unfoldable pub parse : Bytes → Result FilterError TestFilter
parse str = parse_at str (find_from b':' str 0)

-- `test_filter::str`.
unfoldable pub filter_str : TestFilter → Bytes
filter_str f =
    if not (is_empty f.test_case)
    then f.test_program.repr ++ (b':' ∷ f.test_case)
    else f.test_program.repr

unfoldable pub filter_eq : TestFilter → TestFilter → Bool
filter_eq f g = path_eq f.test_program g.test_program && str_eq f.test_case g.test_case

unfoldable pub filter_lt : TestFilter → TestFilter → Bool
filter_lt f g =
    path_lt f.test_program g.test_program
    || (path_eq f.test_program g.test_program && str_lt f.test_case g.test_case)

unfoldable pub contains : TestFilter → TestFilter → Bool
contains f g =
    if filter_eq f g
    then true
    else is_empty f.test_case && is_parent_of f.test_program g.test_program

unfoldable pub matches_test_program : TestFilter → FsPath → Bool
matches_test_program f program =
    if path_eq f.test_program program
    then true
    else is_empty f.test_case && is_parent_of f.test_program program

unfoldable pub matches_test_case : TestFilter → FsPath → Bytes → Bool
matches_test_case f program test_case =
    if matches_test_program f program
    then is_empty f.test_case || str_eq f.test_case test_case
    else false

-- `std::set::insert`.
unfoldable pub insert : TestFilter → List TestFilter → List TestFilter
insert f [] = f ∷ []
insert f (g ∷ gs) =
    let rest = insert f gs in
    if filter_lt f g then f ∷ g ∷ gs else if filter_lt g f then g ∷ rest else g ∷ gs

abbrev pub member : TestFilter → List TestFilter → Bool
member f = any (filter_eq f)

-- The loop of `test_filters::match_test_program` ends at the first match.
unfoldable pub match_test_program : List TestFilter → FsPath → Bool
match_test_program [] program = true
match_test_program (f ∷ fs) program = any (λ g. matches_test_program g program) (f ∷ fs)

-- The loop of `test_filters::match_test_case`.
unfoldable pub find_match : List TestFilter → FsPath → Bytes → Option TestFilter
find_match [] program test_case = none
find_match (f ∷ fs) program test_case =
    let rest = find_match fs program test_case in
    if matches_test_case f program test_case then some f else rest

abbrev pub is_found : Option TestFilter → Bool
is_found none = false
is_found (some f) = true

unfoldable pub match_test_case : List TestFilter → FsPath → Bytes → Bool × Option TestFilter
unfolding find_match
match_test_case [] program test_case = (true, none)
match_test_case (f ∷ fs) program test_case =
    let found = find_match (f ∷ fs) program test_case in (is_found found, found)

-- `std::set_difference` on two ordered sets.
unfoldable pub difference : List TestFilter → List TestFilter → List TestFilter
difference filters matched = filter (λ f. not (member f matched)) filters

-- The inner loop of `check_disjoint_filters`. The elements of a set differ, so two iterators are
-- equal if and only if their elements are.
unfoldable pub check_against : TestFilter → List TestFilter → Result FilterError (Unit {0})
check_against f [] = ok tt
check_against f (g ∷ gs) =
    let rest = check_against f gs in
    if not (filter_eq f g) && contains f g
    then err (not_disjoint (filter_str f) (filter_str g))
    else rest

-- The outer loop, over what is left of the set.
unfoldable pub check_each : List TestFilter → List TestFilter → Result FilterError (Unit {0})
unfolding check_against
check_each [] filters = ok tt
check_each (f ∷ fs) filters = elim (check_against f filters) [
  | ok _ ↦ check_each fs filters
  | err e ↦ err e
]

unfoldable pub check_disjoint_filters : List TestFilter → Result FilterError (Unit {0})
unfolding check_each
check_disjoint_filters filters = check_each filters filters

pub record FiltersState : Type 0 where
  pub filters : List TestFilter
  pub used_filters : List TestFilter

unfoldable pub filters_state : List TestFilter → FiltersState
filters_state filters = record { filters = filters; used_filters = [] }

abbrev pub note_used : FiltersState → Option TestFilter → FiltersState
note_used s none = s
note_used s (some f) = record s { used_filters = insert f s.used_filters }

-- `filters_state::match_test_case`, with the state behind it.
unfoldable pub use_test_case : FiltersState → FsPath → Bytes → Bool × FiltersState
use_test_case s program test_case =
    let (matched, found) = match_test_case s.filters program test_case in
    (matched, if matched then note_used s found else s)

unfoldable pub unused : FiltersState → List TestFilter
unfolding difference
unused s = difference s.filters s.used_filters
