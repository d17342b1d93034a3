-- ===== src/Examples/Selection.antt =====
-- The theorems on filters and scanners at concrete inputs.
use kyua.Prelude.{◌≡◌, ◌↔◌, inl, inr, refl, true, not, ◌&&◌, some, [], ◌∷◌, arith, any, Bool-cases}
use kyua.Prelude.Bytes.{bytes, find_from}
use kyua.Prelude.Results.{ok}
use kyua.FsPath.{FsPath, path, is_parent_of, branch_path, is_absolute}
use kyua.FsPath.Normal.{IsNormal}
use kyua.Filters.{
  TestFilter, contains, matches_test_case, matches_test_program, match_test_case, member,
  check_disjoint_filters, filter_eq, filters_state, unused, filter_str,
}
use kyua.Filters
use kyua.FsPath.{path_eq}
use kyua.Filters.Order.{filter_eq_iff}
use kyua.Filters.Parse.{IsText, parse_iff, parse-filter_str}
use kyua.Filters.Matching.{matches_test_case-contains}
use kyua.Filters.Disjoint.{Outcome, check_disjoint_filters-Outcome, matches_unique}
use kyua.Filters.State.{run, returns, unused-run}
use kyua.Scanner.{scanner}
use kyua.Scanner.Scan.{scan, scan-scanner}
use kyua.Examples.Data.{
  bin_ls, bin-IsNormal, bin_ls-IsNormal, etc-IsNormal, all_bin, ls_list, all_etc, program_ls,
  programs,
}

parse_iff_example :
    (Filters.parse (bytes "bin/ls:list") ≡ ok ls_list) ↔ IsText ls_list (bytes "bin/ls:list")
parse_iff_example = parse_iff (bytes "bin/ls:list") ls_list

parse-filter_str_example : Filters.parse (filter_str ls_list) ≡ ok ls_list
unfolding is_absolute
parse-filter_str_example = parse-filter_str ls_list bin_ls-IsNormal refl refl

matches_test_case-contains_example : matches_test_case all_bin bin_ls (bytes "list") ≡ true
unfolding contains matches_test_case filter_eq path_eq is_parent_of branch_path find_from
    kyua.FsPath.add_component matches_test_program
matches_test_case-contains_example =
    matches_test_case-contains all_bin ls_list bin_ls (bytes "list") bin-IsNormal bin_ls-IsNormal
      bin_ls-IsNormal refl refl

check_disjoint_filters-Outcome_example :
    Outcome
      (all_bin ∷ ls_list ∷ [])
      (all_bin ∷ ls_list ∷ [])
      (check_disjoint_filters (all_bin ∷ ls_list ∷ []))
check_disjoint_filters-Outcome_example = check_disjoint_filters-Outcome (all_bin ∷ ls_list ∷ [])

only_normal : (h : TestFilter) → member h (all_etc ∷ all_bin ∷ []) ≡ true → IsNormal h.test_program
only_normal h m = elim (Bool-cases (filter_eq h all_etc)) [
  | inl e ↦ rw ((filter_eq_iff h all_etc).0 e) etc-IsNormal
  | inr e ↦ elim (Bool-cases (filter_eq h all_bin)) [
    | inl k ↦ rw ((filter_eq_iff h all_bin).0 k) bin-IsNormal
    | inr k ↦ cc (rw (member, e, k) at m)
  ]
]

matches_unique_example : all_bin ≡ all_bin
unfolding check_disjoint_filters matches_test_case filter_eq path_eq contains is_parent_of
    branch_path find_from kyua.FsPath.add_component matches_test_program
matches_unique_example =
    matches_unique (all_etc ∷ all_bin ∷ []) all_bin all_bin bin_ls (bytes "list") only_normal
      bin_ls-IsNormal refl refl refl refl refl

unused-run_example :
    member all_etc
      (unused (run (filters_state (all_bin ∷ all_etc ∷ [])) ((bin_ls, bytes "list") ∷ [])))
    ≡ (member all_etc (all_bin ∷ all_etc ∷ [])
        && not (any (returns (all_bin ∷ all_etc ∷ []) all_etc) ((bin_ls, bytes "list") ∷ [])))
unused-run_example = unused-run (all_bin ∷ all_etc ∷ []) ((bin_ls, bytes "list") ∷ []) all_etc

scan-scanner_example :
    scan 2 (scanner programs (ls_list ∷ [])) ≡ some ((program_ls, bytes "list") ∷ [])
unfolding match_test_case matches_test_case matches_test_program path_eq
scan-scanner_example = scan-scanner programs (ls_list ∷ []) 2 (omega arith)
