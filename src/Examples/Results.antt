-- ===== src/Examples/Results.antt =====
-- The theorems on test results at concrete inputs.
use kyua.Prelude.{◌≡◌, ◌↔◌, ◌⊎◌, inl, inr, refl, true, none, some, [], ◌∷◌, ◌++◌, arith, Bool-cases}
use kyua.Prelude.Bytes.{bytes, str_eq}
use kyua.Prelude.Integer.{pos}
use kyua.Prelude.Results.{ok, err}
use kyua.TestResult
use kyua.TestResult.{TestResult, TestResultType}
use kyua.AtfResult
use kyua.AtfResult.{AtfResult, AtfError}
use kyua.AtfResult.Apply.{calculate_atf_result, externalize}
use kyua.AtfResult.Total.{calculate_atf_result_total}
use kyua.AtfResult.Confirm.{Confirms, calculate_atf_result-good}
use kyua.AtfResult.Printed.{result_line, ended_with}
use kyua.AtfResult.Roundtrip.{parse-result_line}
use kyua.GoogletestResult
use kyua.GoogletestResult.{GoogletestResult, lines}
use kyua.GoogletestResult.Apply.{calculate_googletest_result}
use kyua.GoogletestResult.Confirm.{
  IsConfirmed, calculate_googletest_result-good, calculate_googletest_result_total,
}
use kyua.GoogletestResult.Verdict.{EndsWell, last_word, last_text, Judged, parse-Judged}
use kyua.Examples.Data.{
  exited_0, skipped_file, no_root, exit_3, gtest, gtest_file, gtest_passed, gtest_enabled, is_ok,
}

calculate_atf_result_total_example :
    ((x : TestResult) × (calculate_atf_result (some exited_0) (some skipped_file) ≡ ok (some x)))
    ⊎ ((AtfResult.load (some skipped_file) ≡ err AtfError.out_of_range)
        × (calculate_atf_result (some exited_0) (some skipped_file) ≡ err AtfError.out_of_range))
calculate_atf_result_total_example = calculate_atf_result_total (some exited_0) (some skipped_file)

calculate_atf_result-good_example :
    ((calculate_atf_result (some exited_0) (some skipped_file) ≡ ok (some no_root))
      × (TestResult.good TestResultType.skipped ≡ true))
    ↔ ((r : AtfResult) × (AtfResult.load (some skipped_file) ≡ ok r)
        × Confirms r.result_type r.argument (some exited_0)
        × (externalize r ≡ some no_root))
calculate_atf_result-good_example =
    calculate_atf_result-good (some exited_0) (some skipped_file) no_root

parse-result_line_example : AtfResult.parse (result_line exit_3 ++ (b'\n' ∷ [])) ≡ ok exit_3
parse-result_line_example =
    parse-result_line AtfResult.Types.expected_exit (some (pos 3)) (some (bytes "so"))
      (ended_with AtfResult.Types.expected_exit (pos 3) (bytes "so") refl (omega arith) refl)

calculate_googletest_result_total_example :
    ((x : TestResult) × (calculate_googletest_result gtest (some exited_0) (some gtest_file)
        ≡ some x))
    ⊎ ((GoogletestResult.load gtest (some gtest_file) ≡ err GoogletestResult.failed_invariant)
        × (calculate_googletest_result gtest (some exited_0) (some gtest_file) ≡ none))
calculate_googletest_result_total_example =
    calculate_googletest_result_total gtest (some exited_0) (some gtest_file)

calculate_googletest_result-good_example :
    ((calculate_googletest_result gtest (some exited_0) (some gtest_file) ≡ some gtest_passed)
      × (TestResult.good TestResultType.passed ≡ true))
    ↔ IsConfirmed (GoogletestResult.load gtest (some gtest_file)) (some exited_0) gtest_passed
calculate_googletest_result-good_example =
    calculate_googletest_result-good gtest (some exited_0) (some gtest_file) gtest_passed

gtest-EndsWell : EndsWell gtest
gtest-EndsWell line x e = elim (Bool-cases (str_eq line (bytes "[       OK ] a.b\n"))) [
  | inl k ↦ is_ok x (rw k at e)
  | inr k ↦ cc (rw k at e)
]

parse-Judged_example :
    Judged
      (last_word gtest none (lines gtest_file))
      (last_text gtest [] (lines gtest_file))
      (GoogletestResult.parse gtest gtest_file)
parse-Judged_example = parse-Judged gtest gtest_file gtest-EndsWell gtest_enabled
