-- ===== src/GoogletestResult/Apply.antt =====
-- `apply`, `externalize` and `calculate_googletest_result`.
use kyua.Prelude.{Bool, true, false, Option, none, some, [], ◌++◌, if◌then◌else◌}
use kyua.Prelude.Bytes.{Bytes, bytes, str_eq}
use kyua.Prelude.Results.{ok, err}
use kyua.Status.{Status}
use kyua.TestResult.{TestResult, TestResultType}
use kyua.AtfResult.Apply.{exit_success, exit_failure, exited_with, format_status}
use kyua.GoogletestResult.{
  Types, broken, disabled, failed, skipped, successful, GoogletestResult, format_error,
  runtime_error, failed_invariant, Parsed, Patterns, invalid_output_message, load,
}

abbrev pub broken_by : Bytes → GoogletestResult
broken_by reason = record { result_type = broken; reason = some reason }

-- `check_status` and the result of each case.
unfoldable pub expect_code : GoogletestResult → Status → Bool → Bytes → GoogletestResult
expect_code r s expect_pass message =
    if exited_with s (if expect_pass then exit_success else exit_failure)
    then r
    else broken_by (message ++ format_status s)

unfoldable pub apply_status : Types → GoogletestResult → Status → GoogletestResult
unfolding expect_code
apply_status broken r s = r
apply_status disabled r s =
    expect_code r s true (bytes "Disabled test case should have reported success but ")
apply_status failed r s =
    expect_code r s false (bytes "Failed test case should have reported failure but ")
apply_status skipped r s =
    expect_code r s true (bytes "Skipped test case should have reported success but ")
apply_status successful r s =
    expect_code r s true (bytes "Passed test case should have reported success but ")

unfoldable pub apply : GoogletestResult → Option Status → GoogletestResult
unfolding apply_status
apply r none = r
apply r (some s) = apply_status r.result_type r s

unfoldable pub externalize_type : Types → TestResultType
externalize_type broken = TestResultType.broken
externalize_type disabled = TestResultType.skipped
externalize_type failed = TestResultType.failed
externalize_type skipped = TestResultType.skipped
externalize_type successful = TestResultType.passed

-- `externalize`; `none` is a failed `_reason.get()`.
unfoldable pub externalize_at : Types → Option Bytes → Option TestResult
unfolding externalize_type
externalize_at successful reason =
    some (record { result_type = TestResultType.passed; reason = [] })
externalize_at t none = none
externalize_at t (some reason) = some (record { result_type = externalize_type t; reason = reason })

unfoldable pub externalize : GoogletestResult → Option TestResult
unfolding externalize_at
externalize r = externalize_at r.result_type r.reason

-- Whether the result is broken with `invalid_output_message`.
unfoldable pub is_invalid_output : Types → Option Bytes → Bool
unfolding str_eq
is_invalid_output broken (some reason) = str_eq reason invalid_output_message
is_invalid_output t reason = false

abbrev pub premature : Status → GoogletestResult
premature s = broken_by (bytes "Error: Premature exit. Test case " ++ format_status s)

-- The `try` block of `calculate_googletest_result` and its handlers; `none` is an abort.
unfoldable pub handle : Parsed → Option Status → Option GoogletestResult
unfolding is_invalid_output
handle (ok r) none = some r
handle (ok r) (some s) = some (if is_invalid_output r.result_type r.reason then premature s else r)
handle (err (format_error what)) (some s) =
    some (broken_by (bytes "Error: " ++ (what ++ (bytes ". Test case " ++ format_status s))))
handle (err (runtime_error what)) (some s) = some (premature s)
handle (err failed_invariant) status = none
handle (err e) none = some (broken_by (bytes "Unknown result"))

-- `calculate_googletest_result`. `none` is an abort, by an invariant or by a missing reason.
unfoldable pub calculate_googletest_result :
    Patterns → Option Status → Option Bytes → Option TestResult
unfolding load handle apply externalize
calculate_googletest_result p status file = elim (handle (load p file) status) [
  | none ↦ none
  | some r ↦ externalize (apply r status)
]
