-- ===== src/AtfResult/Apply.antt =====
-- `apply`, `externalize` and `calculate_atf_result`.
use kyua.Prelude.{Bool, true, false, ◌&&◌, Option, none, some, [], ◌++◌, if◌then◌else◌}
use kyua.Prelude.Bytes.{Bytes, bytes}
use kyua.Prelude.Integer.{ℤ, pos, int_eq, show_int}
use kyua.Prelude.Results.{Result, ok, err, ◌>>=◌}
use kyua.Status.{Status, exited, signaled, exitstatus, termsig, coredump}
use kyua.TestResult.{TestResult, TestResultType}
use kyua.AtfResult.{
  Types, broken, expected_death, expected_exit, expected_failure, expected_signal, expected_timeout,
  failed, passed, skipped, AtfResult, AtfError, format_error, runtime_error, out_of_range,
  unexpected_status, Parsed, load,
}

-- EXIT_SUCCESS and EXIT_FAILURE.
abbrev pub exit_success : ℤ
exit_success = pos 0

abbrev pub exit_failure : ℤ
exit_failure = pos 1

abbrev pub core_mark : Option Bool → Bytes
core_mark (some true) = bytes " (core dumped)"
core_mark _ = []

abbrev pub show_code : Option ℤ → Bytes
show_code none = []
show_code (some n) = show_int n

-- `format_status`.
unfoldable pub format_status : Status → Bytes
format_status s =
    if exited s
    then bytes "exited with code " ++ show_code (exitstatus s)
    else if signaled s
    then bytes "received signal " ++ (show_code (termsig s) ++ core_mark (coredump s))
    else bytes "terminated in an unknown manner"

abbrev pub broken_by : Bytes → AtfResult
broken_by reason = record { result_type = broken; argument = none; reason = some reason }

abbrev pub failed_by : Bytes → AtfResult
failed_by reason = record { result_type = failed; argument = none; reason = some reason }

-- `status.exited() && status.exitstatus() == code`.
unfoldable pub exited_with : Status → ℤ → Bool
exited_with s code = exited s && (elim (exitstatus s) [ none ↦ false | some n ↦ int_eq n code ])

-- The results that want the process to exit with one code.
unfoldable pub expect_code : AtfResult → Status → ℤ → Bytes → AtfResult
expect_code r s code message =
    if exited_with s code then r else broken_by (message ++ format_status s)

-- `_argument`, where it is given, against the code of the process.
unfoldable pub check_argument : AtfResult → Option ℤ → Bytes → Bytes → AtfResult
check_argument r actual first second = elim r.argument [
  | none ↦ r
  | some wanted ↦ elim actual [
    | none ↦ r
    | some got ↦
        if int_eq wanted got
        then r
        else failed_by (first ++ (show_int wanted ++ (second ++ show_int got)))
  ]
]

-- The switch of `apply`, on a process that ended.
unfoldable pub apply_status : Types → AtfResult → Status → AtfResult
apply_status broken r s = r
apply_status expected_death r s = r
apply_status expected_exit r s =
    if exited s
    then check_argument r (exitstatus s) (bytes "Test case expected to exit with code ")
        (bytes " but got code ")
    else broken_by (bytes "Expected clean exit but " ++ format_status s)
apply_status expected_failure r s =
    expect_code r s exit_success (bytes "Expected failure should have reported success but ")
apply_status expected_signal r s =
    if signaled s
    then check_argument r (termsig s) (bytes "Test case expected to receive signal ")
        (bytes " but got ")
    else broken_by (bytes "Expected signal but " ++ format_status s)
apply_status expected_timeout r s = broken_by (bytes "Expected timeout but " ++ format_status s)
apply_status failed r s =
    expect_code r s exit_failure (bytes "Failed test case should have reported failure but ")
apply_status passed r s =
    expect_code r s exit_success (bytes "Passed test case should have reported success but ")
apply_status skipped r s =
    expect_code r s exit_success (bytes "Skipped test case should have reported success but ")

-- The switch of `apply`, on a test that timed out.
unfoldable pub apply_timeout : Types → AtfResult → AtfResult
apply_timeout expected_timeout r = r
apply_timeout _ r = broken_by (bytes "Test case body timed out")

unfoldable pub apply : AtfResult → Option Status → AtfResult
unfolding apply_timeout
apply r none = apply_timeout r.result_type r
apply r (some s) = apply_status r.result_type r s

-- `externalize`; `none` is a failed `_reason.get()`.
unfoldable pub externalize_type : Types → TestResultType
externalize_type broken = TestResultType.broken
externalize_type expected_death = TestResultType.expected_failure
externalize_type expected_exit = TestResultType.expected_failure
externalize_type expected_failure = TestResultType.expected_failure
externalize_type expected_signal = TestResultType.expected_failure
externalize_type expected_timeout = TestResultType.expected_failure
externalize_type failed = TestResultType.failed
externalize_type passed = TestResultType.passed
externalize_type skipped = TestResultType.skipped

abbrev with_reason : TestResultType → Option Bytes → Option TestResult
with_reason t none = none
with_reason t (some reason) = some (record { result_type = t; reason = reason })

unfoldable pub externalize_at : Types → Option Bytes → Option TestResult
unfolding externalize_type
externalize_at passed reason = some (record { result_type = TestResultType.passed; reason = [] })
externalize_at t reason = with_reason (externalize_type t) reason

unfoldable pub externalize : AtfResult → Option TestResult
unfolding externalize_at
externalize r = externalize_at r.result_type r.reason

abbrev unknown_result : AtfResult
unknown_result = broken_by (bytes "Unknown result")

-- The `try` block of `calculate_atf_result` and its handlers: the result to apply the status to,
-- or the exception that no handler takes.
unfoldable pub handle : Parsed → Option Status → Result AtfError AtfResult
handle (ok r) status = ok r
handle (err (format_error what)) (some s) =
    ok (broken_by (bytes "Error: " ++ (what ++ (bytes ". Test case " ++ format_status s))))
handle (err (format_error what)) none = ok unknown_result
handle (err (runtime_error what)) (some s) =
    ok (broken_by (bytes "Error: Premature exit. Test case " ++ format_status s))
handle (err (runtime_error what)) none = ok unknown_result
handle (err out_of_range) status = err out_of_range
handle (err unexpected_status) status = err unexpected_status

-- `calculate_atf_result`. The inner `none` is a failed precondition of `externalize`.
unfoldable pub calculate_atf_result :
    Option Status → Option Bytes → Result AtfError (Option TestResult)
calculate_atf_result status file =
    handle (load file) status >>= λ r. ok (externalize (apply r status))
