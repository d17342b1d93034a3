-- ===== src/Tap/Judge.antt =====
-- `parse_tap_output`, and the results of the TAP and plain interfaces (engine/plain.cpp).
use kyua.Prelude.{◌+◌, Option, none, some, [], ◌++◌, ◌==◌, if◌then◌else◌}
use kyua.Prelude.Bytes.{Bytes, bytes}
use kyua.Prelude.Integer.{ℤ, show_nat, show_int, int_eq}
use kyua.Prelude.Results.{Result, ok, err}
use kyua.Status.{Status, exited, signaled, exitstatus, termsig}
use kyua.TestResult.{TestResult, TestResultType, passed, failed, broken, skipped}
use kyua.AtfResult.Apply.{exit_success, show_code}
use kyua.Tap.{
  TapPatterns, TapError, format_error, text_error, failed_invariant, TapSummary, parse, plan_eq,
  all_skipped_plan,
}

-- A `load_error` with its message, or an abort.
pub data LoadFailure : Type 0 where
  load_error : Bytes → LoadFailure
  aborted : LoadFailure

abbrev pub load_failed : Bytes → Bytes → LoadFailure
load_failed filename reason =
    load_error (bytes "Load of '" ++ (filename ++ (bytes "' failed: " ++ reason)))

-- The handlers of `parse_tap_output`.
unfoldable pub rethrow : Bytes → Result TapError TapSummary → Result LoadFailure TapSummary
rethrow filename (ok summary) = ok summary
rethrow filename (err (format_error what)) = err (load_failed filename what)
rethrow filename (err (text_error what)) = err (load_failed filename what)
rethrow filename (err failed_invariant) = err aborted

-- `parse_tap_output`; the file is `none` if it cannot be opened.
unfoldable pub parse_tap_output : TapPatterns → Bytes → Option Bytes → Result LoadFailure TapSummary
unfolding rethrow parse
parse_tap_output p filename none =
    err (load_failed filename (bytes "Failed to open TAP output file"))
parse_tap_output p filename (some input) = rethrow filename (parse p input)

abbrev pub result_of : TestResultType → Bytes → TestResult
result_of t reason = record { result_type = t; reason = reason }

-- The end of `tap_to_result`, where all tests were ok; `none` is a failed PRE of `exitstatus`.
unfoldable pub all_ok_result : Option ℤ → Option TestResult
all_ok_result none = none
all_ok_result (some code) =
    if int_eq code exit_success
    then some (result_of passed [])
    else some (
        result_of broken (
          bytes "Dubious test program: reported all tests as passed but returned exit code "
          ++ show_int code))

unfoldable pub tap_to_result : TapSummary → Status → Option TestResult
unfolding all_ok_result exitstatus
tap_to_result summary status =
    if summary.bailed_out
    then some (result_of failed (bytes "Bailed out"))
    else if plan_eq summary.plan all_skipped_plan
    then some (result_of skipped summary.all_skipped_reason)
    else if summary.not_ok_count == 0
    then all_ok_result (exitstatus status)
    else some (
        result_of failed (
          show_nat summary.not_ok_count
          ++ (bytes " of "
              ++ (show_nat (summary.ok_count + summary.not_ok_count) ++ bytes " tests failed"))))

-- The `try` block of `tap_interface::compute_result` and its handler.
unfoldable pub judge : Result LoadFailure TapSummary → Status → Option TestResult
unfolding tap_to_result
judge (ok summary) s = tap_to_result summary s
judge (err (load_error what)) s =
    some (result_of broken (bytes "TAP test program yielded invalid data: " ++ what))
judge (err aborted) s = none

-- `tap_interface::compute_result`; `none` is an abort.
unfoldable pub tap_result : TapPatterns → Option Status → Bytes → Option Bytes → Option TestResult
unfolding judge parse_tap_output signaled termsig
tap_result p none stdout_path file = some (result_of broken (bytes "Test case timed out"))
tap_result p (some s) stdout_path file =
    if signaled s
    then some (result_of broken (bytes "Received signal " ++ show_code (termsig s)))
    else judge (parse_tap_output p stdout_path file) s

-- The branch of `plain_interface::compute_result` on an exited process.
unfoldable pub plain_exited : Option ℤ → Option TestResult
plain_exited none = none
plain_exited (some code) =
    if int_eq code exit_success
    then some (result_of passed [])
    else some (result_of failed (bytes "Returned non-success exit status " ++ show_int code))

-- `plain_interface::compute_result`; `none` is a failed precondition of the status.
unfoldable pub plain_result : Option Status → Option TestResult
unfolding plain_exited exited exitstatus termsig
plain_result none = some (result_of broken (bytes "Test case timed out"))
plain_result (some s) = if exited s then plain_exited (exitstatus s) else elim (termsig s) [
  | none ↦ none
  | some n ↦ some (result_of broken (bytes "Received signal " ++ show_int n))
]
