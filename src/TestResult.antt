-- ===== src/TestResult.antt =====
-- model/test_result.cpp: the result of a test case as the user sees it.
use kyua.Prelude.{Bool, true, false, ◌&&◌, ◌++◌, if◌then◌else◌, is_empty}
use kyua.Prelude.Bytes.{Bytes, bytes, str_eq}
use kyua.Text.{quote}

pub data TestResultType : Type 0 where
  broken expected_failure failed passed skipped : TestResultType

pub record TestResult : Type 0 where
  pub result_type : TestResultType
  pub reason : Bytes

unfoldable pub good : TestResultType → Bool
good expected_failure = true
good passed = true
good skipped = true
good broken = false
good failed = false

unfoldable pub type_name : TestResultType → Bytes
type_name broken = bytes "broken"
type_name expected_failure = bytes "expected_failure"
type_name failed = bytes "failed"
type_name passed = bytes "passed"
type_name skipped = bytes "skipped"

unfoldable pub type_eq : TestResultType → TestResultType → Bool
type_eq broken broken = true
type_eq expected_failure expected_failure = true
type_eq failed failed = true
type_eq passed passed = true
type_eq skipped skipped = true
type_eq _ _ = false

unfoldable pub result_eq : TestResult → TestResult → Bool
unfolding type_eq str_eq
result_eq a b = type_eq a.result_type b.result_type && str_eq a.reason b.reason

-- `operator<<`.
unfoldable pub show_result : TestResult → Bytes
unfolding quote type_name
show_result r =
    if is_empty r.reason
    then bytes "model::test_result{type=" ++ (quote (type_name r.result_type) b'\'' ++ bytes "}")
    else bytes "model::test_result{type="
      ++ (quote (type_name r.result_type) b'\''
          ++ (bytes ", reason=" ++ (quote r.reason b'\'' ++ bytes "}")))
