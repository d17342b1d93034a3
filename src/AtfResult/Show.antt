-- ===== src/AtfResult/Show.antt =====
-- The comparison and the printing of an ATF result.
use kyua.Prelude.{Bool, true, false, ◌&&◌, Option, none, some, ◌++◌}
use kyua.Prelude.Bytes.{Bytes, bytes, str_eq}
use kyua.Prelude.Integer.{int_eq, show_int}
use kyua.Text.{quote}
use kyua.AtfResult.{
  Types, broken, expected_death, expected_exit, expected_failure, expected_signal, expected_timeout,
  failed, passed, skipped, AtfResult,
}

-- The names of the switch in `operator<<`.
unfoldable pub type_name : Types → Bytes
type_name broken = bytes "broken"
type_name expected_death = bytes "expected_death"
type_name expected_exit = bytes "expected_exit"
type_name expected_failure = bytes "expected_failure"
type_name expected_signal = bytes "expected_signal"
type_name expected_timeout = bytes "expected_timeout"
type_name failed = bytes "failed"
type_name passed = bytes "passed"
type_name skipped = bytes "skipped"

unfoldable pub type_eq : Types → Types → Bool
type_eq broken broken = true
type_eq expected_death expected_death = true
type_eq expected_exit expected_exit = true
type_eq expected_failure expected_failure = true
type_eq expected_signal expected_signal = true
type_eq expected_timeout expected_timeout = true
type_eq failed failed = true
type_eq passed passed = true
type_eq skipped skipped = true
type_eq _ _ = false

abbrev pub option_eq {ℓ} : {A : Type ℓ} → (A → A → Bool) → Option A → Option A → Bool
option_eq eq none none = true
option_eq eq (some a) (some b) = eq a b
option_eq eq _ _ = false

unfoldable pub atf_result_eq : AtfResult → AtfResult → Bool
unfolding type_eq
atf_result_eq a b =
    type_eq a.result_type b.result_type
    && (option_eq int_eq a.argument b.argument && option_eq str_eq a.reason b.reason)

-- `operator<<`.
unfoldable pub show_atf_result : AtfResult → Bytes
unfolding quote show_int
show_atf_result r =
    bytes "model::test_result{type="
    ++ (quote (type_name r.result_type) b'\''
        ++ (bytes ", argument="
            ++ (elim r.argument [ none ↦ bytes "none" | some n ↦ show_int n ]
                ++ (bytes ", reason="
                    ++ (elim r.reason [ none ↦ bytes "none" | some reason ↦ quote reason b'\'' ]
                        ++ bytes "}")))))
