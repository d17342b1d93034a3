-- ===== src/GoogletestResult/Show.antt =====
-- The comparison and the printing of a Google Test result.
use kyua.Prelude.{Bool, true, false, ◌&&◌, none, some, ◌++◌}
use kyua.Prelude.Bytes.{Bytes, bytes, str_eq}
use kyua.Text.{quote}
use kyua.AtfResult.Show.{option_eq}
use kyua.GoogletestResult.{Types, broken, disabled, failed, skipped, successful, GoogletestResult}

-- The names of the switch in `operator<<`.
unfoldable pub type_name : Types → Bytes
type_name broken = bytes "broken"
type_name disabled = bytes "disabled"
type_name failed = bytes "failed"
type_name skipped = bytes "skipped"
type_name successful = bytes "successful"

unfoldable pub type_eq : Types → Types → Bool
type_eq broken broken = true
type_eq disabled disabled = true
type_eq failed failed = true
type_eq skipped skipped = true
type_eq successful successful = true
type_eq _ _ = false

unfoldable pub googletest_result_eq : GoogletestResult → GoogletestResult → Bool
unfolding type_eq
googletest_result_eq a b = type_eq a.result_type b.result_type && option_eq str_eq a.reason b.reason

-- `operator<<`.
unfoldable pub show_googletest_result : GoogletestResult → Bytes
unfolding quote type_name
show_googletest_result r =
    bytes "model::test_result{type="
    ++ (quote (type_name r.result_type) b'\''
        ++ (bytes ", reason="
            ++ (elim r.reason [ none ↦ bytes "none" | some reason ↦ quote reason b'\'' ]
                ++ bytes "}")))
