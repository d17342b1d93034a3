-- ===== src/Examples/Times.antt =====
-- The theorems on spans and points of time at concrete inputs.
use kyua.Prelude.{◌+◌, ◌≡◌, some, arith}
use kyua.Prelude.Results.{ok}
use kyua.Delta.{Delta, total, add}
use kyua.Delta.Exact.{IsNormalized, add_lem}
use kyua.Timestamp.{Timestamp, later, earlier, difference}
use kyua.Timestamp.Exact.{later-difference}
use kyua.Examples.Data.{short, long, noon}

add_lem_example :
    (d : Delta) × (add short long ≡ ok d) × (total d ≡ total short + total long) × IsNormalized d
add_lem_example = add_lem short long (omega arith)

later-difference_example :
    (u : Timestamp) × (later noon long ≡ some u)
    × (difference u noon ≡ ok long)
    × (earlier u long ≡ some noon)
later-difference_example =
    later-difference noon long (omega arith, omega arith) (omega arith) (omega arith)
