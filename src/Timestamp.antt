-- ===== src/Timestamp.antt =====
-- utils/datetime.cpp: the class timestamp, a point in time from 1970 on, as gettimeofday gives it.
-- The fields are 64-bit integers; what an int64_t does not hold wraps around.
use kyua.Prelude.{
  ℕ, suc, ◌+◌, ◌-◌, ap, Bool, true, false, not, ◌&&◌, ◌||◌, Option, none, some, ◌++◌, ◌==◌, ltb,
  if◌then◌else◌,
}
use kyua.Prelude.Bytes.{Bytes, bytes, at}
use kyua.Prelude.{◌*◌, ◌/◌, ◌%◌}
use kyua.Prelude.Integer.{ℤ, pos, negsuc, int_eq, show_int}
use kyua.Prelude.Results.{Result}
use kyua.Delta.{Delta, DeltaError, int64, total, from_microseconds}
pub mod Exact

pub record Timestamp : Type 0 where
  pub tv_sec : ℕ
  pub tv_usec : ℕ

-- The order of int64_t.
unfoldable pub int_lt : ℤ → ℤ → Bool
int_lt (pos a) (pos b) = ltb a b
int_lt (pos a) (negsuc b) = false
int_lt (negsuc a) (pos b) = true
int_lt (negsuc a) (negsuc b) = ltb b a

unfoldable pub int_le : ℤ → ℤ → Bool
unfolding int_lt
int_le a b = int_lt a b || int_eq a b

-- `timestamp::from_microseconds`; `none` is a failed PRE.
unfoldable pub of_microseconds : ℤ → Option Timestamp
of_microseconds (negsuc value) = none
of_microseconds (pos value) = some (record { tv_sec = value / 1000000; tv_usec = value % 1000000 })

abbrev pub word : Timestamp → ℕ
word t = t.tv_sec * 1000000 + t.tv_usec

unfoldable pub since_epoch : Timestamp → ℤ
unfolding int64
since_epoch t = int64 (word t)

unfoldable pub to_seconds : Timestamp → ℤ
unfolding int64
to_seconds t = int64 t.tv_sec

unfoldable pub time_eq : Timestamp → Timestamp → Bool
time_eq a b = (a.tv_sec == b.tv_sec) && (a.tv_usec == b.tv_usec)

unfoldable pub time_ne : Timestamp → Timestamp → Bool
unfolding time_eq
time_ne a b = not (time_eq a b)

unfoldable pub time_lt : Timestamp → Timestamp → Bool
unfolding int_lt since_epoch
time_lt a b = int_lt (since_epoch a) (since_epoch b)

unfoldable pub time_le : Timestamp → Timestamp → Bool
unfolding int_le since_epoch
time_le a b = int_le (since_epoch a) (since_epoch b)

unfoldable pub time_gt : Timestamp → Timestamp → Bool
unfolding int_lt since_epoch
time_gt a b = int_lt (since_epoch b) (since_epoch a)

unfoldable pub time_ge : Timestamp → Timestamp → Bool
unfolding int_le since_epoch
time_ge a b = int_le (since_epoch b) (since_epoch a)

-- The difference of two 64-bit words.
abbrev pub minus : ℕ → ℕ → ℕ
minus a b = a + (18446744073709551616 - b % 18446744073709551616)

-- `operator+` and `operator-` with a delta.
unfoldable pub later : Timestamp → Delta → Option Timestamp
unfolding of_microseconds int64
later t d = of_microseconds (int64 (word t + total d))

unfoldable pub earlier : Timestamp → Delta → Option Timestamp
unfolding of_microseconds int64
earlier t d = of_microseconds (int64 (minus (word t) (total d)))

-- `operator-` with a timestamp.
unfoldable pub difference : Timestamp → Timestamp → Result DeltaError Delta
unfolding time_lt from_microseconds int64
difference a b =
    if time_lt a b
    then from_microseconds (pos 1)
    else from_microseconds (int64 (minus (word a) (word b)))

unfoldable pub show_timestamp : Timestamp → Bytes
unfolding show_int since_epoch
show_timestamp t = show_int (since_epoch t) ++ bytes "us"
