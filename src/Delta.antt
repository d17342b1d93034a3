-- ===== src/Delta.antt =====
-- utils/datetime.cpp: the class delta, a span of time of no negative length. The fields are an
-- int64_t and an unsigned long, both of 64 bits; the products and sums wrap around.
use kyua.Prelude.{
  ℕ, zero, suc, ◌+◌, ◌-◌, ap, Bool, not, ◌&&◌, ◌||◌, ◌++◌, ◌==◌, ltb, if◌then◌else◌, length,
}
use kyua.Prelude.Bytes.{Bytes, bytes, at}
use kyua.Prelude.{◌*◌, ◌/◌, ◌%◌}
use kyua.Prelude.Integer.{ℤ, pos, negsuc, show_int}
use kyua.Prelude.Results.{Result, ok, err}
pub mod Exact

pub record Delta : Type 0 where
  pub seconds : ℕ
  pub useconds : ℕ

pub data DeltaError : Type 0 where
  negative_delta : DeltaError

abbrev pub zero_delta : Delta
zero_delta = record { seconds = 0; useconds = 0 }

-- The constructor of two arguments.
unfoldable pub delta : ℤ → ℕ → Result DeltaError Delta
delta (negsuc seconds) useconds = err negative_delta
delta (pos seconds) useconds = ok (record { seconds = seconds; useconds = useconds })

-- A 64-bit word, read as an int64_t.
unfoldable pub int64 : ℕ → ℤ
int64 n =
    if ltb (n % 18446744073709551616) 9223372036854775808
    then pos (n % 18446744073709551616)
    else negsuc (18446744073709551615 - n % 18446744073709551616)

unfoldable pub from_microseconds : ℤ → Result DeltaError Delta
unfolding delta
from_microseconds (negsuc useconds) = err negative_delta
from_microseconds (pos useconds) = delta (pos (useconds / 1000000)) (useconds % 1000000)

-- The word that `to_microseconds` returns.
abbrev pub total : Delta → ℕ
total d = d.seconds * 1000000 + d.useconds

unfoldable pub to_microseconds : Delta → ℤ
unfolding int64
to_microseconds d = int64 (total d)

unfoldable pub delta_eq : Delta → Delta → Bool
delta_eq a b = (a.seconds == b.seconds) && (a.useconds == b.useconds)

unfoldable pub delta_ne : Delta → Delta → Bool
unfolding delta_eq
delta_ne a b = not (delta_eq a b)

unfoldable pub delta_lt : Delta → Delta → Bool
delta_lt a b = ltb a.seconds b.seconds || ((a.seconds == b.seconds) && ltb a.useconds b.useconds)

unfoldable pub delta_le : Delta → Delta → Bool
unfolding delta_lt delta_eq
delta_le a b = delta_lt a b || delta_eq a b

unfoldable pub delta_gt : Delta → Delta → Bool
delta_gt a b = ltb b.seconds a.seconds || ((a.seconds == b.seconds) && ltb b.useconds a.useconds)

unfoldable pub delta_ge : Delta → Delta → Bool
unfolding delta_gt delta_eq
delta_ge a b = delta_gt a b || delta_eq a b

-- `operator+`: the sum of two words, read as an int64_t.
unfoldable pub add : Delta → Delta → Result DeltaError Delta
unfolding from_microseconds int64
add a b = from_microseconds (int64 (total a + total b))

-- `operator*`: the factor is unsigned, so the product is one of words.
unfoldable pub scale : Delta → ℕ → Result DeltaError Delta
unfolding from_microseconds int64
scale d factor = from_microseconds (int64 (total d * factor))

unfoldable pub show_delta : Delta → Bytes
unfolding show_int to_microseconds
show_delta d = show_int (to_microseconds d) ++ bytes "us"
