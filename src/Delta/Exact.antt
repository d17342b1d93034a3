-- ===== src/Delta/Exact.antt =====
-- The operations of class delta against the number of microseconds.
use kyua.Prelude.{ℕ, ◌+◌, ◌<◌, ◌≡◌, refl, ap, ◌∙◌, true, arith, ◌==◌, ltb, leb}
use kyua.Prelude.{◌*◌, ◌/◌, ◌%◌}
use kyua.Prelude.Integer.{pos}
use kyua.Prelude.Results.{ok}
use kyua.Delta.{
  Delta, delta, int64, from_microseconds, total, to_microseconds, delta_eq, delta_lt, delta_le,
  delta_gt, delta_ge, add, scale,
}

-- Less than a second of microseconds, as `from_microseconds` leaves it.
abbrev pub IsNormalized : Delta → Type 0
IsNormalized d = d.useconds < 1000000

-- A count that an int64_t holds.
abbrev pub Fits : ℕ → Type 0
Fits n = n < 9223372036854775808

pub int64-Fits : (n : ℕ) → Fits n → int64 n ≡ pos n
unfolding int64
int64-Fits n h =
    let same : n % 18446744073709551616 ≡ n = omega arith in
    let small : ltb n 9223372036854775808 ≡ true = ground arith in rw (same, small) refl

pub from_microseconds_lem :
    (n : ℕ) → (d : Delta) × (from_microseconds (pos n) ≡ ok d) × (total d ≡ n) × IsNormalized d
unfolding from_microseconds delta
from_microseconds_lem n =
    (record { seconds = n / 1000000; useconds = n % 1000000 }, refl, omega arith, omega arith)

-- Two normalized deltas with the same number of microseconds are the same.
pub total-injective : (a b : Delta) → IsNormalized a → IsNormalized b → total a ≡ total b → a ≡ b
total-injective a b h k e =
    let s : a.seconds ≡ b.seconds = omega arith in
    let u : a.useconds ≡ b.useconds = omega arith in cc

-- The six comparisons of normalized deltas are those of their numbers of microseconds.
pub comparisons :
    (a b : Delta)
    → IsNormalized a
    → IsNormalized b
    → (delta_lt a b ≡ ltb (total a) (total b))
      × (delta_le a b ≡ leb (total a) (total b))
      × (delta_gt a b ≡ ltb (total b) (total a))
      × (delta_ge a b ≡ leb (total b) (total a))
      × (delta_eq a b ≡ (total a == total b))
unfolding delta_lt delta_le delta_gt delta_ge delta_eq
comparisons a b h k = (ground arith, ground arith, ground arith, ground arith, ground arith)

-- A normalized delta of a number of microseconds that an int64_t holds comes back from that number.
pub from-to :
    (d : Delta) → IsNormalized d → Fits (total d) → from_microseconds (to_microseconds d) ≡ ok d
unfolding to_microseconds
from-to d h k =
    let (e, made, same, norm) = from_microseconds_lem (total d) in
    ap from_microseconds (int64-Fits (total d) k) ∙ made ∙ ap ok (total-injective e d norm h same)

-- The sum of two deltas, where an int64_t holds its microseconds, is the normalized delta of the
-- sum of their microseconds.
pub add_lem :
    (a b : Delta)
    → Fits (total a + total b)
    → (d : Delta) × (add a b ≡ ok d) × (total d ≡ total a + total b) × IsNormalized d
unfolding add
add_lem a b h =
    let (d, made, same, norm) = from_microseconds_lem (total a + total b) in
    (d, ap from_microseconds (int64-Fits _ h) ∙ made, same, norm)

-- A delta times a factor, where an int64_t holds the microseconds, is the normalized delta of the
-- product.
pub scale_lem :
    (a : Delta) (n : ℕ)
    → Fits (total a * n)
    → (d : Delta) × (scale a n ≡ ok d) × (total d ≡ total a * n) × IsNormalized d
unfolding scale
scale_lem a n h =
    let (d, made, same, norm) = from_microseconds_lem (total a * n) in
    (d, ap from_microseconds (int64-Fits _ h) ∙ made, same, norm)
