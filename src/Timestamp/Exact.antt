-- ===== src/Timestamp/Exact.antt =====
-- The arithmetic of timestamps and deltas.
use kyua.Prelude.{
  ℕ, ◌+◌, ◌-◌, ◌≤◌, ◌<◌, ◌≡◌, inl, inr, refl, ap, ◌∙◌, true, false, some, arith, ltb, if◌then◌else◌,
  Bool-cases,
}
use kyua.Prelude.{◌/◌, ◌%◌}
use kyua.Prelude.Integer.{pos}
use kyua.Prelude.Results.{ok}
use kyua.Delta.{Delta, int64, total}
use kyua.Delta.Exact.{IsNormalized, Fits, int64-Fits, from_microseconds_lem, total-injective}
use kyua.Timestamp.{
  Timestamp, word, since_epoch, of_microseconds, time_lt, int_lt, later, earlier, difference, minus,
}

-- The fields of a timestamp that the system gives, in the range of an int64_t.
abbrev pub IsTime : Timestamp → Type 0
IsTime t = (t.tv_usec < 1000000) × Fits (word t)

int64-minus : (a b : ℕ) → Fits a → b ≤ a → int64 (minus a b) ≡ pos (a - b)
unfolding int64
int64-minus a b h k =
    let same : minus a b % 18446744073709551616 ≡ a - b = omega arith in
    let small : ltb (a - b) 9223372036854775808 ≡ true = ground arith in rw (same, small) refl

pub time_lt_lem : (a b : Timestamp) → IsTime a → IsTime b → time_lt a b ≡ ltb (word a) (word b)
unfolding time_lt since_epoch int_lt
time_lt_lem a b h k = rw (int64-Fits (word a) h.1, int64-Fits (word b) k.1) refl

word-injective :
    (a b : Timestamp) → a.tv_usec < 1000000 → b.tv_usec < 1000000 → word a ≡ word b → a ≡ b
word-injective a b h k e =
    let s : a.tv_sec ≡ b.tv_sec = omega arith in let u : a.tv_usec ≡ b.tv_usec = omega arith in cc

of_microseconds_lem :
    (n : ℕ)
    → (t : Timestamp) × (of_microseconds (pos n) ≡ some t) × (word t ≡ n) × (t.tv_usec < 1000000)
unfolding of_microseconds
of_microseconds_lem n =
    (record { tv_sec = n / 1000000; tv_usec = n % 1000000 }, refl, omega arith, omega arith)

later_lem :
    (t : Timestamp) (d : Delta)
    → Fits (word t + total d)
    → (u : Timestamp) × (later t d ≡ some u) × (word u ≡ word t + total d) × (u.tv_usec < 1000000)
unfolding later
later_lem t d h =
    let (u, made, same, norm) = of_microseconds_lem (word t + total d) in
    (u, ap of_microseconds (int64-Fits _ h) ∙ made, same, norm)

-- The difference of two timestamps, with less than a second in their microseconds and within an
-- int64_t, is one microsecond where the first is before the second, and else the normalized delta
-- of the microseconds between them.
pub difference_lem :
    (a b : Timestamp)
    → IsTime a
    → IsTime b
    → (d : Delta) × (difference a b ≡ ok d)
      × (total d ≡ (if ltb (word a) (word b) then 1 else word a - word b))
      × IsNormalized d
unfolding difference
difference_lem a b h k = elim (Bool-cases (ltb (word a) (word b))) [
  | inl e ↦
      let (d, made, same, norm) = from_microseconds_lem 1 in
      (d, rw (difference, time_lt_lem a b h k, e) made, rw e same, norm)
  | inr e ↦
      let le : word b ≤ word a = ground arith in
      let (d, made, same, norm) = from_microseconds_lem (word a - word b) in
      (
        d,
        rw (difference, time_lt_lem a b h k, e, int64-minus (word a) (word b) h.1 le) made,
        rw e same,
        norm,
      )
]

-- A normalized delta that is added to a timestamp with less than a second in its microseconds,
-- where an int64_t holds both it and the sum, is the difference of the sum to that timestamp, and
-- taking it away gives the timestamp again.
pub later-difference :
    (t : Timestamp) (d : Delta)
    → IsTime t
    → IsNormalized d
    → Fits (word t + total d)
    → (u : Timestamp) × (later t d ≡ some u) × (difference u t ≡ ok d) × (earlier u d ≡ some t)
unfolding earlier
later-difference t d h k f =
    let (u, made, sum, norm) = later_lem t d f in
    let fits : Fits (word u) = omega arith in
    let order : ltb (word u) (word t) ≡ false = ground arith in
    let (e, gone, span, small) = difference_lem u t (norm, fits) h in
    let same : total e ≡ total d = rw order at span ∙ omega arith in
    let le : total d ≤ word u = omega arith in
    let (v, back, rest, tiny) = of_microseconds_lem (word u - total d) in
    let home : word v ≡ word t = rest ∙ omega arith in
    (
      u,
      made,
      gone ∙ ap ok (total-injective e d small k same),
      ap of_microseconds (int64-minus (word u) (total d) fits le)
          ∙ back
          ∙ ap some (word-injective v t tiny h.0 home),
    )
