-- ===== src/Prelude/Integer/Decimal.antt =====
-- A number is read back from its decimal text.
use Prim.Native.Nat.{ℕ, zero, suc, ◌+◌, ◌-◌, ◌*◌, ◌/◌, ◌%◌, ◌≤◌, ◌<◌}
use mathlib.Core.Path.{◌≡◌, refl, ap, ◌∙◌}
use mathlib.Core.Logic.{◌≢◌, inl, inr}
use mathlib.Core.Bool.{Bool, true, false}
use mathlib.Core.List.{[], ◌∷◌}
use mathlib.Core.Option.{some}
use native.Mathlib.Omega.{arith}
use kyua.Prelude.Bytes.{Bytes}
use kyua.Prelude.Lists.{all}
use kyua.Prelude.Tests.{ltb, Bool-cases}
use kyua.Prelude.Integer.{
  ℤ, pos, negsuc, is_digit, show_digits, show_nat, show_int, show_nat-digits, digits_value,
  read_digits, in_range, read_signed, skip_spaces,
}

digits_value-digit :
    (acc d : ℕ) (s : Bytes)
    → d < 10
    → digits_value acc ((b'0' + d) ∷ s) ≡ digits_value (acc * 10 + d) s
unfolding digits_value
digits_value-digit acc d s h =
    let fits : is_digit (b'0' + d) ≡ true = ground arith in
    let back : b'0' + d - b'0' ≡ d = omega arith in rw (fits, back) refl

digits_value-show_digits :
    (fuel n : ℕ) (rest : Bytes)
    → n ≤ fuel
    → digits_value 0 (show_digits fuel n rest) ≡ digits_value n rest
unfolding show_digits
digits_value-show_digits zero n rest h =
    digits_value-digit 0 (n % 10) rest (omega arith) ∙ ap (λ k. digits_value k rest) (omega arith)
digits_value-show_digits (suc fuel) n rest h = elim (Bool-cases (ltb n 10)) [
  | inl e ↦
      rw e
        (digits_value-digit 0 n rest (ground arith) ∙ ap (λ k. digits_value k rest) (omega arith))
  | inr e ↦ rw e (
      digits_value-show_digits fuel (n / 10) ((b'0' + n % 10) ∷ rest) (ground arith)
      ∙ digits_value-digit (n / 10) (n % 10) rest (omega arith)
      ∙ ap (λ k. digits_value k rest) (omega arith))
]

pub digits_value-show_nat : (n : ℕ) → digits_value 0 (show_nat n) ≡ some n
unfolding show_nat digits_value
digits_value-show_nat n = digits_value-show_digits n n [] (omega arith)

show_digits-ne-nil : (fuel n : ℕ) (c : ℕ) (rest : Bytes) → show_digits fuel n (c ∷ rest) ≢ []
unfolding show_digits
show_digits-ne-nil zero n c rest = λ e. cc
show_digits-ne-nil (suc fuel) n c rest =
    λ e. ground (arith, show_digits-ne-nil fuel (n / 10) (b'0' + n % 10) (c ∷ rest))

pub show_nat-ne-nil : (n : ℕ) → show_nat n ≢ []
unfolding show_nat
show_nat-ne-nil zero = unfold show_digits in λ e. ground arith
show_nat-ne-nil (suc n) =
    unfold show_digits in
    λ e. ground (arith, show_digits-ne-nil n (suc n / 10) (b'0' + suc n % 10) [])

-- An `int` of 32 bits.
abbrev pub IsInt : ℤ → Type 0
IsInt (pos n) = n < 0x80000000
IsInt (negsuc n) = n < 0x80000000

read_digits-value :
    (minus : Bool) (s : Bytes) (n : ℕ)
    → s ≢ []
    → digits_value 0 s ≡ some n
    → read_digits minus s ≡ in_range minus n
unfolding read_digits
read_digits-value minus [] n h e = absurd (h refl)
read_digits-value minus (c ∷ s) n h e = rw (e, read_digits) refl

skip_spaces-digits : (s : Bytes) → all is_digit s ≡ true → skip_spaces s ≡ s
skip_spaces-digits [] h = refl
skip_spaces-digits (c ∷ s) h = ground arith

read_signed-digits : (s : Bytes) → all is_digit s ≡ true → read_signed s ≡ read_digits false s
unfolding read_signed read_digits
read_signed-digits [] h = refl
read_signed-digits (c ∷ s) h = ground arith

in_range-pos : (n : ℕ) → n < 0x80000000 → in_range false n ≡ some (pos n)
in_range-pos n h = ground arith

in_range-negsuc : (n : ℕ) → n < 0x80000000 → in_range true (suc n) ≡ some (negsuc n)
in_range-negsuc n h = ground arith

read_minus : (s : Bytes) → read_signed (skip_spaces (b'-' ∷ s)) ≡ read_digits true s
unfolding read_signed
read_minus s = refl

-- An `int` is read back from its decimal text.
pub read_signed-show_int : (z : ℤ) → IsInt z → read_signed (skip_spaces (show_int z)) ≡ some z
unfolding show_int
read_signed-show_int (pos n) h =
    ap read_signed (skip_spaces-digits (show_nat n) (show_nat-digits n))
    ∙ read_signed-digits (show_nat n) (show_nat-digits n)
    ∙ read_digits-value false (show_nat n) n (show_nat-ne-nil n) (digits_value-show_nat n)
    ∙ in_range-pos n h
read_signed-show_int (negsuc n) h =
    read_minus (show_nat (suc n))
    ∙ read_digits-value true (show_nat (suc n)) (suc n) (show_nat-ne-nil (suc n))
        (digits_value-show_nat (suc n))
    ∙ in_range-negsuc n h

-- What the text of a number starts with.
pub first_byte : (n : ℕ) → (c : ℕ) × (s : Bytes) × (show_nat n ≡ c ∷ s) × (is_digit c ≡ true)
first_byte n = go (show_nat n) (show_nat-ne-nil n) (show_nat-digits n)
  where
    go :
        (t : Bytes)
        → t ≢ []
        → all is_digit t ≡ true
        → (c : ℕ) × (s : Bytes) × (t ≡ c ∷ s) × (is_digit c ≡ true)
    go [] h k = absurd (h refl)
    go (c ∷ s) h k = (c, s, refl, ground arith)
