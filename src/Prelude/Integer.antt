-- ===== src/Prelude/Integer.antt =====
-- Integers over the native numbers, and their decimal text.
pub mod Decimal
use Prim.Native.Nat.{ℕ, zero, suc, ◌+◌, ◌-◌, ◌*◌, ◌/◌, ◌%◌, ◌<◌}
use mathlib.Core.Path.{◌≡◌, refl}
use mathlib.Core.Logic.{◌↔◌}
use mathlib.Core.Bool.{Bool, true, false, ◌&&◌, ◌||◌}
use mathlib.Core.List.{[], ◌∷◌}
use mathlib.Core.Option.{Option, none, some}
use native.Mathlib.Omega.{arith}
use kyua.Prelude.Bytes.{Bytes}
use kyua.Prelude.Lists.{all}
use kyua.Prelude.Tests.{◌==◌, ltb, leb, if◌then◌else◌}

-- `negsuc n` is -(n + 1).
pub data ℤ : Type 0 where
  pos : ℕ → ℤ
  negsuc : ℕ → ℤ

abbrev pub int_eq : ℤ → ℤ → Bool
int_eq (pos a) (pos b) = a == b
int_eq (negsuc a) (negsuc b) = a == b
int_eq _ _ = false

pub int_eq_iff : (a b : ℤ) → (int_eq a b ≡ true) ↔ (a ≡ b)
int_eq_iff (pos a) (pos b) = ground arith
int_eq_iff (negsuc a) (negsuc b) = ground arith
int_eq_iff (pos a) (negsuc b) = ground arith
int_eq_iff (negsuc a) (pos b) = ground arith

abbrev pub is_digit : ℕ → Bool
is_digit c = leb b'0' c && leb c b'9'

-- The decimal digits of a number in front of `rest`; the fuel `n` is enough, since n / 10 < n.
pub show_digits : ℕ → ℕ → Bytes → Bytes
show_digits zero n rest = (b'0' + n % 10) ∷ rest
show_digits (suc fuel) n rest =
    let more = show_digits fuel (n / 10) ((b'0' + n % 10) ∷ rest) in
    if ltb n 10 then (b'0' + n) ∷ rest else more

unfoldable pub show_nat : ℕ → Bytes
show_nat n = show_digits n n []

unfoldable pub show_int : ℤ → Bytes
show_int (pos n) = show_nat n
show_int (negsuc n) = b'-' ∷ show_nat (suc n)

show_digits-digits :
    (fuel n : ℕ) (rest : Bytes)
    → all is_digit rest ≡ true
    → all is_digit (show_digits fuel n rest) ≡ true
unfolding show_digits
show_digits-digits zero n rest h = ground arith
show_digits-digits (suc fuel) n rest h =
    ground (arith, show_digits-digits fuel (n / 10) ((b'0' + n % 10) ∷ rest))

pub show_nat-digits : (n : ℕ) → all is_digit (show_nat n) ≡ true
unfolding show_nat
show_nat-digits n = show_digits-digits n n [] refl

-- `isspace` in the "C" locale.
abbrev pub is_space : ℕ → Bool
is_space c = c == b' ' || (leb 9 c && leb c 13)

abbrev pub skip_spaces : Bytes → Bytes
skip_spaces [] = []
skip_spaces (c ∷ s) = let rest = skip_spaces s in if is_space c then rest else c ∷ s

-- The value of some digits behind those read; `none` if a byte is no digit.
unfoldable pub digits_value : ℕ → Bytes → Option ℕ
digits_value acc [] = some acc
digits_value acc (c ∷ s) =
    let rest = digits_value (acc * 10 + (c - b'0')) s in if is_digit c then rest else none

abbrev pub in_range : Bool → ℕ → Option ℤ
in_range false n = if ltb n 0x80000000 then some (pos n) else none
in_range true zero = some (pos 0)
in_range true (suc n) = if ltb n 0x80000000 then some (negsuc n) else none

-- At least one digit, and nothing else up to the end.
unfoldable pub read_digits : Bool → Bytes → Option ℤ
read_digits minus [] = none
read_digits minus (c ∷ s) = elim (digits_value 0 (c ∷ s)) [
  | none ↦ none
  | some n ↦ in_range minus n
]

-- `stream >> value` for an `int` of 32 bits, where the whole text is read.
unfoldable pub read_signed : Bytes → Option ℤ
read_signed [] = none
read_signed (c ∷ s) =
    if c == b'-'
    then read_digits true s
    else if c == b'+'
    then read_digits false s
    else read_digits false (c ∷ s)

-- The values of a size_t of 64 bits.
abbrev pub size_mod : ℕ
size_mod = 18446744073709551616

abbrev pub size_in_range : Bool → ℕ → Option ℕ
size_in_range minus n =
    if ltb n size_mod then some (if minus then (size_mod - n) % size_mod else n) else none

unfoldable pub read_size_digits : Bool → Bytes → Option ℕ
unfolding digits_value
read_size_digits minus [] = none
read_size_digits minus (c ∷ s) = elim (digits_value 0 (c ∷ s)) [
  | none ↦ none
  | some n ↦ size_in_range minus n
]

-- `stream >> value` for a size_t, where the whole text is read; a sign negates modulo 2^64.
unfoldable pub read_unsigned : Bytes → Option ℕ
unfolding read_size_digits
read_unsigned [] = none
read_unsigned (c ∷ s) =
    if c == b'-'
    then read_size_digits true s
    else if c == b'+'
    then read_size_digits false s
    else read_size_digits false (c ∷ s)

-- The same for an unsigned int of 32 bits.
abbrev pub unsigned_in_range : Bool → ℕ → Option ℕ
unsigned_in_range minus n =
    if ltb n 4294967296 then some (if minus then (4294967296 - n) % 4294967296 else n) else none

unfoldable pub read_unsigned_digits : Bool → Bytes → Option ℕ
unfolding digits_value
read_unsigned_digits minus [] = none
read_unsigned_digits minus (c ∷ s) = elim (digits_value 0 (c ∷ s)) [
  | none ↦ none
  | some n ↦ unsigned_in_range minus n
]

unfoldable pub read_unsigned_int : Bytes → Option ℕ
unfolding read_unsigned_digits
read_unsigned_int [] = none
read_unsigned_int (c ∷ s) =
    if c == b'-'
    then read_unsigned_digits true s
    else if c == b'+'
    then read_unsigned_digits false s
    else read_unsigned_digits false (c ∷ s)
