-- ===== src/Units.antt =====
-- utils/units.cpp: quantities of bytes.
use kyua.Prelude.{
  ℕ, ◌-◌, ◌||◌, Option, none, [], ◌∷◌, ◌++◌, ◌==◌, leb, if◌then◌else◌, length, take, any, is_empty,
}
use kyua.Prelude.Bytes.{Bytes, bytes}
use kyua.Prelude.Integer.{show_nat, is_space, skip_spaces}
use kyua.Text.{starts_with_space}

-- What the code does with floating-point numbers, parameters of the model: `read_scaled` is the
-- number that `to_type< double >` reads in a text, times a multiplier and truncated to 64 bits,
-- or none where the text is no number; `show_scaled` formats the quotient of a count by a unit
-- with "%.2s".
pub record Floats : Type 0 where
  pub read_scaled : Bytes → ℕ → Option ℕ
  pub show_scaled : ℕ → ℕ → Bytes

abbrev pub KB : ℕ
KB = 1024

abbrev pub MB : ℕ
MB = 1048576

abbrev pub GB : ℕ
GB = 1073741824

abbrev pub TB : ℕ
TB = 1099511627776

-- The multiplier of the last byte of a quantity.
unfoldable pub multiplier_of : ℕ → ℕ
multiplier_of unit =
    if (unit == b'T') || (unit == b't')
    then TB
    else if (unit == b'G') || (unit == b'g')
    then GB
    else if (unit == b'M') || (unit == b'm')
    then MB
    else if (unit == b'K') || (unit == b'k')
    then KB
    else 1

unfoldable pub last_byte : Bytes → ℕ
last_byte [] = 0
last_byte (c ∷ []) = c
last_byte (c ∷ d ∷ s) = last_byte (d ∷ s)

abbrev pub first_byte : Bytes → ℕ
first_byte [] = 0
first_byte (c ∷ s) = c

-- The text without its unit.
unfoldable pub without_unit : Bytes → Bytes
without_unit str = if multiplier_of (last_byte str) == 1 then str else take (length str - 1) str

-- `bytes::parse`; none is the `runtime_error`.
unfoldable pub parse : Floats → Bytes → Option ℕ
parse f in_str =
    let str = without_unit in_str in
    if is_empty in_str
    then none
    else if is_empty str
    then none
    else if (first_byte str == b'.') || (last_byte str == b'.')
    then none
    else f.read_scaled str (multiplier_of (last_byte in_str))

-- `bytes::format`.
unfoldable pub format : Floats → ℕ → Bytes
format f count =
    if leb TB count
    then f.show_scaled count TB ++ bytes "T"
    else if leb GB count
    then f.show_scaled count GB ++ bytes "G"
    else if leb MB count
    then f.show_scaled count MB ++ bytes "M"
    else if leb KB count
    then f.show_scaled count KB ++ bytes "K"
    else show_nat count

-- `to_type< units::bytes >`, by the operator>> of the class; none is the `value_error`.
unfoldable pub to_type_bytes : Floats → Bytes → Option ℕ
to_type_bytes f str =
    let word = skip_spaces str in
    if is_empty str
    then none
    else if starts_with_space str
    then none
    else if any is_space word
    then none
    else parse f word
