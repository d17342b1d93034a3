-- ===== src/Text.antt =====
-- utils/text/operations.cpp and utils/text/operations.ipp. A loop over positions is a recursion on
-- fuel; each round moves past at least one byte, so the length of the text is enough fuel.
pub mod Split
pub mod Quote
pub mod Xml
pub mod Number
pub mod Refill
use kyua.Prelude.{
  ℕ, zero, suc, ◌+◌, ◌-◌, Bool, true, false, ◌&&◌, ◌||◌, Option, none, some, List, [], ◌∷◌, ◌++◌,
  ◌==◌, ltb, leb, if◌then◌else◌, length, drop, is_empty,
}
use kyua.Prelude.Bytes.{Bytes, bytes, str_eq, find, find_from, substr, substr_to}
use kyua.Prelude.Integer.{ℤ, show_nat, skip_spaces, read_signed, read_unsigned, read_unsigned_int}

abbrev within : ℕ → ℕ → ℕ → Bool
within lo hi c = leb lo c && leb c hi

-- The RestrictedChar ranges of `escape_xml`.
unfoldable pub is_restricted : ℕ → Bool
is_restricted c =
    within 0x01 0x08 c
    || within 0x0B 0x0C c
    || within 0x0E 0x1F c
    || within 0x7F 0x84 c
    || within 0x86 0x9F c

-- `static_cast< std::string::size_type >(*it)`: `char` is signed, so a byte from 0x80 on is
-- extended to a 64-bit number by its sign.
unfoldable pub sign_extended : ℕ → ℕ
sign_extended c = if ltb c 0x80 then c else 0xFFFFFFFFFFFFFF00 + c

-- What one round of the loop of `escape_xml` writes.
unfoldable pub escape_byte : ℕ → Bytes
unfolding is_restricted
escape_byte c =
    if c == b'"'
    then bytes "&quot;"
    else if c == b'&'
    then bytes "&amp;"
    else if c == b'<'
    then bytes "&lt;"
    else if c == b'>'
    then bytes "&gt;"
    else if c == b'\''
    then bytes "&apos;"
    else if is_restricted c
    then bytes "&amp;#" ++ (show_nat (sign_extended c) ++ (b';' ∷ []))
    else c ∷ []

unfoldable pub escape_xml : Bytes → Bytes
unfolding escape_byte
escape_xml [] = []
escape_xml (c ∷ s) = escape_byte c ++ escape_xml s

-- The loop of `quote`, at `start_pos` and `last_pos`.
unfoldable pub quote_loop : ℕ → ℕ → Bytes → ℕ → Option ℕ → Bytes → Bytes
quote_loop fuel q text start_pos none quoted = quoted ++ drop start_pos text
quote_loop zero q text start_pos (some last_pos) quoted = quoted
quote_loop (suc fuel) q text start_pos (some last_pos) quoted =
    quote_loop fuel q text last_pos (find_from q text (last_pos + 1))
      (quoted ++ (substr text start_pos (last_pos - start_pos) ++ (b'\\' ∷ [])))

unfoldable pub quote : Bytes → ℕ → Bytes
unfolding quote_loop
quote text q = quote_loop (length text) q text 0 (find_from q text 0) (q ∷ []) ++ (q ∷ [])

-- The loop of `split`, at `pos`.
unfoldable pub split_loop : ℕ → ℕ → Bytes → Option ℕ → List Bytes → List Bytes
split_loop fuel delimiter str none words = words
split_loop zero delimiter str (some pos) words = words
split_loop (suc fuel) delimiter str (some pos) words =
    let next = find_from delimiter str (pos + 1) in
    split_loop fuel delimiter str next (words ++ (substr_to str (pos + 1) next ∷ []))

unfoldable pub split : Bytes → ℕ → List Bytes
unfolding split_loop
split str delimiter =
    if is_empty str
    then []
    else split_loop (length str) delimiter str (find_from delimiter str 0)
        (substr_to str 0 (find_from delimiter str 0) ∷ [])

-- The loop of `join`: each string but the last with the delimiter behind it, then the last.
unfoldable pub join : List Bytes → Bytes → Bytes
join [] delimiter = []
join (s ∷ []) delimiter = s
join (s ∷ t ∷ rest) delimiter = s ++ (delimiter ++ join (t ∷ rest) delimiter)

-- `to_type< bool >`; `none` is the `value_error`.
unfoldable pub to_type_bool : Bytes → Option Bool
unfolding str_eq
to_type_bool str =
    if str_eq str (bytes "true")
    then some true
    else if str_eq str (bytes "false")
    then some false
    else none

abbrev pub starts_with_space : Bytes → Bool
starts_with_space [] = false
starts_with_space (c ∷ s) = c == b' '

-- `to_type< int >`; `none` is the `value_error`.
unfoldable pub to_type_int : Bytes → Option ℤ
to_type_int str =
    if is_empty str
    then none
    else if starts_with_space str
    then none
    else read_signed (skip_spaces str)

-- `to_type< unsigned int >`; `none` is the `value_error`.
unfoldable pub to_type_unsigned : Bytes → Option ℕ
unfolding read_unsigned_int
to_type_unsigned str =
    if is_empty str
    then none
    else if starts_with_space str
    then none
    else read_unsigned_int (skip_spaces str)

-- `to_type< std::size_t >`; `none` is the `value_error`.
unfoldable pub to_type_size : Bytes → Option ℕ
unfolding read_unsigned
to_type_size str =
    if is_empty str
    then none
    else if starts_with_space str
    then none
    else read_unsigned (skip_spaces str)
