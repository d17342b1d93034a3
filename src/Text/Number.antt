-- ===== src/Text/Number.antt =====
-- `to_type< int >` on the decimal text of a number.
use kyua.Prelude.{ℕ, suc, ◌≡◌, refl, ◌∙◌, true, false, ◌∷◌, some, arith}
use kyua.Prelude.Bytes.{Bytes}
use kyua.Prelude.Integer.{ℤ, pos, negsuc, show_nat, show_int, is_digit, read_signed, skip_spaces}
use kyua.Prelude.Integer.Decimal.{IsInt, read_signed-show_int, first_byte}
use kyua.Text.{to_type_int, starts_with_space}

-- Text that does not begin with a space goes to the stream.
to_type_int-cons :
    (c : ℕ) (s : Bytes)
    → starts_with_space (c ∷ s) ≡ false
    → to_type_int (c ∷ s) ≡ read_signed (skip_spaces (c ∷ s))
unfolding to_type_int
to_type_int-cons c s h = rw h refl

to_type_int-digit :
    (c : ℕ) (s t : Bytes)
    → t ≡ c ∷ s
    → is_digit c ≡ true
    → to_type_int t ≡ read_signed (skip_spaces t)
to_type_int-digit c s t e h = rw e (to_type_int-cons c s (ground arith))

-- An `int` of 32 bits is read back from its decimal text.
pub to_type_int-show_int : (z : ℤ) → IsInt z → to_type_int (show_int z) ≡ some z
to_type_int-show_int (pos n) h =
    unfold show_int in
    let (c, s, e, d) = first_byte n in
    to_type_int-digit c s (show_nat n) e d ∙ read_signed-show_int (pos n) h
to_type_int-show_int (negsuc n) h =
    unfold show_int in
    to_type_int-cons b'-' (show_nat (suc n)) refl ∙ read_signed-show_int (negsuc n) h
