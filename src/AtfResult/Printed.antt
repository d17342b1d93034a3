-- ===== src/AtfResult/Printed.antt =====
-- The format of a results file: the line that a test program writes for a result.
use kyua.Prelude.{
  ℕ, suc, ◌<◌, ◌≡◌, refl, Bool, true, false, not, Option, none, some, [], ◌∷◌, ◌++◌, arith, ◌==◌,
  all, all-append,
}
use kyua.Prelude.Bytes.{Bytes, bytes, lacks}
use kyua.Prelude.Integer.{ℤ, show_int}
use kyua.Prelude.Integer.{is_digit, show_nat, show_nat-digits, pos, negsuc}
use kyua.Prelude.Integer.Decimal.{IsInt}
use kyua.AtfResult.Show.{type_name}
use kyua.AtfResult.{Types, expected_exit, expected_signal, passed, AtfResult}

abbrev reason_text : Option Bytes → Bytes
reason_text none = []
reason_text (some r) = bytes ": " ++ r

abbrev argument_text : Option ℤ → Bytes
argument_text none = []
argument_text (some n) = b'(' ∷ show_int n ++ bytes ")"

-- The line that a test program writes for a result.
unfoldable pub result_line : AtfResult → Bytes
result_line r = type_name r.result_type ++ (argument_text r.argument ++ reason_text r.reason)

-- The types that are written with a reason and no argument.
abbrev pub wants_reason : Types → Bool
wants_reason expected_exit = false
wants_reason expected_signal = false
wants_reason passed = false
wants_reason _ = true

-- The types that take an argument.
abbrev pub wants_argument : Types → Bool
wants_argument expected_exit = true
wants_argument expected_signal = true
wants_argument _ = false

-- The results that a test program can write on one line, with what each type wants.
pub data IsPrintable : Types → Option ℤ → Option Bytes → Type 0 where
  succeeded : IsPrintable passed none none
  explained :
      (t : Types) (c : ℕ) (r : Bytes)
      → wants_reason t ≡ true
      → lacks b'\n' (c ∷ r) ≡ true
      → IsPrintable t none (some (c ∷ r))
  ended :
      (t : Types) (r : Bytes)
      → wants_argument t ≡ true
      → lacks b'\n' r ≡ true
      → IsPrintable t none (some r)
  ended_with :
      (t : Types) (n : ℤ) (r : Bytes)
      → wants_argument t ≡ true
      → IsInt n
      → lacks b'\n' r ≡ true
      → IsPrintable t (some n) (some r)

lacks-digits : (d : ℕ) (s : Bytes) → d < 45 → all is_digit s ≡ true → lacks d s ≡ true
lacks-digits d [] k h = refl
lacks-digits d (c ∷ s) k h = ground (arith, lacks-digits d s)

pub lacks-show_int : (d : ℕ) (z : ℤ) → d < 45 → lacks d (show_int z) ≡ true
unfolding show_int
lacks-show_int d (pos n) k = lacks-digits d (show_nat n) k (show_nat-digits n)
lacks-show_int d (negsuc n) k =
    let digits = lacks-digits d (show_nat (suc n)) k (show_nat-digits (suc n)) in ground arith

lacks-type_name : (t : Types) → lacks b'\n' (type_name t) ≡ true
unfolding type_name
lacks-type_name t = ground arith

lacks-append : (d : ℕ) (a b : Bytes) → lacks d a ≡ true → lacks d b ≡ true → lacks d (a ++ b) ≡ true
lacks-append d a b h k = rw (all-append (λ x. not (x == d)) a b, h, k) refl

pub lacks-result_line :
    (t : Types) (a : Option ℤ) (o : Option Bytes)
    → IsPrintable t a o
    → let r : AtfResult = record { result_type = t; argument = a; reason = o } in
      lacks b'\n' (result_line r) ≡ true
unfolding result_line
lacks-result_line _ _ _ succeeded =
    lacks-append b'\n' (type_name passed) [] (lacks-type_name passed) refl
lacks-result_line _ _ _ (explained t c r k l) =
    lacks-append b'\n' (type_name t) _ (lacks-type_name t) l
lacks-result_line _ _ _ (ended t r k l) = lacks-append b'\n' (type_name t) _ (lacks-type_name t) l
lacks-result_line _ _ _ (ended_with t n r k i l) =
    let number =
      lacks-append b'\n' (show_int n) (bytes ")") (lacks-show_int b'\n' n (omega arith)) refl in
    lacks-append b'\n' (type_name t) _ (lacks-type_name t)
      (lacks-append b'\n' (b'(' ∷ show_int n ++ bytes ")") _ number l)
