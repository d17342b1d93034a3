-- ===== src/AtfResult/Roundtrip.antt =====
-- `parse` reads back the results that a test program writes.
use kyua.Prelude.{
  ℕ, suc, ◌+◌, ◌-◌, ◌≡◌, refl, ap, ◌∙◌, true, false, Option, none, some, [], ◌∷◌, ◌++◌, arith, ltb,
  length, all, length-append, append_assoc, append-nil,
}
use kyua.Prelude.Bytes.{Bytes, bytes, str_eq, substr_to, lacks, pieces-append}
use kyua.Prelude.{take-append, drop-append}
use kyua.Prelude.Integer.{ℤ, show_int}
use kyua.Prelude.Results.{ok}
use kyua.Prelude.Integer.Decimal.{IsInt}
use kyua.Text.{to_type_int}
use kyua.Text.Number.{to_type_int-show_int}
use kyua.AtfResult.Show.{type_name}
use kyua.AtfResult.{
  Types, broken, expected_death, expected_exit, expected_failure, expected_signal, expected_timeout,
  failed, passed, skipped, AtfResult, parse, parse_lines, parse_line, status_of, dispatch,
  handler_of, parse_with_reason, parse_with_reason_and_arg, parse_without_reason, reason_type,
  arg_type, finish_arg, parse_arg, with_reason, with_arg, read_lines, read_lines_loop,
  is_status_byte, find_delim, find_close,
}
use kyua.AtfResult.Printed.{
  result_line, wants_reason, wants_argument, IsPrintable, succeeded, explained, ended, ended_with,
  lacks-show_int, lacks-result_line,
}

read_lines-line :
    (line : Bytes) → lacks b'\n' line ≡ true → read_lines (line ++ (b'\n' ∷ [])) ≡ (1, line)
unfolding read_lines read_lines_loop
read_lines-line line h = rw (pieces-append b'\n' line [] h) refl

-- The line of the file is what is parsed.
parse-line :
    (line : Bytes) → lacks b'\n' line ≡ true → parse (line ++ (b'\n' ∷ [])) ≡ parse_line line
unfolding parse parse_lines
parse-line line h = rw (read_lines-line line h) refl

status_of-append :
    (a : Bytes) (c : ℕ) (s : Bytes)
    → all is_status_byte a ≡ true
    → is_status_byte c ≡ false
    → status_of (a ++ (c ∷ s)) ≡ (a, c ∷ s)
unfolding status_of
status_of-append [] c s h k = ground arith
status_of-append (x ∷ a) c s h k = ground (arith, status_of-append a c s)

status_of_self : (a : Bytes) → all is_status_byte a ≡ true → status_of a ≡ (a, [])
unfolding status_of
status_of_self [] h = refl
status_of_self (x ∷ a) h = ground (arith, status_of_self a)

line_of :
    (t : Types) (c : ℕ) (s : Bytes)
    → is_status_byte c ≡ false
    → parse_line (type_name t ++ (c ∷ s))
      ≡ dispatch (handler_of (type_name t)) (type_name t) (c ∷ s)
unfolding parse_line
line_of t c s h = rw (status_of-append (type_name t) c s (named t) h) refl
  where
    named : (u : Types) → all is_status_byte (type_name u) ≡ true
    named u = unfold type_name in ground arith

handler-reason :
    (t : Types)
    → wants_reason t ≡ true
    → (handler_of (type_name t) ≡ with_reason) × (reason_type (type_name t) ≡ some t)
unfolding handler_of reason_type type_name str_eq
handler-reason broken h = (refl, refl)
handler-reason expected_death h = (refl, refl)
handler-reason expected_failure h = (refl, refl)
handler-reason expected_timeout h = (refl, refl)
handler-reason failed h = (refl, refl)
handler-reason skipped h = (refl, refl)
handler-reason passed h = cc
handler-reason expected_exit h = cc
handler-reason expected_signal h = cc

parse_with_reason-text :
    (status : Bytes) (t : Types) (c : ℕ) (r : Bytes)
    → reason_type status ≡ some t
    → parse_with_reason status (bytes ": " ++ (c ∷ r))
      ≡ ok (record { result_type = t; argument = none; reason = some (c ∷ r) })
unfolding parse_with_reason str_eq
parse_with_reason-text status t c r e =
    let enough : ltb (length (bytes ": " ++ (c ∷ r))) 3 ≡ false = ground arith in
    rw (enough, e) refl

find_close-append :
    (a r : Bytes) → lacks b')' a ≡ true → find_close (a ++ (b')' ∷ b':' ∷ r)) ≡ some (length a)
unfolding find_close
find_close-append [] r h = refl
find_close-append (c ∷ a) r h = ground (arith, find_close-append a r)

finish_arg-drop :
    (status a r : Bytes) (arg : Option ℤ) (t : Types)
    → arg_type status ≡ some t
    → finish_arg status (a ++ r) arg (length a)
      ≡ ok (record { result_type = t; argument = arg; reason = some r })
unfolding finish_arg
finish_arg-drop status a r arg t e =
    let enough : ltb (length (a ++ r)) (length a) ≡ false = ground (arith, length-append a r) in
    rw (enough, e, drop-append) refl

-- An argument in parentheses, where a colon and one more byte stand behind them.
parse_arg-found :
    (status a r : Bytes) (c : ℕ) (n : ℤ) (t : Types)
    → arg_type status ≡ some t
    → to_type_int a ≡ some n
    → parse_arg status (b'(' ∷ a ++ (b')' ∷ b':' ∷ c ∷ r)) 0 (some (suc (length a)))
      ≡ ok (record { result_type = t; argument = some n; reason = some r })
unfolding parse_arg
parse_arg-found status a r c n t e k =
    let count : suc (length a) - (0 + 1) ≡ length a = omega arith in
    let front = b'(' ∷ a ++ (b')' ∷ b':' ∷ c ∷ []) in
    let reach : suc (length a) + 1 + 2 ≡ length front =
      omega (arith, length-append a (b')' ∷ b':' ∷ c ∷ [])) in
    let whole : b'(' ∷ a ++ (b')' ∷ b':' ∷ c ∷ r) ≡ front ++ r = simp append_assoc in
    let text = b'(' ∷ a ++ (b')' ∷ b':' ∷ c ∷ r) in
    let argument : to_type_int (substr_to text (0 + 1) (some (suc (length a)))) ≡ some n =
      rw (count, take-append) k in
    rw (argument, parse_arg)
      (ap (finish_arg status (b'(' ∷ a ++ (b')' ∷ b':' ∷ c ∷ r)) (some n)) reach
        ∙ ap (λ x. finish_arg status x (some n) (length front)) whole
        ∙ finish_arg-drop status front r (some n) t e)

with_arg-text :
    (status r : Bytes) (n : ℤ) (t : Types)
    → arg_type status ≡ some t
    → IsInt n
    → parse_with_reason_and_arg status (b'(' ∷ show_int n ++ (bytes "): " ++ r))
      ≡ ok (record { result_type = t; argument = some n; reason = some r })
unfolding parse_with_reason_and_arg find_delim
with_arg-text status r n t e h =
    let at_front : 0 + suc (length (show_int n)) ≡ suc (length (show_int n)) = omega arith in
    rw
      (
        find_close-append (b'(' ∷ show_int n) (b' ' ∷ r) (lacks-show_int b')' n (omega arith)),
        at_front,
      )
      (parse_arg-found status (show_int n) r b' ' n t e (to_type_int-show_int n h))

no_arg-text :
    (status r : Bytes) (t : Types)
    → arg_type status ≡ some t
    → parse_with_reason_and_arg status (bytes ": " ++ r)
      ≡ ok (record { result_type = t; argument = none; reason = some r })
unfolding parse_with_reason_and_arg find_delim
no_arg-text status r t e = finish_arg-drop status (bytes ": ") r none t e

reason_line :
    (t : Types) (c : ℕ) (r : Bytes)
    → wants_reason t ≡ true
    → parse_line (type_name t ++ (bytes ": " ++ (c ∷ r)))
      ≡ ok (record { result_type = t; argument = none; reason = some (c ∷ r) })
reason_line t c r h =
    let (handler, kind) = handler-reason t h in
    line_of t b':' _ refl
    ∙ rw handler (unfold dispatch in parse_with_reason-text (type_name t) t c r kind)

handler-argument :
    (t : Types)
    → wants_argument t ≡ true
    → (handler_of (type_name t) ≡ with_arg) × (arg_type (type_name t) ≡ some t)
unfolding handler_of arg_type type_name str_eq
handler-argument expected_exit h = (refl, refl)
handler-argument expected_signal h = (refl, refl)
handler-argument broken h = cc
handler-argument expected_death h = cc
handler-argument expected_failure h = cc
handler-argument expected_timeout h = cc
handler-argument failed h = cc
handler-argument passed h = cc
handler-argument skipped h = cc

no_arg_line :
    (t : Types) (r : Bytes)
    → handler_of (type_name t) ≡ with_arg
    → arg_type (type_name t) ≡ some t
    → parse_line (type_name t ++ (bytes ": " ++ r))
      ≡ ok (record { result_type = t; argument = none; reason = some r })
unfolding dispatch
no_arg_line t r h k = line_of t b':' _ refl ∙ rw h (no_arg-text (type_name t) r t k)

with_arg_line :
    (t : Types) (n : ℤ) (r : Bytes)
    → handler_of (type_name t) ≡ with_arg
    → arg_type (type_name t) ≡ some t
    → IsInt n
    → parse_line (type_name t ++ (b'(' ∷ show_int n ++ (bytes "): " ++ r)))
      ≡ ok (record { result_type = t; argument = some n; reason = some r })
unfolding dispatch
with_arg_line t n r h k i = line_of t b'(' _ refl ∙ rw h (with_arg-text (type_name t) r n t k i)

passed_line :
    parse_line (type_name passed)
    ≡ ok (record { result_type = passed; argument = none; reason = none })
unfolding parse_line type_name status_of dispatch handler_of parse_without_reason str_eq
passed_line = refl

parse_line-result_line :
    (t : Types) (a : Option ℤ) (o : Option Bytes)
    → IsPrintable t a o
    → let r : AtfResult = record { result_type = t; argument = a; reason = o } in
      parse_line (result_line r) ≡ ok r
unfolding result_line
parse_line-result_line _ _ _ succeeded = ap parse_line (append-nil (type_name passed)) ∙ passed_line
parse_line-result_line _ _ _ (explained t c r k l) = reason_line t c r k
parse_line-result_line _ _ _ (ended t r k l) =
    let (handler, kind) = handler-argument t k in no_arg_line t r handler kind
parse_line-result_line _ _ _ (ended_with t n r k i l) =
    let (handler, kind) = handler-argument t k in
    ap (λ s. parse_line (type_name t ++ (b'(' ∷ s)))
      (append_assoc (show_int n) (bytes ")") (bytes ": " ++ r))
    ∙ with_arg_line t n r handler kind i

-- A file that holds the line of a printable result (`passed` alone, a type with a reason that is
-- not empty, or an expected exit or signal, with or without a number in parentheses that an int
-- holds), terminated by a newline, is parsed as that result.
pub parse-result_line :
    (t : Types) (a : Option ℤ) (o : Option Bytes)
    → IsPrintable t a o
    → let r : AtfResult = record { result_type = t; argument = a; reason = o } in
      parse (result_line r ++ (b'\n' ∷ [])) ≡ ok r
parse-result_line t a o h =
    parse-line _ (lacks-result_line t a o h) ∙ parse_line-result_line t a o h
