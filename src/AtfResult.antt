-- ===== src/AtfResult.antt =====
-- engine/atf_result.cpp: the results file of an ATF test case, and the result that a user sees.
pub mod Printed
pub mod Roundtrip
pub mod Show
pub mod Apply
pub mod Total
pub mod Confirm
use kyua.Prelude.{
  ℕ, suc, ◌+◌, ◌-◌, ◌<◌, Bool, true, false, not, ◌&&◌, ◌||◌, Option, none, some, List, [], ◌∷◌,
  ◌++◌, ◌==◌, ltb, leb, if◌then◌else◌, length, take, drop, is_empty, all,
}
use kyua.Prelude.Bytes.{Bytes, bytes, str_eq, find, substr, substr_to, pieces, at}
use kyua.Prelude.Integer.{ℤ}
use kyua.Prelude.Results.{Result, ok, err}
use kyua.Text.{to_type_int}

pub data Types : Type 0 where
  broken expected_death expected_exit expected_failure expected_signal : Types
  expected_timeout failed passed skipped : Types

pub record AtfResult : Type 0 where
  pub result_type : Types
  pub argument : Option ℤ
  pub reason : Option Bytes

-- What leaves `parse` or `load` other than by a return. `out_of_range` is the `std::out_of_range`
-- of `substr`, which is no `std::runtime_error`; `unexpected_status` is a failed PRE_MSG.
pub data AtfError : Type 0 where
  format_error : Bytes → AtfError
  runtime_error : Bytes → AtfError
  out_of_range : AtfError
  unexpected_status : AtfError

abbrev pub Parsed : Type 0
Parsed = Result AtfError AtfResult

abbrev pub newline_mark : Bytes
newline_mark = bytes "<<NEWLINE>>"

-- The loop of `read_lines`. `getline` takes the text up to each newline; what stands behind the
-- last newline is read at the end of the file.
unfoldable pub read_lines_loop : ℕ → Bytes → List Bytes → ℕ × Bytes
read_lines_loop count contents [] = (count, contents)
read_lines_loop count contents (line ∷ []) =
    if is_empty line
    then (count, contents)
    else if count == 0
    then (count, line)
    else (count + 1, contents ++ (newline_mark ++ line))
read_lines_loop count contents (line ∷ next ∷ lines) =
    read_lines_loop (count + 1) (if count == 0 then line else contents ++ (newline_mark ++ line))
      (next ∷ lines)

unfoldable pub read_lines : Bytes → ℕ × Bytes
unfolding read_lines_loop
read_lines input = read_lines_loop 0 [] (pieces b'\n' input)

unfoldable pub parse_without_reason : Bytes → Bytes → Parsed
parse_without_reason status rest =
    if not (is_empty rest)
    then err (format_error (status ++ bytes " cannot have a reason"))
    else ok (record { result_type = passed; argument = none; reason = none })

-- The chain of tests at the end of `parse_with_reason`.
unfoldable pub reason_type : Bytes → Option Types
reason_type status =
    if str_eq status (bytes "broken")
    then some broken
    else if str_eq status (bytes "expected_death")
    then some expected_death
    else if str_eq status (bytes "expected_failure")
    then some expected_failure
    else if str_eq status (bytes "expected_timeout")
    then some expected_timeout
    else if str_eq status (bytes "failed")
    then some failed
    else if str_eq status (bytes "skipped")
    then some skipped
    else none

unfoldable pub parse_with_reason : Bytes → Bytes → Parsed
parse_with_reason status rest =
    if ltb (length rest) 3 || not (str_eq (take 2 rest) (bytes ": "))
    then err (format_error (status ++ bytes " must be followed by ': <reason>'"))
    else elim (reason_type status) [
      | none ↦ err unexpected_status
      | some t ↦ ok (record { result_type = t; argument = none; reason = some (drop 2 rest) })
    ]

-- `rest.find_first_of(":(")`.
unfoldable pub find_delim : Bytes → Option ℕ
find_delim [] = none
find_delim (c ∷ s) =
    let rest = find_delim s in
    if c == b':' || c == b'(' then some 0 else elim rest [ none ↦ none | some n ↦ some (suc n) ]

abbrev starts_with_colon : Bytes → Bool
starts_with_colon [] = false
starts_with_colon (c ∷ s) = c == b':'

-- `s.find("):")`.
unfoldable pub find_close : Bytes → Option ℕ
find_close [] = none
find_close (c ∷ s) =
    let rest = find_close s in
    if c == b')' && starts_with_colon s
    then some 0
    else elim rest [ none ↦ none | some n ↦ some (suc n) ]

unfoldable pub arg_type : Bytes → Option Types
arg_type status =
    if str_eq status (bytes "expected_exit")
    then some expected_exit
    else if str_eq status (bytes "expected_signal")
    then some expected_signal
    else none

-- `rest.substr(pos)` and the end of `parse_with_reason_and_arg`.
unfoldable pub finish_arg : Bytes → Bytes → Option ℤ → ℕ → Parsed
finish_arg status rest arg start =
    if ltb (length rest) start then err out_of_range else elim (arg_type status) [
      | none ↦ err unexpected_status
      | some t ↦ ok (record { result_type = t; argument = arg; reason = some (drop start rest) })
    ]

-- The block at an opening parenthesis, at `delim2`. The test of the source for a missing "):"
-- reads `delim`, which is a position there: the text up to the end is the argument then, and
-- `delim2 + 1` is `npos + 1`, 0.
unfoldable pub parse_arg : Bytes → Bytes → ℕ → Option ℕ → Parsed
parse_arg status rest delim delim2 =
    let argstr = substr_to rest (delim + 1) delim2 in
    let next : ℕ = elim delim2 [ none ↦ 0 | some n ↦ n + 1 ] in
    elim (to_type_int argstr) [
      | none ↦ err (
          format_error (
            bytes "Invalid integer argument '"
            ++ (argstr ++ (bytes "' to '" ++ (status ++ bytes "' test case result")))))
      | some arg ↦ finish_arg status rest (some arg) (next + 2)
    ]

abbrev pub shift : ℕ → Option ℕ → Option ℕ
shift n none = none
shift n (some k) = some (n + k)

abbrev pub opens : Bytes → Bool
opens [] = false
opens (c ∷ s) = c == b'('

unfoldable pub parse_with_reason_and_arg : Bytes → Bytes → Parsed
parse_with_reason_and_arg status rest = elim (find_delim rest) [
  | none ↦ err (
      format_error (
        bytes "Invalid format for '"
        ++ (status
            ++ (bytes "' test case result; must be followed by '[(num)]: <reason>' but found '"
                ++ (rest ++ bytes "'")))))
  | some delim ↦
      if opens (drop delim rest)
      then parse_arg status rest delim (shift delim (find_close (drop delim rest)))
      else finish_arg status rest none (delim + 2)
]

-- A byte of "abcdefghijklmnopqrstuvwxyz_".
abbrev pub is_status_byte : ℕ → Bool
is_status_byte c = (leb b'a' c && leb c b'z') || c == b'_'

-- `data.second.substr(0, delim)` at the first other byte, and what stands behind it.
unfoldable pub status_of : Bytes → Bytes × Bytes
status_of [] = ([], [])
status_of (c ∷ s) =
    let (status, rest) = status_of s in if is_status_byte c then (c ∷ status, rest) else ([], c ∷ s)

-- Whether a status name stands in the chain of `parse`, and the function that it calls.
pub data Handler : Type 0 where
  with_reason with_arg without_reason unknown : Handler

unfoldable pub handler_of : Bytes → Handler
handler_of status =
    if str_eq status (bytes "broken")
    then with_reason
    else if str_eq status (bytes "expected_death")
    then with_reason
    else if str_eq status (bytes "expected_exit")
    then with_arg
    else if str_eq status (bytes "expected_failure")
    then with_reason
    else if str_eq status (bytes "expected_signal")
    then with_arg
    else if str_eq status (bytes "expected_timeout")
    then with_reason
    else if str_eq status (bytes "failed")
    then with_reason
    else if str_eq status (bytes "passed")
    then without_reason
    else if str_eq status (bytes "skipped")
    then with_reason
    else unknown

unfoldable pub dispatch : Handler → Bytes → Bytes → Parsed
dispatch with_reason status rest = parse_with_reason status rest
dispatch with_arg status rest = parse_with_reason_and_arg status rest
dispatch without_reason status rest = parse_without_reason status rest
dispatch unknown status rest =
    err (format_error (bytes "Unknown test result '" ++ (status ++ bytes "'")))

abbrev dispatch_line : Bytes × Bytes → Parsed
dispatch_line (status, rest) = dispatch (handler_of status) status rest

unfoldable pub parse_line : Bytes → Parsed
parse_line line = dispatch_line (status_of line)

unfoldable pub parse_lines : ℕ × Bytes → Parsed
parse_lines (count, contents) =
    if count == 0
    then err (format_error (bytes "Empty test result or no new line"))
    else if ltb 1 count
    then err (format_error (bytes "Test result contains multiple lines: " ++ contents))
    else parse_line contents

unfoldable pub parse : Bytes → Parsed
parse input = parse_lines (read_lines input)

-- `load`; the file's text is the caller's, or none if it cannot be opened.
unfoldable pub load : Option Bytes → Parsed
load none = err (runtime_error (bytes "Cannot open results file"))
load (some input) = parse input

unfoldable pub good : Types → Bool
good expected_death = true
good expected_exit = true
good expected_failure = true
good expected_signal = true
good expected_timeout = true
good passed = true
good skipped = true
good broken = false
good failed = false
