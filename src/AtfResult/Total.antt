-- ===== src/AtfResult/Total.antt =====
-- `calculate_atf_result` returns a result, but for one exception.
use kyua.Prelude.{
  ℕ, ◌+◌, ◌≡◌, ◌≢◌, ◌⊎◌, inl, inr, refl, Bool, true, false, Option, none, some, [], arith, ◌==◌,
  ltb, drop, Option-cases, Bool-cases,
}
use kyua.Prelude.Bytes.{Bytes, substr_to}
use kyua.Prelude.Integer.{ℤ}
use kyua.Prelude.Results.{ok, err}
use kyua.Status.{Status, exited, signaled}
use kyua.TestResult.{TestResult, TestResultType}
use kyua.Text.{to_type_int}
use kyua.AtfResult.{
  find_delim, opens, with_reason, Types, broken, expected_death, expected_exit, expected_failure,
  expected_signal, expected_timeout, failed, passed, skipped, AtfResult, format_error,
  runtime_error, out_of_range, unexpected_status, Parsed, load, parse, parse_lines, parse_line,
  status_of, dispatch, handler_of, parse_with_reason, parse_with_reason_and_arg,
  parse_without_reason, reason_type, arg_type, finish_arg, parse_arg, Handler, with_arg,
  without_reason, unknown, read_lines,
}
use kyua.AtfResult.Apply.{
  expect_code, check_argument, apply_status, apply, externalize, externalize_at, externalize_type,
  handle, calculate_atf_result,
}

-- A reason is given, or the type wants none.
abbrev pub has_reason : Types → Option Bytes → Bool
has_reason passed o = true
has_reason t (some r) = true
has_reason t none = false

abbrev pub IsWhole : AtfResult → Type 0
IsWhole r = has_reason r.result_type r.reason ≡ true

has_reason-some : (t : Types) (r : Bytes) → has_reason t (some r) ≡ true
has_reason-some t r = ground arith

-- The outcomes of a parse: a whole result, or an error other than a failed precondition.
abbrev IsParsed : Parsed → Type 0
IsParsed (ok r) = IsWhole r
IsParsed (err e) = e ≢ unexpected_status

finish_arg-IsParsed :
    (status rest : Bytes) (arg : Option ℤ) (start : ℕ)
    → arg_type status ≢ none
    → IsParsed (finish_arg status rest arg start)
unfolding finish_arg
finish_arg-IsParsed status rest arg start h = ground arith

parse_arg-IsParsed :
    (status rest : Bytes) (delim : ℕ) (delim2 : Option ℕ)
    → arg_type status ≢ none
    → IsParsed (parse_arg status rest delim delim2)
unfolding parse_arg
parse_arg-IsParsed status rest delim delim2 h =
    elim (Option-cases (to_type_int (substr_to rest (delim + 1) delim2))) [
      | inl e ↦ rw (e, parse_arg) (λ k. cc)
      | inr (a, e) ↦ rw (e, parse_arg) (finish_arg-IsParsed status rest (some a) _ h)
    ]

parse_with_reason_and_arg-IsParsed :
    (status rest : Bytes)
    → arg_type status ≢ none
    → IsParsed (parse_with_reason_and_arg status rest)
unfolding parse_with_reason_and_arg
parse_with_reason_and_arg-IsParsed status rest h = elim (Option-cases (find_delim rest)) [
  | inl e ↦ rw (e, parse_with_reason_and_arg) (λ k. cc)
  | inr (delim, e) ↦ elim (Bool-cases (opens (drop delim rest))) [
    | inl k ↦ rw (e, parse_with_reason_and_arg, k) (parse_arg-IsParsed status rest delim _ h)
    | inr k ↦ rw (e, parse_with_reason_and_arg, k) (finish_arg-IsParsed status rest none _ h)
  ]
]

parse_with_reason-IsParsed :
    (status rest : Bytes) → reason_type status ≢ none → IsParsed (parse_with_reason status rest)
unfolding parse_with_reason
parse_with_reason-IsParsed status rest h = ground arith

handler_types :
    (status : Bytes)
    → (handler_of status ≡ with_reason → reason_type status ≢ none)
      × (handler_of status ≡ with_arg → arg_type status ≢ none)
unfolding handler_of reason_type arg_type
handler_types status = (λ h. ground arith, λ h. ground arith)

dispatch-IsParsed :
    (h : Handler) (status rest : Bytes) → handler_of status ≡ h → IsParsed (dispatch h status rest)
unfolding dispatch parse_without_reason
dispatch-IsParsed with_reason status rest e =
    parse_with_reason-IsParsed status rest ((handler_types status).0 e)
dispatch-IsParsed with_arg status rest e =
    parse_with_reason_and_arg-IsParsed status rest ((handler_types status).1 e)
dispatch-IsParsed without_reason status rest e = ground arith
dispatch-IsParsed unknown status rest e = λ k. cc

parse_lines-IsParsed : (count : ℕ) (contents : Bytes) → IsParsed (parse_lines (count, contents))
unfolding parse_lines parse_line
parse_lines-IsParsed count contents = elim (Bool-cases (count == 0)) [
  | inl e ↦ rw e (λ k. cc)
  | inr e ↦ elim (Bool-cases (ltb 1 count)) [
    | inl k ↦ rw (e, k) (λ k. cc)
    | inr k ↦ rw (e, k) (dispatch-IsParsed _ (status_of contents).0 (status_of contents).1 refl)
  ]
]

load-IsParsed : (file : Option Bytes) → IsParsed (load file)
unfolding load parse
load-IsParsed none = λ k. cc
load-IsParsed (some input) = parse_lines-IsParsed (read_lines input).0 (read_lines input).1

check_argument-IsWhole :
    (r : AtfResult) (o : Option ℤ) (a b : Bytes) → IsWhole r → IsWhole (check_argument r o a b)
unfolding check_argument
check_argument-IsWhole r o a b h = ground arith

expect_code-IsWhole :
    (r : AtfResult) (s : Status) (code : ℤ) (m : Bytes)
    → IsWhole r
    → IsWhole (expect_code r s code m)
unfolding expect_code
expect_code-IsWhole r s code m h = ground arith

apply_status-IsWhole :
    (t : Types) (r : AtfResult) (s : Status) → IsWhole r → IsWhole (apply_status t r s)
unfolding apply_status
apply_status-IsWhole expected_exit r s h = elim (Bool-cases (exited s)) [
  | inl e ↦ rw e (check_argument-IsWhole r _ _ _ h)
  | inr e ↦ rw e refl
]
apply_status-IsWhole expected_signal r s h = elim (Bool-cases (signaled s)) [
  | inl e ↦ rw e (check_argument-IsWhole r _ _ _ h)
  | inr e ↦ rw e refl
]
apply_status-IsWhole expected_failure r s h = expect_code-IsWhole r s _ _ h
apply_status-IsWhole failed r s h = expect_code-IsWhole r s _ _ h
apply_status-IsWhole passed r s h = expect_code-IsWhole r s _ _ h
apply_status-IsWhole skipped r s h = expect_code-IsWhole r s _ _ h
apply_status-IsWhole expected_timeout r s h = refl
apply_status-IsWhole broken r s h = h
apply_status-IsWhole expected_death r s h = h

apply-IsWhole : (r : AtfResult) (status : Option Status) → IsWhole r → IsWhole (apply r status)
unfolding apply
apply-IsWhole r (some s) h = apply_status-IsWhole r.result_type r s h
apply-IsWhole r none h = ground arith

externalize_at-some :
    (t : Types) (o : Option Bytes)
    → has_reason t o ≡ true
    → (x : TestResult) × (externalize_at t o ≡ some x) × (x.result_type ≡ externalize_type t)
unfolding externalize_at
externalize_at-some passed o h =
    (record { result_type = TestResultType.passed; reason = [] }, refl, refl)
externalize_at-some t (some reason) h =
    (record { result_type = externalize_type t; reason = reason }, refl, refl)
externalize_at-some t none h = cc

externalize-some :
    (r : AtfResult)
    → IsWhole r
    → (x : TestResult) × (externalize r ≡ some x) × (x.result_type ≡ externalize_type r.result_type)
unfolding externalize
externalize-some r h = externalize_at-some r.result_type r.reason h

handle-IsWhole :
    (p : Parsed) (status : Option Status)
    → IsParsed p
    → ((r : AtfResult) × (handle p status ≡ ok r) × IsWhole r)
      ⊎ ((p ≡ err out_of_range) × (handle p status ≡ err out_of_range))
unfolding handle
handle-IsWhole (ok r) status h = inl (r, refl, h)
handle-IsWhole (err (format_error what)) (some s) h = inl (_, refl, refl)
handle-IsWhole (err (format_error what)) none h = inl (_, refl, refl)
handle-IsWhole (err (runtime_error what)) (some s) h = inl (_, refl, refl)
handle-IsWhole (err (runtime_error what)) none h = inl (_, refl, refl)
handle-IsWhole (err out_of_range) status h = inr (refl, refl)
handle-IsWhole (err unexpected_status) status h = absurd (h refl)

-- `calculate_atf_result` returns a result for every status and every file, except that the
-- `std::out_of_range` of a parse is not handled; no precondition fails.
pub calculate_atf_result_total :
    (status : Option Status) (file : Option Bytes)
    → ((x : TestResult) × (calculate_atf_result status file ≡ ok (some x)))
      ⊎ ((load file ≡ err out_of_range) × (calculate_atf_result status file ≡ err out_of_range))
unfolding calculate_atf_result
calculate_atf_result_total status file =
    elim (handle-IsWhole (load file) status (load-IsParsed file)) [
      | inl (r, e, h) ↦
          let (x, made, _) = externalize-some (apply r status) (apply-IsWhole r status h) in
          inl (x, rw (e, made) refl)
      | inr (e, k) ↦ inr (e, rw k refl)
    ]
