-- ===== src/GoogletestResult/Confirm.antt =====
-- `calculate_googletest_result`: when it returns, and when its result is good.
use kyua.Prelude.{
  ◌≡◌, ◌↔◌, ◌⊎◌, inl, inr, refl, sym, ap, ◌∙◌, Bool, true, false, Option, none, some, [], arith,
  Option-cases, Bool-cases,
}
use kyua.Prelude.Bytes.{Bytes}
use kyua.Prelude.Results.{ok, err}
use kyua.Status.{Status}
use kyua.TestResult.{TestResult, TestResultType}
use kyua.TestResult
use kyua.AtfResult.Apply.{exited_with, exit_success}
use kyua.GoogletestResult.{
  Types, broken, disabled, failed, skipped, successful, GoogletestResult, format_error,
  runtime_error, failed_invariant, Parsed, Patterns, parse, parse_with_reason, parse_without_reason,
  finish, load, lines, Reading, reading, read_loop, good,
}
use kyua.GoogletestResult.Apply.{
  expect_code, apply_status, apply, externalize, externalize_at, externalize_type,
  is_invalid_output, handle, calculate_googletest_result, broken_by, premature,
}

-- A reason is given, or the type wants none.
abbrev has_reason : Types → Option Bytes → Bool
has_reason successful o = true
has_reason t (some r) = true
has_reason t none = false

abbrev IsWhole : GoogletestResult → Type 0
IsWhole r = has_reason r.result_type r.reason ≡ true

abbrev IsParsed : Parsed → Type 0
IsParsed (ok r) = IsWhole r
IsParsed (err e) = true ≡ true

finish-IsParsed : (r : Reading) → IsParsed (finish r)
unfolding finish parse_without_reason parse_with_reason
finish-IsParsed r = ground arith

load-IsParsed : (p : Patterns) (file : Option Bytes) → IsParsed (load p file)
unfolding load parse
load-IsParsed p none = refl
load-IsParsed p (some input) = elim (Option-cases (read_loop p (lines input) reading)) [
  | inl e ↦ rw (e, parse, IsParsed) refl
  | inr (r, e) ↦ rw (e, parse, IsParsed) (finish-IsParsed r)
]

apply_status-IsWhole :
    (t : Types) (r : GoogletestResult) (s : Status) → IsWhole r → IsWhole (apply_status t r s)
unfolding apply_status
apply_status-IsWhole broken r s h = h
apply_status-IsWhole disabled r s h = unfold expect_code in ground arith
apply_status-IsWhole failed r s h = unfold expect_code in ground arith
apply_status-IsWhole skipped r s h = unfold expect_code in ground arith
apply_status-IsWhole successful r s h = unfold expect_code in ground arith

apply-IsWhole :
    (r : GoogletestResult) (status : Option Status) → IsWhole r → IsWhole (apply r status)
unfolding apply
apply-IsWhole r (some s) h = apply_status-IsWhole r.result_type r s h
apply-IsWhole r none h = h

externalize_at-some :
    (t : Types) (o : Option Bytes)
    → has_reason t o ≡ true
    → (x : TestResult) × (externalize_at t o ≡ some x)
unfolding externalize_at
externalize_at-some successful o h =
    (record { result_type = TestResultType.passed; reason = [] }, refl)
externalize_at-some t (some reason) h =
    (record { result_type = externalize_type t; reason = reason }, refl)
externalize_at-some t none h = cc

handle-IsWhole :
    (p : Parsed) (status : Option Status)
    → IsParsed p
    → ((r : GoogletestResult) × (handle p status ≡ some r) × IsWhole r)
      ⊎ ((p ≡ err failed_invariant) × (handle p status ≡ none))
unfolding handle
handle-IsWhole (ok r) none h = inl (r, refl, h)
handle-IsWhole (ok r) (some s) h = elim (Bool-cases (is_invalid_output r.result_type r.reason)) [
  | inl e ↦ inl (premature s, rw e refl, refl)
  | inr e ↦ inl (r, rw e refl, h)
]
handle-IsWhole (err (format_error what)) (some s) h = inl (_, refl, refl)
handle-IsWhole (err (format_error what)) none h = inl (_, refl, refl)
handle-IsWhole (err (runtime_error what)) (some s) h = inl (_, refl, refl)
handle-IsWhole (err (runtime_error what)) none h = inl (_, refl, refl)
handle-IsWhole (err failed_invariant) status h = inr (refl, refl)

-- For every status and every file, `calculate_googletest_result` returns a result, except that it
-- aborts where an invariant of `parse` fails.
pub calculate_googletest_result_total :
    (p : Patterns) (status : Option Status) (file : Option Bytes)
    → ((x : TestResult) × (calculate_googletest_result p status file ≡ some x))
      ⊎ ((load p file ≡ err failed_invariant) × (calculate_googletest_result p status file ≡ none))
unfolding calculate_googletest_result externalize
calculate_googletest_result_total p status file =
    elim (handle-IsWhole (load p file) status (load-IsParsed p file)) [
      | inl (r, e, h) ↦
          let q = apply r status in
          let (x, made) = externalize_at-some q.result_type q.reason (apply-IsWhole r status h) in
          inl (x, rw (e, calculate_googletest_result) made)
      | inr (e, k) ↦ inr (e, rw (k, calculate_googletest_result) refl)
    ]

-- The ends of a process with which a good result stays: a time-out, or a successful exit.
abbrev pub Finished : Option Status → Type 0
Finished none = true ≡ true
Finished (some s) = exited_with s exit_success ≡ true

apply-Finished :
    (r : GoogletestResult) (status : Option Status)
    → good r.result_type ≡ true
    → Finished status
    → apply r status ≡ r
unfolding apply apply_status expect_code good
apply-Finished r none h k = refl
apply-Finished r (some s) h k = unfold apply_status in ground arith

good-apply :
    (t : Types) (o : Option Bytes) (status : Option Status)
    → let r : GoogletestResult = record { result_type = t; reason = o } in
      good (apply r status).result_type ≡ true → (good t ≡ true) × Finished status
unfolding apply apply_status expect_code good
good-apply t o none h = (h, refl)
good-apply t o (some s) h = ground arith

good-externalize_type : (t : Types) → TestResult.good (externalize_type t) ≡ good t
unfolding TestResult.good externalize_type good
good-externalize_type t = ground arith

externalize_at-type :
    (t : Types) (o : Option Bytes) (x : TestResult)
    → externalize_at t o ≡ some x
    → x.result_type ≡ externalize_type t
unfolding externalize_at externalize_type
externalize_at-type successful o x h = ground arith
externalize_at-type t (some r) x h = ground arith
externalize_at-type t none x h = cc

applied_good :
    (r : GoogletestResult) (status : Option Status) (x : TestResult)
    → externalize (apply r status) ≡ some x
    → TestResult.good x.result_type ≡ true
    → (good r.result_type ≡ true) × Finished status × (externalize r ≡ some x)
unfolding externalize
applied_good r status x e h =
    let q = apply r status in
    let kind = externalize_at-type q.result_type q.reason x e in
    let fine : good q.result_type ≡ true =
      sym (good-externalize_type q.result_type) ∙ ap TestResult.good (sym kind) ∙ h in
    let (holds, ended) = good-apply r.result_type r.reason status fine in
    (holds, ended, ap externalize (sym (apply-Finished r status holds ended)) ∙ e)

-- What stands behind a good result: the results file holds it, and the process does not deny it.
abbrev pub IsConfirmed : Parsed → Option Status → TestResult → Type 0
IsConfirmed p status x =
    (r : GoogletestResult) × (p ≡ ok r)
    × (good r.result_type ≡ true)
    × Finished status
    × (externalize r ≡ some x)

invalid-good : (t : Types) (o : Option Bytes) → good t ≡ true → is_invalid_output t o ≡ false
unfolding good is_invalid_output
invalid-good t o h = ground arith

-- A result that comes with an externalisation that is good.
abbrev IsGood : GoogletestResult → Option Status → TestResult → Type 0
IsGood r status x = (externalize (apply r status) ≡ some x) × (TestResult.good x.result_type ≡ true)

never_good :
    (m : Bytes) (r : GoogletestResult) (status : Option Status) (x : TestResult)
    → ◌≡◌ {A = Option GoogletestResult} (some (broken_by m)) (some r)
    → IsGood r status x
    → ⊥
unfolding good
never_good m r status x e (k, h) = let holds = (applied_good r status x k h).0 in cc

kept_good :
    (q r : GoogletestResult) (status : Option Status) (x : TestResult)
    → ◌≡◌ {A = Option GoogletestResult} (some q) (some r)
    → IsGood r status x
    → IsConfirmed (ok q) status x
kept_good q r status x e (k, h) =
    let same : r ≡ q = cc in
    let (fine, ended, made) = applied_good r status x k h in
    (
      q,
      refl,
      ap (λ (s : GoogletestResult). good s.result_type) (sym same) ∙ fine,
      ended,
      ap externalize (sym same) ∙ made,
    )

handled_good :
    (p : Parsed) (status : Option Status) (x : TestResult) (r : GoogletestResult)
    → handle p status ≡ some r
    → IsGood r status x
    → IsConfirmed p status x
unfolding handle
handled_good (ok q) none x r k h = kept_good q r none x k h
handled_good (ok q) (some s) x r k h =
    elim (Bool-cases (is_invalid_output q.result_type q.reason)) [
      | inl e ↦ absurd (never_good _ r (some s) x (rw e at k) h)
      | inr e ↦ kept_good q r (some s) x (rw e at k) h
    ]
handled_good (err (format_error what)) (some s) x r k h = absurd (never_good _ r (some s) x k h)
handled_good (err (format_error what)) none x r k h = absurd (never_good _ r none x k h)
handled_good (err (runtime_error what)) (some s) x r k h = absurd (never_good _ r (some s) x k h)
handled_good (err (runtime_error what)) none x r k h = absurd (never_good _ r none x k h)
handled_good (err failed_invariant) status x r k h = cc

handle-kept :
    (r : GoogletestResult) (status : Option Status)
    → good r.result_type ≡ true
    → handle (ok r) status ≡ some r
unfolding handle
handle-kept r none h = refl
handle-kept r (some s) h = rw (invalid-good r.result_type r.reason h) refl

confirmed-IsGood :
    (p : Parsed) (status : Option Status) (x : TestResult)
    → IsConfirmed p status x
    → (r : GoogletestResult) × (handle p status ≡ some r) × IsGood r status x
unfolding externalize
confirmed-IsGood p status x (r, e, h, k, l) =
    let same = apply-Finished r status h k in
    let kind = externalize_at-type r.result_type r.reason x l in
    (
      r,
      rw e (handle-kept r status h),
      (ap externalize same ∙ l, ap TestResult.good kind ∙ good-externalize_type r.result_type ∙ h),
    )

-- A Google Test case is good to the user exactly if its results file holds a good result and its
-- process exited with success or timed out; the user sees that result then.
pub calculate_googletest_result-good :
    (p : Patterns) (status : Option Status) (file : Option Bytes) (x : TestResult)
    → ((calculate_googletest_result p status file ≡ some x)
        × (TestResult.good x.result_type ≡ true))
      ↔ IsConfirmed (load p file) status x
unfolding calculate_googletest_result
calculate_googletest_result-good p status file x = (
  λ w. elim (Option-cases (handle (load p file) status)) [
    | inl e ↦ absurd (cc (rw (e, calculate_googletest_result) at w.0))
    | inr (r, e) ↦
        handled_good (load p file) status x r e (rw (e, calculate_googletest_result) at w.0, w.1)
  ],
  λ w.
      let (r, e, (k, h)) = confirmed-IsGood (load p file) status x w in
      (rw (e, calculate_googletest_result) k, h),
)
