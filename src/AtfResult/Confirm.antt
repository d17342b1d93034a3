-- ===== src/AtfResult/Confirm.antt =====
-- When a result is good to the user.
use kyua.Prelude.{◌≡◌, ◌↔◌, inl, inr, refl, sym, ap, ◌∙◌, true, Option, none, some, arith}
use kyua.Prelude.Bytes.{Bytes}
use kyua.Prelude.Integer.{ℤ, int_eq_iff}
use kyua.Prelude.Results.{Result, ok, err, ◌>>=◌}
use kyua.Status.{Status, exited, signaled, exitstatus, termsig, exited_cases, signaled_cases}
use kyua.TestResult.{TestResult}
use kyua.TestResult
use kyua.AtfResult.{
  Types, broken, expected_death, expected_exit, expected_signal, expected_timeout, failed, passed,
  AtfResult, AtfError, format_error, runtime_error, out_of_range, unexpected_status, Parsed, load,
  good,
}
use kyua.AtfResult.Apply.{
  exit_success, exited_with, expect_code, check_argument, apply_status, apply, externalize,
  externalize_at, externalize_type, handle, calculate_atf_result, broken_by,
}

abbrev pub Allows : Option ℤ → Option ℤ → Type 0
Allows none actual = Unit {0}
Allows (some wanted) actual = actual ≡ some wanted

-- How a process must have ended for a result that is reported as good.
abbrev pub Confirms : Types → Option ℤ → Option Status → Type 0
Confirms expected_timeout a status = status ≡ none
Confirms broken a status = ⊥
Confirms failed a status = ⊥
Confirms t a none = ⊥
Confirms expected_death a (some s) = Unit {0}
Confirms expected_exit a (some s) = (exited s ≡ true) × Allows a (exitstatus s)
Confirms expected_signal a (some s) = (signaled s ≡ true) × Allows a (termsig s)
Confirms t a (some s) = exited_with s exit_success ≡ true

check_good :
    (t : Types) (a : Option ℤ) (o : Option Bytes) (n : ℤ) (first second : Bytes)
    → let r : AtfResult = record { result_type = t; argument = a; reason = o } in
      good (check_argument r (some n) first second).result_type ≡ true → Allows a (some n)
unfolding check_argument good
check_good t none o n first second h = tt
check_good t (some w) o n first second h = ground (arith, int_eq_iff w n)

good_exit :
    (a : Option ℤ) (o : Option Bytes) (s : Status)
    → good
        (apply_status expected_exit
          (record { result_type = expected_exit; argument = a; reason = o })
          s).result_type
      ≡ true
    → (exited s ≡ true) × Allows a (exitstatus s)
unfolding apply_status good
good_exit a o s h = elim (exited_cases s) [
  | inl (e, _) ↦ cc (rw e at h)
  | inr (n, e, k) ↦ (e, rw k (check_good expected_exit a o n _ _ (rw (e, k) at h)))
]

good_signal :
    (a : Option ℤ) (o : Option Bytes) (s : Status)
    → good
        (apply_status expected_signal
          (record { result_type = expected_signal; argument = a; reason = o })
          s).result_type
      ≡ true
    → (signaled s ≡ true) × Allows a (termsig s)
unfolding apply_status good
good_signal a o s h = elim (signaled_cases s) [
  | inl (e, _) ↦ cc (rw e at h)
  | inr (n, e, k) ↦ (e, rw k (check_good expected_signal a o n _ _ (rw (e, k) at h)))
]

apply-good :
    (t : Types) (a : Option ℤ) (o : Option Bytes) (status : Option Status)
    → let r : AtfResult = record { result_type = t; argument = a; reason = o } in
      good (apply r status).result_type ≡ true → Confirms t a status
unfolding apply good
apply-good expected_exit a o (some s) h = good_exit a o s h
apply-good expected_signal a o (some s) h = good_signal a o s h
apply-good expected_timeout a o (some s) h = unfold apply_status in cc
apply-good expected_timeout a o none h = refl
apply-good broken a o (some s) h = unfold apply_status in cc
apply-good expected_death a o (some s) h = tt
apply-good t a o (some s) h = unfold apply_status expect_code in ground arith
apply-good t a o none h = cc

check_allowed :
    (t : Types) (a : Option ℤ) (o : Option Bytes) (n : ℤ) (first second : Bytes)
    → Allows a (some n)
    → let r : AtfResult = record { result_type = t; argument = a; reason = o } in
      check_argument r (some n) first second ≡ r
unfolding check_argument
check_allowed t none o n first second h = refl
check_allowed t (some w) o n first second h = ground (arith, int_eq_iff w n)

-- A result that the process confirms is left alone, and is good.
confirmed :
    (t : Types) (a : Option ℤ) (o : Option Bytes) (status : Option Status)
    → Confirms t a status
    → let r : AtfResult = record { result_type = t; argument = a; reason = o } in
      (apply r status ≡ r) × (good t ≡ true)
unfolding apply apply_status good expect_code
confirmed expected_exit a o (some s) (e, k) = elim (exited_cases s) [
  | inl (f, _) ↦ cc
  | inr (n, _, f) ↦ (rw (e, f) (check_allowed expected_exit a o n _ _ (rw f at k)), refl)
]
confirmed expected_signal a o (some s) (e, k) = elim (signaled_cases s) [
  | inl (f, _) ↦ cc
  | inr (n, _, f) ↦ (rw (e, f) (check_allowed expected_signal a o n _ _ (rw f at k)), refl)
]
confirmed expected_timeout a o (some s) k = cc
confirmed expected_timeout a o none k = (refl, refl)
confirmed expected_death a o (some s) k = (refl, refl)
confirmed broken a o (some s) k = absurd k
confirmed failed a o (some s) k = absurd k
confirmed t a o (some s) k = (rw k refl, refl)
confirmed t a o none k = absurd k

good-externalize_type : (t : Types) → TestResult.good (externalize_type t) ≡ good t
unfolding TestResult.good externalize_type good
good-externalize_type t = ground arith

externalize_at-type :
    (t : Types) (o : Option Bytes) (x : TestResult)
    → externalize_at t o ≡ some x
    → x.result_type ≡ externalize_type t
unfolding externalize_at
externalize_at-type passed o x h = ground arith
externalize_at-type t (some r) x h = ground arith
externalize_at-type t none x h = cc

applied_good :
    (r : AtfResult) (status : Option Status) (x : TestResult)
    → externalize (apply r status) ≡ some x
    → TestResult.good x.result_type ≡ true
    → Confirms r.result_type r.argument status × (externalize r ≡ some x)
unfolding externalize
applied_good r status x e h =
    let kind = externalize_at-type (apply r status).result_type (apply r status).reason x e in
    let fine : good (apply r status).result_type ≡ true =
      sym (good-externalize_type (apply r status).result_type)
      ∙ ap TestResult.good (sym kind)
      ∙ h in
    let holds = apply-good r.result_type r.argument r.reason status fine in
    (
      holds,
      ap (λ (q : AtfResult). externalize_at q.result_type q.reason)
            (sym (confirmed r.result_type r.argument r.reason status holds).0)
          ∙ e,
    )

never_good :
    (m : Bytes) (status : Option Status) (x : TestResult)
    → ◌≡◌ {A = Result AtfError (Option TestResult)}
        (ok (externalize (apply (broken_by m) status)))
        (ok (some x))
    → ¬ (TestResult.good x.result_type ≡ true)
never_good m status x e h = (applied_good (broken_by m) status x (cc) h).0

handled_good :
    (p : Parsed) (status : Option Status) (x : TestResult)
    → (handle p status >>= λ r. ok (externalize (apply r status))) ≡ ok (some x)
    → TestResult.good x.result_type ≡ true
    → (r : AtfResult) × (p ≡ ok r)
      × Confirms r.result_type r.argument status
      × (externalize r ≡ some x)
unfolding handle
handled_good (ok r) status x e h =
    let (holds, same) = applied_good r status x (cc) h in (r, refl, holds, same)
handled_good (err (format_error what)) (some s) x e h = absurd (never_good _ (some s) x e h)
handled_good (err (format_error what)) none x e h = absurd (never_good _ none x e h)
handled_good (err (runtime_error what)) (some s) x e h = absurd (never_good _ (some s) x e h)
handled_good (err (runtime_error what)) none x e h = absurd (never_good _ none x e h)
handled_good (err out_of_range) status x e h = cc
handled_good (err unexpected_status) status x e h = cc

confirmed_good :
    (p : Parsed) (status : Option Status) (x : TestResult)
    → (r : AtfResult) × (p ≡ ok r)
      × Confirms r.result_type r.argument status
      × (externalize r ≡ some x)
    → ((handle p status >>= λ r. ok (externalize (apply r status))) ≡ ok (some x))
      × (TestResult.good x.result_type ≡ true)
unfolding handle externalize
confirmed_good p status x (r, l, c, e) =
    let (same, fine) = confirmed r.result_type r.argument r.reason status c in
    (
      rw l (ap (λ (q : AtfResult). ok (externalize_at q.result_type q.reason)) same ∙ ap ok e),
      ap TestResult.good (externalize_at-type r.result_type r.reason x e)
          ∙ good-externalize_type r.result_type
          ∙ fine,
    )

-- A test case is good to the user exactly if its results file holds a result that the end of its
-- process confirms; the user sees that result then.
pub calculate_atf_result-good :
    (status : Option Status) (file : Option Bytes) (x : TestResult)
    → ((calculate_atf_result status file ≡ ok (some x)) × (TestResult.good x.result_type ≡ true))
      ↔ ((r : AtfResult) × (load file ≡ ok r)
          × Confirms r.result_type r.argument status
          × (externalize r ≡ some x))
unfolding calculate_atf_result
calculate_atf_result-good status file x =
    (λ w. handled_good (load file) status x w.0 w.1, λ w. confirmed_good (load file) status x w)
