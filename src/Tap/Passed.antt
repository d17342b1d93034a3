-- ===== src/Tap/Passed.antt =====
-- When a TAP test case passes.
use kyua.Prelude.{
  ◌≡◌, ◌↔◌, inl, inr, refl, sym, ap, ◌∙◌, true, false, Option, none, some, List, [], ◌∷◌, map,
  arith, all, Option-cases, Bool-cases,
}
use kyua.Prelude.Bytes.{Bytes, pieces}
use kyua.Prelude.Results.{Result, ok, err, ◌>>=◌}
use kyua.Status.{Status, exited, signaled, exitstatus}
use kyua.TestResult.{passed}
use kyua.AtfResult.Apply.{exited_with, exit_success}
use kyua.Tap.{
  TapPatterns, TapPlan, TapError, format_error, text_error, failed_invariant, Tap, TapSummary,
  parse, getlines, finish, start, plan_eq, plan_size, all_skipped_plan, new_results,
}
use kyua.Tap.Lines.{Kind, line_kind, steps, succeeded, parse_loop-steps}
use kyua.Tap.Counts.{is_clean, passings, failings, plans, given, steps-Counts, Counts-steps}
use kyua.Tap.Judge.{rethrow, parse_tap_output, result_of, tap_to_result, judge, tap_result}

abbrev pub kinds : TapPatterns → Bytes → List Kind
kinds p input = map (line_kind p) (getlines (pieces b'\n' input))

-- No line bails out or is invalid, one line has a plan, which does not skip all tests, no test
-- failed, and as many passed as are planned.
abbrev pub IsSound : List Kind → Type 0
IsSound ks =
    (plan : TapPlan) × (plans ks ≡ plan ∷ [])
    × (all is_clean ks ≡ true)
    × (plan_eq plan all_skipped_plan ≡ false)
    × (failings ks ≡ 0)
    × (plan_size plan ≡ passings ks)

abbrev pub Passes : TapPatterns → Option Status → Option Bytes → Type 0
Passes p (some s) (some input) =
    (signaled s ≡ false) × (exited_with s exit_success ≡ true) × IsSound (kinds p input)
Passes p status file = ⊥

-- The summaries of which a test case passes.
abbrev IsClear : TapSummary → Type 0
IsClear x =
    (x.bailed_out ≡ false) × (plan_eq x.plan all_skipped_plan ≡ false) × (x.not_ok_count ≡ 0)

IsClear-iff :
    (x : TapSummary) (s : Status)
    → (tap_to_result x s ≡ some (result_of passed []))
      ↔ (IsClear x × (exited_with s exit_success ≡ true))
unfolding tap_to_result exited_with exited exitstatus
IsClear-iff x s = (λ h. ground arith, λ h. ground arith)

judge_iff :
    (path : Bytes) (r : Result TapError TapSummary) (s : Status)
    → (judge (rethrow path r) s ≡ some (result_of passed []))
      ↔ ((x : TapSummary) × (r ≡ ok x) × (tap_to_result x s ≡ some (result_of passed [])))
unfolding judge rethrow
judge_iff path (ok x) s = (
  λ h. (x, refl, h),
  λ (y, e, h). (let same : y ≡ x = cc in ap (λ z. tap_to_result z s) (sym same) ∙ h),
)
judge_iff path (err (format_error w)) s = (λ h. cc, λ (y, e, h). cc)
judge_iff path (err (text_error w)) s = (λ h. cc, λ (y, e, h). cc)
judge_iff path (err failed_invariant) s = (λ h. cc, λ (y, e, h). cc)

finish-IsClear :
    (t : Tap) (x : TapSummary)
    → finish t ≡ ok x
    → IsClear x
    → (plan : TapPlan) × (t.plan ≡ some plan)
      × (t.bailed_out ≡ false)
      × (plan_eq plan all_skipped_plan ≡ false)
      × (t.not_ok_count ≡ 0)
      × (plan_size plan ≡ t.ok_count)
unfolding finish
finish-IsClear t x h c = elim (Option-cases t.plan) [
  | inl e ↦ absurd (ground arith)
  | inr (plan, e) ↦ (plan, e, ground arith, ground arith, ground arith, ground arith)
]

IsClear-finish :
    (t : Tap) (plan : TapPlan)
    → t.plan ≡ some plan
    → t.bailed_out ≡ false
    → plan_eq plan all_skipped_plan ≡ false
    → t.not_ok_count ≡ 0
    → plan_size plan ≡ t.ok_count
    → (x : TapSummary) × (finish t ≡ ok x) × IsClear x
unfolding finish
IsClear-finish t plan e b k n z =
    (new_results plan t.ok_count t.not_ok_count, ground arith, (refl, k, n))

succeeded-ok : (r : Result TapError Tap) (t : Tap) → succeeded r ≡ some t → r ≡ ok t
succeeded-ok (ok u) t h = cc
succeeded-ok (err e) t h = cc

given-some : (o : Option TapPlan) (plan : TapPlan) → given o ≡ plan ∷ [] → o ≡ some plan
given-some none plan h = cc
given-some (some other) plan h = cc

loop-IsSound :
    (ks : List Kind) (r : Result TapError Tap) (x : TapSummary)
    → succeeded r ≡ steps ks start
    → (r >>= finish) ≡ ok x
    → IsClear x
    → IsSound ks
loop-IsSound ks (err e) x k h c = cc
loop-IsSound ks (ok t) x k h c =
    let (plan, e, b, skips, none_failed, size) = finish-IsClear t x h c in
    let counts = steps-Counts ks start t refl (sym k) b in
    (
      plan,
      sym counts.planned ∙ ap given e,
      counts.clean,
      skips,
      omega (arith, counts.not_oks),
      size ∙ omega (arith, counts.oks),
    )

IsSound-loop :
    (ks : List Kind) (r : Result TapError Tap)
    → succeeded r ≡ steps ks start
    → IsSound ks
    → (x : TapSummary) × ((r >>= finish) ≡ ok x) × IsClear x
IsSound-loop ks r k (plan, e, clean, skips, none_failed, size) =
    let (t, made, counts) = Counts-steps ks start refl clean (rw e (omega arith)) in
    let returned : r ≡ ok t = succeeded-ok r t (k ∙ made) in
    let planned : t.plan ≡ some plan = given-some t.plan plan (counts.planned ∙ e) in
    let (x, done, clear) =
      IsClear-finish t plan planned counts.bailed skips (omega (arith, counts.not_oks))
        (size ∙ omega (arith, counts.oks)) in
    (x, ap (λ y. y >>= finish) returned ∙ done, clear)

passed_iff :
    (p : TapPatterns) (s : Status) (path input : Bytes)
    → (judge (parse_tap_output p path (some input)) s ≡ some (result_of passed []))
      ↔ ((exited_with s exit_success ≡ true) × IsSound (kinds p input))
unfolding parse_tap_output parse
passed_iff p s path input =
    let ran = parse_loop-steps p (getlines (pieces b'\n' input)) start in
    (
      λ h.
          let (x, e, k) = (judge_iff path (parse p input) s).0 h in
          let (clear, success) = (IsClear-iff x s).0 k in
          (success, loop-IsSound (kinds p input) _ x ran e clear),
      λ h.
          let (x, e, clear) = IsSound-loop (kinds p input) _ ran h.1 in
          (judge_iff path (parse p input) s).1 (x, e, (IsClear-iff x s).1 (clear, h.0)),
    )

-- A TAP test case passes exactly if its process was not signaled and exited with success, and its
-- output is sound: no line bails out or is invalid, exactly one line has a plan, which does not
-- skip all tests, no test failed, and as many tests passed as are planned.
pub tap_result-Passes :
    (p : TapPatterns) (status : Option Status) (path : Bytes) (file : Option Bytes)
    → (tap_result p status path file ≡ some (result_of passed [])) ↔ Passes p status file
unfolding tap_result
tap_result-Passes p none path file = (λ h. cc, λ h. absurd h)
tap_result-Passes p (some s) path none =
    (λ h. absurd (unfold parse_tap_output in ground arith), λ h. absurd h)
tap_result-Passes p (some s) path (some input) = elim (Bool-cases (signaled s)) [
  | inl e ↦ (λ h. cc (rw (e, tap_result) at h), λ h. cc)
  | inr e ↦ (
    λ h.
        let (success, sound) = (passed_iff p s path input).0 (rw (e, tap_result) at h) in
        (e, success, sound),
    λ h. rw (e, tap_result) ((passed_iff p s path input).1 (h.1, h.2)),
  )
]
