-- ===== src/Tap/Lines.antt =====
-- What each line of TAP output means to the parser.
use kyua.Prelude.{
  ◌+◌, ◌≡◌, inl, inr, refl, sym, ap, ◌∙◌, true, not, ◌||◌, Option, none, some, List, [], ◌∷◌, map,
  arith, if◌then◌else◌, if_true, if_false, Bool-cases,
}
use kyua.Prelude.Bytes.{Bytes, bytes, str_eq}
use kyua.Prelude.Results.{Result, ok, err, ◌>>=◌}
use kyua.Tap.{
  TapPatterns, TapPlan, TapError, Tap, read_plan, skipped_reason, add_plan, try_parse_plan,
  try_parse_result, found, bails_out, parse_line, parse_loop,
}

pub data Kind : Type 0 where
  passing failing bailing other invalid : Kind
  planning : TapPlan → Bytes → Kind

abbrev pub result_kind : TapPatterns → Bytes → Bytes → Kind
result_kind p line word =
    if str_eq word (bytes "ok")
    then passing
    else if not (str_eq word (bytes "not ok"))
    then invalid
    else if p.todo line || found (p.skip line)
    then passing
    else failing

abbrev pub reason_kind : TapPlan → Result TapError Bytes → Kind
reason_kind plan (ok reason) = planning plan reason
reason_kind plan (err e) = invalid

abbrev pub plan_kind : TapPatterns → Bytes → Result TapError TapPlan → Kind
plan_kind p line (ok plan) = reason_kind plan (skipped_reason (p.skip line) plan)
plan_kind p line (err e) = invalid

abbrev pub groups_kind : TapPatterns → Bytes → Option (Bytes × Bytes) → Kind
groups_kind p line none = other
groups_kind p line (some (first, second)) = plan_kind p line (read_plan first second)

abbrev pub line_kind : TapPatterns → Bytes → Kind
line_kind p line = elim (p.result line) [
  | some word ↦ result_kind p line word
  | none ↦ if bails_out line then bailing else groups_kind p line (p.plan line)
]

abbrev pub succeeded {ℓ} : {A : Type ℓ} → Result TapError A → Option A
succeeded (ok a) = some a
succeeded (err e) = none

-- What the parser does to its state for a line of each kind; `none` is an error.
abbrev pub step : Kind → Tap → Option Tap
step passing s = some (record s { ok_count = s.ok_count + 1 })
step failing s = some (record s { not_ok_count = s.not_ok_count + 1 })
step bailing s = some (record s { bailed_out = true })
step other s = some s
step invalid s = none
step (planning plan reason) s = elim s.plan [
  | none ↦ some (record s { plan = some plan; all_skipped_reason = reason })
  | some old ↦ none
]

plan-step :
    (p : TapPatterns) (line : Bytes) (s : Tap)
    → succeeded (try_parse_plan p line s >>= λ u. ok u.1)
      ≡ step (groups_kind p line (p.plan line)) s
unfolding try_parse_plan add_plan
plan-step p line s = ground arith

pub parse_line-step :
    (p : TapPatterns) (line : Bytes) (s : Tap)
    → succeeded (parse_line p line s) ≡ step (line_kind p line) s
unfolding parse_line try_parse_result
parse_line-step p line s = ground (arith, plan-step p line s)

abbrev pub and_then : Option Tap → (Tap → Option Tap) → Option Tap
and_then none f = none
and_then (some t) f = f t

-- The loop of the parser, which stops at a line that bails out.
abbrev pub steps : List Kind → Tap → Option Tap
steps [] s = some s
steps (k ∷ ks) s = if s.bailed_out then some s else and_then (step k s) (steps ks)

bind-steps :
    (p : TapPatterns) (rest : List Bytes) (ks : List Kind) (r : Result TapError Tap)
    (o : Option Tap)
    → ((t : Tap) → succeeded (parse_loop p rest t) ≡ steps ks t)
    → succeeded r ≡ o
    → succeeded (r >>= parse_loop p rest) ≡ and_then o (steps ks)
bind-steps p rest ks (ok t) o ih k = rw (← k) (ih t)
bind-steps p rest ks (err x) o ih k = rw (← k) refl

pub parse_loop-steps :
    (p : TapPatterns) (lines : List Bytes) (s : Tap)
    → succeeded (parse_loop p lines s) ≡ steps (map (line_kind p) lines) s
unfolding parse_loop
parse_loop-steps p [] s = refl
parse_loop-steps p (line ∷ rest) s = elim (Bool-cases s.bailed_out) [
  | inl e ↦ ap succeeded (if_true s.bailed_out _ _ e) ∙ sym (if_true s.bailed_out _ _ e)
  | inr e ↦
      ap succeeded (if_false s.bailed_out _ _ e)
      ∙ bind-steps p rest (map (line_kind p) rest) (parse_line p line s) _ (parse_loop-steps p rest)
          (parse_line-step p line s)
      ∙ sym (if_false s.bailed_out _ _ e)
]
