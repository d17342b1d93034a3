-- ===== src/Tap.antt =====
-- engine/tap_parser.cpp and engine/tap.cpp: the result of a test program that prints TAP.
use kyua.Prelude.{
  ℕ, ◌+◌, ◌-◌, ◌%◌, ◌/◌, ap, Bool, true, false, not, ◌&&◌, ◌||◌, Option, none, some, List, [], ◌∷◌,
  ◌++◌, ◌==◌, ltb, if◌then◌else◌, take, any, is_empty, all,
}
use kyua.Prelude.Bytes.{Bytes, bytes, str_eq, find, pieces, at}
use kyua.Prelude.Integer.{show_nat, size_mod}
use kyua.Prelude.Results.{Result, ok, err, ◌>>=◌}
use kyua.Text.{to_type_size}
pub mod Judge
pub mod Counts
pub mod Lines
pub mod Passed

-- The matches of the regular expressions of `tap_parser` in a line, parameters of the model: the
-- groups 1 and 2 of `_plan_regex`, whether `_todo_regex` matches, the group 2 of `_skip_regex`
-- and the group 1 of `_result_regex`.
pub record TapPatterns : Type 0 where
  pub plan : Bytes → Option (Bytes × Bytes)
  pub todo : Bytes → Bool
  pub skip : Bytes → Option Bytes
  pub result : Bytes → Option Bytes

-- `tap_plan`.
abbrev pub TapPlan : Type 0
TapPlan = ℕ × ℕ

abbrev pub plan_eq : TapPlan → TapPlan → Bool
plan_eq (a, b) (c, d) = (a == c) && (b == d)

abbrev pub all_skipped_plan : TapPlan
all_skipped_plan = (1, 0)

abbrev pub show_plan : TapPlan → Bytes
show_plan (first, second) = show_nat first ++ (bytes ".." ++ show_nat second)

-- What leaves the parser other than by a return: a `format_error`, a `text::error`, or a failed
-- INV, which aborts.
pub data TapError : Type 0 where
  format_error : Bytes → TapError
  text_error : Bytes → TapError
  failed_invariant : TapError

pub record TapSummary : Type 0 where
  pub bailed_out : Bool
  pub plan : TapPlan
  pub all_skipped_reason : Bytes
  pub ok_count : ℕ
  pub not_ok_count : ℕ

-- The variables of `parse`. The counts are of lines, and stay below 2^64.
pub record Tap : Type 0 where
  pub plan : Option TapPlan
  pub all_skipped_reason : Bytes
  pub bailed_out : Bool
  pub ok_count : ℕ
  pub not_ok_count : ℕ

-- `to_type` on the two groups of the plan.
unfoldable pub read_plan : Bytes → Bytes → Result TapError TapPlan
unfolding to_type_size
read_plan first second = elim (to_type_size first) [
  | none ↦ err (text_error (bytes "Invalid value"))
  | some a ↦ elim (to_type_size second) [
    | none ↦ err (text_error (bytes "Invalid value"))
    | some b ↦ ok (a, b)
  ]
]

-- The reason for skipping all tests, which is empty where the plan is not skipped.
unfoldable pub skipped_reason : Option Bytes → TapPlan → Result TapError Bytes
skipped_reason (some reason) plan =
    if not (plan_eq plan all_skipped_plan)
    then err (format_error (bytes "Skipped plan must be " ++ show_plan all_skipped_plan))
    else ok (if is_empty reason then bytes "No reason specified" else reason)
skipped_reason none plan =
    if ltb plan.1 plan.0
    then err (format_error (bytes "Found reversed plan " ++ show_plan plan))
    else ok []

-- The rest of `try_parse_plan`, where the line has a plan.
unfoldable pub add_plan : TapPatterns → Bytes → TapPlan → Tap → Result TapError Tap
unfolding skipped_reason
add_plan p line plan s = elim s.plan [
  | some old ↦ err (
      format_error (
        bytes "Found duplicate plan "
        ++ (show_plan plan ++ (bytes " (saw " ++ (show_plan old ++ bytes " earlier)")))))
  | none ↦ skipped_reason (p.skip line) plan >>= λ reason.
      ok (record s { plan = some plan; all_skipped_reason = reason })
]

unfoldable pub try_parse_plan : TapPatterns → Bytes → Tap → Result TapError (Bool × Tap)
unfolding read_plan add_plan
try_parse_plan p line s = elim (p.plan line) [
  | none ↦ ok (false, s)
  | some (first, second) ↦
      read_plan first second >>= λ plan. add_plan p line plan s >>= λ t. ok (true, t)
]

abbrev pub found : Option Bytes → Bool
found none = false
found (some s) = true

unfoldable pub count_result : TapPatterns → Bytes → Bytes → Tap → Result TapError Tap
unfolding str_eq
count_result p line word s =
    if str_eq word (bytes "ok")
    then ok (record s { ok_count = s.ok_count + 1 })
    else if not (str_eq word (bytes "not ok"))
    then err failed_invariant
    else if p.todo line || found (p.skip line)
    then ok (record s { ok_count = s.ok_count + 1 })
    else ok (record s { not_ok_count = s.not_ok_count + 1 })

-- `line.find("Bail out!") == 0`.
abbrev pub bails_out : Bytes → Bool
bails_out line = str_eq (take 9 line) (bytes "Bail out!")

unfoldable pub try_parse_result : TapPatterns → Bytes → Tap → Result TapError (Bool × Tap)
unfolding count_result
try_parse_result p line s = elim (p.result line) [
  | some word ↦ count_result p line word s >>= λ t. ok (true, t)
  | none ↦ if bails_out line then ok (true, record s { bailed_out = true }) else ok (false, s)
]

-- The body of the loop of `parse`.
unfoldable pub parse_line : TapPatterns → Bytes → Tap → Result TapError Tap
unfolding try_parse_result try_parse_plan
parse_line p line s = try_parse_result p line s >>= λ (matched, t).
    if matched then ok t else (try_parse_plan p line t >>= λ u. ok u.1)

unfoldable pub parse_loop : TapPatterns → List Bytes → Tap → Result TapError Tap
unfolding parse_line
parse_loop p [] s = ok s
parse_loop p (line ∷ rest) s =
    let next = parse_line p line s >>= parse_loop p rest in if s.bailed_out then ok s else next

-- The lines that `getline` reads: the text behind the last newline only if it is not empty.
unfoldable pub getlines : List Bytes → List Bytes
getlines [] = []
getlines (line ∷ []) = if is_empty line then [] else line ∷ []
getlines (line ∷ next ∷ rest) = line ∷ getlines (next ∷ rest)

abbrev pub new_bailed_out : TapSummary
new_bailed_out = record {
  bailed_out = true;
  plan = (0, 0);
  all_skipped_reason = [];
  ok_count = 0;
  not_ok_count = 0;
}

abbrev pub new_all_skipped : Bytes → TapSummary
new_all_skipped reason = record {
  bailed_out = false;
  plan = all_skipped_plan;
  all_skipped_reason = reason;
  ok_count = 0;
  not_ok_count = 0;
}

abbrev pub new_results : TapPlan → ℕ → ℕ → TapSummary
new_results plan ok_count not_ok_count = record {
  bailed_out = false;
  plan = plan;
  all_skipped_reason = [];
  ok_count = ok_count;
  not_ok_count = not_ok_count;
}

-- `plan.second - plan.first + 1` in a size_t.
abbrev pub plan_size : TapPlan → ℕ
plan_size (first, second) = (second + size_mod - first + 1) % size_mod

-- What `parse` does behind its loop.
unfoldable pub finish : Tap → Result TapError TapSummary
finish s = if s.bailed_out then ok new_bailed_out else elim s.plan [
  | none ↦
      err (
        format_error (bytes "Output did not contain any TAP plan and the program did not bail out"))
  | some plan ↦
      if plan_eq plan all_skipped_plan
      then ok (new_all_skipped s.all_skipped_reason)
      else if not (plan_size plan == s.ok_count + s.not_ok_count)
      then err (format_error (bytes "Reported plan differs from actual executed tests"))
      else ok (new_results plan s.ok_count s.not_ok_count)
]

abbrev pub start : Tap
start = record {
  plan = none;
  all_skipped_reason = [];
  bailed_out = false;
  ok_count = 0;
  not_ok_count = 0;
}

unfoldable pub parse : TapPatterns → Bytes → Result TapError TapSummary
unfolding parse_loop getlines finish
parse p input = parse_loop p (getlines (pieces b'\n' input)) start >>= finish
