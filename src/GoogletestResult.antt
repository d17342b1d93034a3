-- ===== src/GoogletestResult.antt =====
-- engine/googletest_result.cpp: the result of a Google Test case, parsed from what it prints.
use kyua.Prelude.{
  suc, ◌+◌, ◌-◌, ap, Bool, true, false, not, ◌&&◌, Option, none, some, List, [], ◌∷◌, ◌++◌,
  if◌then◌else◌, is_empty,
}
use kyua.Prelude.Bytes.{Bytes, bytes, str_eq, lacks, pieces, at}
use kyua.Prelude.Results.{Result, ok, err}
pub mod Apply
pub mod Confirm
pub mod Show
pub mod Verdict

pub data Types : Type 0 where
  broken disabled failed skipped successful : Types

pub record GoogletestResult : Type 0 where
  pub result_type : Types
  pub reason : Option Bytes

-- What leaves `parse` or `load` other than by a return. `failed_invariant` is a failed INV or
-- PRE_MSG, which aborts.
pub data GoogletestError : Type 0 where
  format_error : Bytes → GoogletestError
  runtime_error : Bytes → GoogletestError
  failed_invariant : GoogletestError

abbrev pub Parsed : Type 0
Parsed = Result GoogletestError GoogletestResult

-- The searches of std::regex in a line, parameters of the model: `matches[1]` of `disabled_re`,
-- whether `starting_sentinel_re` is found, `matches[1]` of `ending_sentinel_re`.
pub record Patterns : Type 0 where
  pub disabled_text : Bytes → Option Bytes
  pub starts : Bytes → Bool
  pub ending : Bytes → Option Bytes

-- What the group of `ending_sentinel_re` matches: FAILED, OK or SKIPPED.
pub data IsEnding : Bytes → Type 0 where
  failed_word : IsEnding (bytes "FAILED")
  ok_word : IsEnding (bytes "OK")
  skipped_word : IsEnding (bytes "SKIPPED")

abbrev pub invalid_output_message : Bytes
invalid_output_message = bytes "invalid output"

abbrev pub bogus_googletest_skipped_nul_message : Bytes
bogus_googletest_skipped_nul_message = bytes "\n"

unfoldable pub parse_without_reason : Bytes → Bytes → Parsed
parse_without_reason status rest =
    if not (is_empty rest)
    then err (format_error (status ++ bytes " cannot have a reason"))
    else if str_eq status (bytes "skipped")
    then ok (record { result_type = skipped; reason = none })
    else if str_eq status (bytes "successful")
    then ok (record { result_type = successful; reason = none })
    else err failed_invariant

unfoldable pub parse_with_reason : Bytes → Bytes → Parsed
parse_with_reason status rest =
    if is_empty rest
    then err failed_invariant
    else if str_eq status (bytes "broken")
    then ok (record { result_type = broken; reason = some rest })
    else if str_eq status (bytes "disabled")
    then ok (record { result_type = disabled; reason = some rest })
    else if str_eq status (bytes "failed")
    then ok (record { result_type = failed; reason = some rest })
    else if str_eq status (bytes "skipped")
    then ok (record { result_type = skipped; reason = some rest })
    else err failed_invariant

-- The first loop of `parse`: the lines with their newlines, which the last one lacks.
unfoldable pub with_newlines : List Bytes → List Bytes
with_newlines [] = []
with_newlines (line ∷ []) = line ∷ []
with_newlines (line ∷ next ∷ lines) = (line ++ (b'\n' ∷ [])) ∷ with_newlines (next ∷ lines)

unfoldable pub lines : Bytes → List Bytes
unfolding with_newlines
lines input = with_newlines (pieces b'\n' input)

-- The variables of the second loop of `parse`.
pub record Reading : Type 0 where
  pub capture_context : Bool
  pub valid_output : Bool
  pub context : Bytes
  pub status : Bytes

-- `if (capture_context) context += line`, at the end of the loop's body.
unfoldable pub capture : Bytes → Reading → Reading
capture line r = if r.capture_context then record r { context = r.context ++ line } else r

-- The body of the `if` on the ending sentinel; `none` is a failed INV.
unfoldable pub end_block : Bytes → Reading → Option Reading
end_block word r =
    if str_eq word (bytes "OK")
    then some (record {
      capture_context = false;
      valid_output = true;
      context = [];
      status = bytes "successful";
    })
    else if str_eq word (bytes "FAILED")
    then some (record {
      capture_context = false;
      valid_output = true;
      context = r.context;
      status = bytes "failed";
    })
    else if str_eq word (bytes "SKIPPED")
    then some (record {
      capture_context = false;
      valid_output = true;
      context = r.context;
      status = bytes "skipped";
    })
    else none

-- A line that neither disables the test nor starts a block.
unfoldable pub end_line : Option Bytes → Bytes → Reading → Option Reading
unfolding end_block capture
end_line none line r = some (capture line r)
end_line (some word) line r = elim (end_block word r) [
  | none ↦ none
  | some next ↦ some (capture line next)
]

abbrev pub start_block : Reading → Reading
start_block r = record r { capture_context = true; context = [] }

abbrev pub disable : Bytes → Reading → Reading
disable text r = record r { context = text; status = bytes "disabled"; valid_output = true }

-- The second loop of `parse`.
unfoldable pub read_loop : Patterns → List Bytes → Reading → Option Reading
unfolding end_line
read_loop p [] r = some r
read_loop p (line ∷ rest) r = elim (p.disabled_text line) [
  | some text ↦ some (disable text r)
  | none ↦
      if p.starts line
      then read_loop p rest (start_block r)
      else elim (end_line (p.ending line) line r) [
        | none ↦ none
        | some next ↦ read_loop p rest next
      ]
]

abbrev pub reading : Reading
reading = record { capture_context = false; valid_output = false; context = []; status = [] }

-- What `parse` does behind its loops.
unfoldable pub finish : Reading → Parsed
unfolding parse_without_reason parse_with_reason
finish r =
    if not r.valid_output
    then parse_with_reason (bytes "broken") invalid_output_message
    else if str_eq r.status (bytes "skipped") && is_empty r.context
    then parse_with_reason r.status bogus_googletest_skipped_nul_message
    else if is_empty r.context
    then parse_without_reason r.status r.context
    else parse_with_reason r.status r.context

unfoldable pub parse : Patterns → Bytes → Parsed
unfolding read_loop finish lines
parse p input = elim (read_loop p (lines input) reading) [
  | none ↦ err failed_invariant
  | some r ↦ finish r
]

-- `load`; `none` is a file that cannot be opened.
unfoldable pub load : Patterns → Option Bytes → Parsed
unfolding parse
load p none = err (runtime_error (bytes "Cannot open results file"))
load p (some input) = parse p input

unfoldable pub good : Types → Bool
good disabled = true
good skipped = true
good successful = true
good broken = false
good failed = false
