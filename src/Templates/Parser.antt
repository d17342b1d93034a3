-- ===== src/Templates/Parser.antt =====
-- utils/text/templates.cpp: the parser of a template and its statements.
use kyua.Prelude.{
  ℕ, zero, suc, ◌+◌, ◌%◌, Bool, true, false, not, ◌&&◌, ◌||◌, Option, none, some, List, [], ◌∷◌,
  ◌++◌, ◌==◌, ltb, if◌then◌else◌, length, drop, is_empty,
}
use kyua.Prelude.Bytes.{Bytes, bytes, str_eq}
use kyua.Prelude.Integer.{show_nat}
use kyua.Prelude.Results.{Result, ok, err, ◌>>=◌}
use kyua.Prelude.Search.{starts_with}
use kyua.Text.{split}
use kyua.Templates.{
  TemplateError, syntax_error, undefined, TemplatesDef, add_variable, remove_variable, get_variable,
  get_vector, to_index, evaluate, evaluate_line,
}

-- `statement_def`.
pub data StatementType : Type 0 where
  type_else : StatementType
  type_endif : StatementType
  type_endloop : StatementType
  type_if : StatementType
  type_loop : StatementType

pub record StatementDef : Type 0 where
  pub type : StatementType
  pub arguments : List Bytes

-- The map of the types, with the number of the arguments of each.
unfoldable pub find_type : Bytes → Option (StatementType × ℕ)
unfolding str_eq
find_type word =
    if str_eq word (bytes "else")
    then some (type_else, 0)
    else if str_eq word (bytes "endif")
    then some (type_endif, 0)
    else if str_eq word (bytes "endloop")
    then some (type_endloop, 0)
    else if str_eq word (bytes "if")
    then some (type_if, 1)
    else if str_eq word (bytes "loop")
    then some (type_loop, 2)
    else none

abbrev parse_words : List Bytes → Result TemplateError StatementDef
parse_words [] = err (syntax_error (bytes "Empty statement"))
parse_words (word ∷ words) = elim (find_type word) [
  | none ↦ err (syntax_error (bytes "Unknown statement '" ++ (word ++ bytes "'")))
  | some (type, n_arguments) ↦
      if not (length words == n_arguments)
      then err (
          syntax_error (bytes "Invalid number of arguments for statement '" ++ (word ++ bytes "'")))
      else ok (record { type = type; arguments = words })
]

unfoldable pub parse_statement_def : Bytes → Result TemplateError StatementDef
unfolding split find_type
parse_statement_def line = parse_words (split line b' ')

-- The position is what is left of the input.
pub record LoopDef : Type 0 where
  pub vector : Bytes
  pub iterator : Bytes
  pub position : List Bytes

-- The prefix and the delimiter are those of `text::instantiate`.
pub record TemplatesParser : Type 0 where
  pub templates : TemplatesDef
  pub skip : List Bool
  pub if_level : ℕ
  pub exit_if_level : ℕ
  pub loop_level : ℕ
  pub exit_loop_level : ℕ
  pub loops : List LoopDef

abbrev pub templates_parser : TemplatesDef → TemplatesParser
templates_parser t = record {
  templates = t;
  skip = [];
  if_level = 0;
  exit_if_level = 0;
  loop_level = 0;
  exit_loop_level = 0;
  loops = [];
}

-- `++` and `--` of an unsigned int.
abbrev pub up : ℕ → ℕ
up n = (n + 1) % 4294967296

abbrev pub down : ℕ → ℕ
down zero = 4294967295
down (suc n) = n

unfoldable pub is_statement : Bytes → Bool
unfolding starts_with
is_statement line = starts_with (bytes "%") line && not (starts_with (bytes "%%") line)

unfoldable pub parse_statement : Bytes → Result TemplateError StatementDef
unfolding is_statement parse_statement_def
parse_statement line =
    if is_statement line then parse_statement_def (drop 1 line) else err undefined

abbrev pub argument : List Bytes → ℕ → Bytes
argument [] n = []
argument (a ∷ rest) zero = a
argument (a ∷ rest) (suc n) = argument rest n

-- What handling a line gives: the parser, the rest of the input and the output.
abbrev pub Handled : Type 0
Handled = Result TemplateError (TemplatesParser × List Bytes × Bytes)

-- `_skip.top() = !_skip.top()`, `_skip.top() = false` and `_skip.pop()`.
abbrev pub flip_top : TemplatesParser → List Bool → Result TemplateError TemplatesParser
flip_top p [] = err undefined
flip_top p (b ∷ skip) = ok (record p { skip = not b ∷ skip })

abbrev pub pop_skip : List Bool → List Bool
pop_skip [] = []
pop_skip (b ∷ skip) = skip

abbrev pub is_truth : Bytes → Bool
is_truth value = not (is_empty value || (str_eq value (bytes "0") || str_eq value (bytes "false")))

unfoldable pub handle_if : TemplatesParser → Bytes → Result TemplateError TemplatesParser
unfolding evaluate str_eq
handle_if p expression = evaluate p.templates expression >>= λ value.
    if is_truth value
    then ok (record p { if_level = up p.if_level; skip = false ∷ p.skip })
    else ok
        (record p { if_level = up p.if_level; exit_if_level = up p.if_level; skip = true ∷ p.skip })

abbrev enter_loop : TemplatesParser → LoopDef → List Bytes → Result TemplateError TemplatesParser
enter_loop p loop [] = ok (record p {
  loop_level = up p.loop_level;
  exit_loop_level = up p.loop_level;
  skip = true ∷ p.skip;
})
enter_loop p loop (x ∷ xs) = add_variable p.templates loop.iterator (bytes "0") >>= λ templates.
    ok (record p {
      templates = templates;
      loop_level = up p.loop_level;
      loops = loop ∷ p.loops;
      skip = false ∷ p.skip;
    })

unfoldable pub handle_loop :
    TemplatesParser → Bytes → Bytes → List Bytes → Result TemplateError TemplatesParser
unfolding get_vector add_variable
handle_loop p vector iterator position =
    get_vector p.templates vector
    >>= enter_loop p (record { vector = vector; iterator = iterator; position = position })

abbrev next_round : TemplatesParser → LoopDef → List LoopDef → List Bytes → ℕ → List Bytes → Handled
next_round p loop loops rest next_index vector =
    if ltb next_index (length vector)
    then (add_variable p.templates loop.iterator (show_nat next_index) >>= λ templates.
        ok (record p { templates = templates }, loop.position, []))
    else (remove_variable p.templates loop.iterator >>= λ templates. ok (
      record p { templates = templates; loop_level = down p.loop_level; loops = loops },
      rest,
      [],
    ))

abbrev end_round : TemplatesParser → List LoopDef → List Bytes → Handled
end_round p [] rest = err undefined
end_round p (loop ∷ loops) rest = get_variable p.templates loop.iterator >>= λ text.
    to_index text >>= λ index. get_vector p.templates loop.vector >>= λ vector.
    next_round p loop loops rest ((1 + index) % 18446744073709551616) vector

unfoldable pub handle_endloop : TemplatesParser → List Bytes → Handled
unfolding get_variable get_vector add_variable remove_variable
handle_endloop p rest =
    if length p.loops == p.loop_level then end_round p p.loops rest else err undefined

abbrev stay : List Bytes → Result TemplateError TemplatesParser → Handled
stay rest r = r >>= λ p. ok (p, rest, [])

abbrev pub handle_statement : TemplatesParser → List Bytes → StatementDef → Handled
handle_statement p rest s = elim s.type [
  | type_else ↦ stay rest (flip_top p p.skip)
  | type_endif ↦ ok (record p { if_level = down p.if_level }, rest, [])
  | type_endloop ↦ handle_endloop p rest
  | type_if ↦ stay rest (handle_if p (argument s.arguments 0))
  | type_loop ↦ stay rest (handle_loop p (argument s.arguments 0) (argument s.arguments 1) rest)
]

unfoldable pub handle_normal : TemplatesParser → Bytes → List Bytes → Handled
unfolding is_statement parse_statement handle_endloop handle_if handle_loop
handle_normal p line rest =
    if not (is_statement line)
    then ok (p, rest, line ++ (b'\n' ∷ []))
    else parse_statement line >>= handle_statement p rest

-- The end of what was skipped; `_skip.top() = false` is seen only until the pop.
abbrev pub skip_statement : TemplatesParser → StatementType → Result TemplateError TemplatesParser
skip_statement p type_else = if p.exit_if_level == p.if_level then flip_top p p.skip else ok p
skip_statement p type_endif =
    if ltb p.if_level p.exit_if_level
    then err undefined
    else ok (record p { if_level = down p.if_level; skip = pop_skip p.skip })
skip_statement p type_endloop =
    if ltb p.loop_level p.exit_loop_level
    then err undefined
    else ok (record p { loop_level = down p.loop_level; skip = pop_skip p.skip })
skip_statement p type_if = ok (record p { if_level = up p.if_level; skip = true ∷ p.skip })
skip_statement p type_loop = ok (record p { loop_level = up p.loop_level; skip = true ∷ p.skip })

unfoldable pub handle_skip : TemplatesParser → Bytes → Result TemplateError TemplatesParser
unfolding is_statement parse_statement
handle_skip p line =
    if not (is_statement line) then ok p else parse_statement line >>= λ s. skip_statement p s.type

abbrev pub is_skipping : List Bool → Bool
is_skipping [] = false
is_skipping (b ∷ skip) = b

abbrev pub handle_line : TemplatesParser → Bytes → List Bytes → Handled
handle_line p line rest =
    if is_skipping p.skip
    then stay rest (handle_skip p line)
    else evaluate_line p.templates (bytes "%%") line >>= λ text. handle_normal p text rest

-- `instantiate` over the lines that end in a newline, with what it wrote; `none` is out of fuel.
unfoldable pub instantiate_loop :
    ℕ → TemplatesParser → List Bytes → Bytes → Option (Result TemplateError Bytes)
unfolding evaluate_line handle_skip handle_normal
instantiate_loop fuel p [] output = some (ok output)
instantiate_loop zero p (line ∷ rest) output = none
instantiate_loop (suc fuel) p (line ∷ rest) output = elim (handle_line p line rest) [
  | err e ↦ some (err e)
  | ok (next, lines, written) ↦ instantiate_loop fuel next lines (output ++ written)
]
