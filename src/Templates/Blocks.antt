-- ===== src/Templates/Blocks.antt =====
-- Templates of lines and nested conditionals, and what they mean.
use kyua.Prelude.{ℕ, suc, ◌+◌, ◌≡◌, true, false, List, [], ◌∷◌, ◌++◌, if◌then◌else◌}
use kyua.Prelude.Bytes.{Bytes, bytes}
use kyua.Prelude.Results.{Result, ok, ◌>>=◌}
use kyua.Templates.{TemplateError, TemplatesDef, evaluate, evaluate_line}
use kyua.Templates.Parser.{
  StatementDef, type_if, type_endif, is_statement, parse_statement, is_truth,
}

-- A template of lines and conditionals without an alternative. A conditional has its first line, its
-- expression, its body and its last line.
pub data Blocks : Type 0 where
  nothing : Blocks
  line : Bytes → Blocks → Blocks
  conditional : Bytes → Bytes → Blocks → Bytes → Blocks → Blocks

abbrev pub lines : Blocks → List Bytes
lines nothing = []
lines (line l rest) = l ∷ lines rest
lines (conditional first expression body last rest) = first ∷ (lines body ++ (last ∷ lines rest))

abbrev pub depth : Blocks → ℕ
depth nothing = 0
depth (line l rest) = depth rest
depth (conditional first expression body last rest) = suc (depth body) + depth rest

-- A line that holds a statement of this kind, and no expression.
abbrev pub IsStatement : TemplatesDef → Bytes → StatementDef → Type 0
IsStatement t l s =
    (is_statement l ≡ true) × (evaluate_line t (bytes "%%") l ≡ ok l) × (parse_statement l ≡ ok s)

-- A line of text, whose value is none of the parser's statements.
abbrev pub IsText : TemplatesDef → Bytes → Type 0
IsText t l =
    (is_statement l ≡ false)
    × ((value : Bytes) → evaluate_line t (bytes "%%") l ≡ ok value → is_statement value ≡ false)

abbrev pub AreLines : TemplatesDef → Blocks → Type 0
AreLines t nothing = Unit {0}
AreLines t (line l rest) = IsText t l × AreLines t rest
AreLines t (conditional first expression body last rest) =
    IsStatement t first (record { type = type_if; arguments = expression ∷ [] })
    × AreLines t body
    × IsStatement t last (record { type = type_endif; arguments = [] })
    × AreLines t rest

-- The reference definition: each line with its expressions evaluated, and of a conditional the body
-- where its expression is true.
abbrev pub meaning : TemplatesDef → Blocks → Result TemplateError Bytes
meaning t nothing = ok []
meaning t (line l rest) =
    let others = meaning t rest in
    evaluate_line t (bytes "%%") l >>= λ text.
    others >>= λ more. ok ((text ++ (b'\n' ∷ [])) ++ more)
meaning t (conditional first expression body last rest) =
    let inside = meaning t body in
    let others = meaning t rest in
    evaluate t expression >>= λ value.
    if is_truth value then (inside >>= λ text. others >>= λ more. ok (text ++ more)) else others
