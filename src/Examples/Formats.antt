-- ===== src/Examples/Formats.antt =====
-- The formatter, the templates and the filling of lines at concrete inputs.
use kyua.Prelude.{ℕ, ◌↔◌, ◌+◌, ◌≡◌, ◌≢◌, refl, some, List, [], ◌∷◌, arith, length}
use kyua.Prelude.Bytes.{Bytes, bytes, find_from}
use kyua.Prelude.Results.{Result, ok}
use kyua.Formatter.{Stream, format_all}
use kyua.Formatter.Render.{scan}
use kyua.Formatter.Chain.{render, format_all-render}
use kyua.Templates.{TemplateError, TemplatesDef, evaluate, evaluate_line}
use kyua.Templates.Parser.{templates_parser, is_statement, parse_statement, instantiate_loop}
use kyua.Templates.Blocks.{Blocks, nothing, line, conditional, lines, AreLines, meaning}
use kyua.Templates.Conditional.{instantiate_loop-meaning}
use kyua.Table.{Table, new_table}
use kyua.Table.Widths.{CellsFit, Below, add_rows, add_rows-Widths}
use kyua.Text.Refill.{refill}
use kyua.Text.Refill.Lines.{AllFit, IsCutOf, refill-lines}

abbrev put_text : Bytes → Stream → Bytes
put_text s o = s

abbrev arguments : List (Stream → Bytes)
arguments = put_text (bytes "%s") ∷ put_text (bytes "b") ∷ []

format_all-render_example :
    format_all (bytes "a %s%% c %s") arguments
    ≡ render (bytes "a %s%% c %s") (scan (bytes "a %s%% c %s")) arguments
format_all-render_example = format_all-render (bytes "a %s%% c %s") arguments

abbrev greeting : TemplatesDef
greeting = record {
  variables = (bytes "name", bytes "you") ∷ (bytes "empty", []) ∷ [];
  vectors = [];
}

abbrev greeting_blocks : Blocks
greeting_blocks =
    conditional (bytes "%if name") (bytes "name")
      (conditional (bytes "%if empty") (bytes "empty") (line (bytes "no") nothing) (bytes "%endif")
        nothing)
      (bytes "%endif") (line (bytes "hi %%name%%") nothing)

ok_value : (a b : Bytes) → Path (Result TemplateError Bytes) (ok a) (ok b) → b ≡ a
ok_value a b h = cc

greeting-AreLines : AreLines greeting greeting_blocks
unfolding is_statement evaluate_line parse_statement find_from evaluate
greeting-AreLines = (
  (refl, refl, refl),
  (
    (refl, refl, refl),
    ((refl, λ v e. rw (ok_value (bytes "no") v e) refl), tt),
    (refl, refl, refl),
    tt,
  ),
  (refl, refl, refl),
  ((refl, λ v e. rw (ok_value (bytes "hi you") v e) refl), tt),
)

instantiate_loop-meaning_example :
    instantiate_loop
      (length (lines greeting_blocks))
      (templates_parser greeting)
      (lines greeting_blocks)
      []
    ≡ some (meaning greeting greeting_blocks)
instantiate_loop-meaning_example =
    instantiate_loop-meaning greeting greeting_blocks greeting-AreLines (omega arith)

abbrev sentence : Bytes
sentence = bytes "one two three"

sentence_given : sentence ≢ []
sentence_given h = cc

refill-lines_example :
    (ls : List Bytes) × (refill sentence (1 + 6) ≡ some ls)
    × AllFit (1 + 6) ls
    × IsCutOf sentence ls
refill-lines_example = refill-lines sentence 6 sentence_given (omega arith)

abbrev two_rows : List (List Bytes)
two_rows = (bytes "a" ∷ bytes "long" ∷ []) ∷ (bytes "bc" ∷ [] ∷ []) ∷ []

add_rows-Widths_example :
    (t : Table) × (add_rows (new_table 2) two_rows ≡ some t)
    × (t.rows ≡ two_rows)
    × ((ws : List ℕ) → length ws ≡ 2 → CellsFit ws two_rows ↔ Below t.column_widths ws)
add_rows-Widths_example = add_rows-Widths 2 two_rows (refl, (refl, tt))
