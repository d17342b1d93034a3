-- ===== src/Templates/Handling.antt =====
-- How the parser of templates handles one line: a text, or the ends of a conditional.
use kyua.Prelude.{
  ℕ, suc, ◌≤◌, ◌≡◌, refl, ap, ◌∙◌, true, false, not, some, List, [], ◌∷◌, ◌++◌, arith, ltb, if_true,
  if_false, length,
}
use kyua.Prelude.Bytes.{Bytes, bytes}
use kyua.Prelude.Results.{ok, err, ◌>>=◌}
use kyua.Templates.{TemplateError, evaluate_line}
use kyua.Templates.Parser.{
  StatementDef, type_if, type_endif, TemplatesParser, up, down, is_statement, parse_statement,
  Handled, handle_if, handle_statement, skip_statement, pop_skip, handle_normal, handle_skip,
  is_skipping, handle_line, instantiate_loop,
}
use kyua.Templates.Blocks.{IsStatement}

-- Fuel for some lines, above other fuel.
abbrev pub pad : List Bytes → ℕ → ℕ
pad [] fuel = fuel
pad (l ∷ ls) fuel = suc (pad ls fuel)

pub pad-append : (a b : List Bytes) (fuel : ℕ) → pad (a ++ b) fuel ≡ pad a (pad b fuel)
pad-append [] b fuel = refl
pad-append (l ∷ a) b fuel = ap suc (pad-append a b fuel)

pub pad-length : (a : List Bytes) → pad a 0 ≡ length a
pad-length [] = refl
pad-length (l ∷ a) = ap suc (pad-length a)

pub step_ok :
    (fuel : ℕ) (p next : TemplatesParser) (l : Bytes) (rest ls : List Bytes) (out written : Bytes)
    → handle_line p l rest ≡ ok (next, ls, written)
    → instantiate_loop (suc fuel) p (l ∷ rest) out ≡ instantiate_loop fuel next ls (out ++ written)
unfolding instantiate_loop
step_ok fuel p next l rest ls out written h = rw (h, instantiate_loop) refl

pub step_err :
    (fuel : ℕ) (p : TemplatesParser) (l : Bytes) (rest : List Bytes) (out : Bytes)
    (e : TemplateError)
    → handle_line p l rest ≡ err e
    → instantiate_loop (suc fuel) p (l ∷ rest) out ≡ some (err e)
unfolding instantiate_loop
step_err fuel p l rest out e h = rw (h, instantiate_loop) refl

-- A line that is not skipped.
pub reading :
    (p : TemplatesParser) (l value : Bytes) (rest : List Bytes)
    → is_skipping p.skip ≡ false
    → evaluate_line p.templates (bytes "%%") l ≡ ok value
    → handle_line p l rest ≡ handle_normal p value rest
reading p l value rest s h = if_false (is_skipping p.skip) _ _ s ∙ rw h refl

pub reading_text :
    (p : TemplatesParser) (value : Bytes) (rest : List Bytes)
    → is_statement value ≡ false
    → handle_normal p value rest ≡ ok (p, rest, value ++ (b'\n' ∷ []))
unfolding handle_normal
reading_text p value rest h = rw (h, handle_normal) refl

pub reading_statement :
    (p : TemplatesParser) (l : Bytes) (rest : List Bytes) (s : StatementDef)
    → is_statement l ≡ true
    → parse_statement l ≡ ok s
    → handle_normal p l rest ≡ handle_statement p rest s
unfolding handle_normal
reading_statement p l rest s h d =
    if_false (not (is_statement l)) _ _ (ap not h) ∙ ap (λ r. r >>= handle_statement p rest) d

pub reading_if :
    (p : TemplatesParser) (l expression : Bytes) (rest : List Bytes)
    → IsStatement p.templates l (record { type = type_if; arguments = expression ∷ [] })
    → is_skipping p.skip ≡ false
    → handle_line p l rest ≡ (handle_if p expression >>= λ q. ok (q, rest, []))
unfolding handle_normal
reading_if p l expression rest (s, e, d) k =
    reading p l l rest k e ∙ reading_statement p l rest _ s d

pub reading_endif :
    (p : TemplatesParser) (l : Bytes) (rest : List Bytes)
    → IsStatement p.templates l (record { type = type_endif; arguments = [] })
    → is_skipping p.skip ≡ false
    → handle_line p l rest ≡ ok (record p { if_level = down p.if_level }, rest, [])
unfolding handle_normal
reading_endif p l rest (s, e, d) k = reading p l l rest k e ∙ reading_statement p l rest _ s d

-- The parser while it skips.
abbrev pub skipped : TemplatesParser → Bytes → List Bytes → Handled
skipped p l rest = handle_skip p l >>= λ q. ok (q, rest, [])

pub passing :
    (p : TemplatesParser) (l : Bytes) (rest : List Bytes)
    → is_skipping p.skip ≡ true
    → handle_line p l rest ≡ skipped p l rest
passing p l rest s = if_true (is_skipping p.skip) _ _ s

pub passing_text :
    (p : TemplatesParser) (l : Bytes) (rest : List Bytes)
    → is_skipping p.skip ≡ true
    → is_statement l ≡ false
    → handle_line p l rest ≡ ok (p, rest, [])
unfolding handle_skip
passing_text p l rest s h = passing p l rest s ∙ rw (h, handle_skip) refl

pub passing_statement :
    (p : TemplatesParser) (l : Bytes) (rest : List Bytes) (s : StatementDef)
    → is_statement l ≡ true
    → parse_statement l ≡ ok s
    → skipped p l rest ≡ (skip_statement p s.type >>= λ q. ok (q, rest, []))
unfolding handle_skip
passing_statement p l rest s h d =
    ap (λ r. r >>= λ q. ok (q, rest, []))
      (if_false (not (is_statement l)) _ _ (ap not h)
        ∙ ap (λ r. r >>= λ x. skip_statement p x.type) d)

pub passing_if :
    (p : TemplatesParser) (l expression : Bytes) (rest : List Bytes)
    → IsStatement p.templates l (record { type = type_if; arguments = expression ∷ [] })
    → is_skipping p.skip ≡ true
    → handle_line p l rest
      ≡ ok (record p { if_level = up p.if_level; skip = true ∷ p.skip }, rest, [])
unfolding handle_skip
passing_if p l expression rest (s, e, d) k = passing p l rest k ∙ passing_statement p l rest _ s d

pub passing_endif :
    (p : TemplatesParser) (l : Bytes) (rest : List Bytes)
    → IsStatement p.templates l (record { type = type_endif; arguments = [] })
    → is_skipping p.skip ≡ true
    → p.exit_if_level ≤ p.if_level
    → handle_line p l rest
      ≡ ok (record p { if_level = down p.if_level; skip = pop_skip p.skip }, rest, [])
unfolding handle_skip
passing_endif p l rest (s, e, d) k n =
    passing p l rest k
    ∙ passing_statement p l rest _ s d
    ∙ ap (λ r. r >>= λ q. ok (q, rest, []))
        (if_false (ltb p.if_level p.exit_if_level) _ _ (ground arith))
