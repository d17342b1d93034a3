-- ===== src/Templates/Skipped.antt =====
-- The parser of templates over nested conditionals that it skips.
use kyua.Prelude.{
  ℕ, suc, ◌+◌, ◌≤◌, ◌<◌, ◌≡◌, refl, ap, ap₂, ◌∙◌, true, List, [], ◌∷◌, ◌++◌, arith, append_assoc,
  append-nil,
}
use kyua.Prelude.Bytes.{Bytes}
use kyua.Templates.Parser.{TemplatesParser, up, down, is_skipping, instantiate_loop}
use kyua.Templates.Blocks.{AreLines, Blocks, conditional, depth, line, lines, nothing}
use kyua.Templates.Handling.{pad, pad-append, passing_endif, passing_if, passing_text, step_ok}

pub up_small : (n : ℕ) → n + 1 < 4294967296 → up n ≡ n + 1
up_small n h = omega arith

pub down_suc : (n : ℕ) → down (n + 1) ≡ n
down_suc n = let next : n + 1 ≡ suc n = omega arith in ap down next

pub down-up : (n : ℕ) → n + 1 < 4294967296 → down (up n) ≡ n
down-up n h = ap down (up_small n h) ∙ down_suc n

-- The fuel and the lines of a sequence, and what a statement writes.
pub reshape :
    (fuel : ℕ) (p : TemplatesParser) (a b tail : List Bytes) (out : Bytes)
    → instantiate_loop (pad (a ++ b) fuel) p ((a ++ b) ++ tail) (out ++ [])
      ≡ instantiate_loop (pad a (pad b fuel)) p (a ++ (b ++ tail)) out
reshape fuel p a b tail out =
    ap₂ (λ x y. instantiate_loop x p y (out ++ [])) (pad-append a b fuel) (append_assoc a b tail)
    ∙ ap (instantiate_loop (pad a (pad b fuel)) p (a ++ (b ++ tail))) (append-nil out)

-- What is skipped leaves the parser as it was.
pub skip_blocks :
    (fuel : ℕ) (p : TemplatesParser) (blocks : Blocks) (tail : List Bytes) (out : Bytes)
    → AreLines p.templates blocks
    → is_skipping p.skip ≡ true
    → p.exit_if_level ≤ p.if_level
    → p.if_level + depth blocks < 4294967296
    → instantiate_loop (pad (lines blocks) fuel) p (lines blocks ++ tail) out
      ≡ instantiate_loop fuel p tail out
skip_blocks fuel p nothing tail out w s n b = refl
skip_blocks fuel p (line l rest) tail out ((h, _), w) s n b =
    step_ok _ p p l _ _ out [] (passing_text p l _ s h)
    ∙ ap (instantiate_loop (pad (lines rest) fuel) p (lines rest ++ tail)) (append-nil out)
    ∙ skip_blocks fuel p rest tail out w s n b
skip_blocks fuel p (conditional first expression body last rest) tail out (f, wb, g, w) s n b =
    let inner = record p { if_level = up p.if_level; skip = true ∷ p.skip } in
    let level : up p.if_level ≡ p.if_level + 1 = up_small p.if_level (omega arith) in
    step_ok _ p inner first _ _ out [] (passing_if p first expression _ f s)
    ∙ reshape fuel inner (lines body) (last ∷ lines rest) tail out
    ∙ skip_blocks (pad (last ∷ lines rest) fuel) inner body ((last ∷ lines rest) ++ tail) out wb
        refl (omega arith) (omega arith)
    ∙ step_ok _ inner _ last _ _ out [] (passing_endif inner last _ g refl (omega arith))
    ∙ ap₂
        (λ k o.
          instantiate_loop (pad (lines rest) fuel) (record p { if_level = k }) (lines rest ++ tail)
            o)
        (down-up p.if_level (omega arith)) (append-nil out)
    ∙ skip_blocks fuel p rest tail out w s n (omega arith)
