-- ===== src/Templates/Conditional.antt =====
-- Templates with nested conditionals: what the parser writes for them.
use kyua.Prelude.{
  ℕ, ◌+◌, subst, ◌<◌, ◌≡◌, inl, inr, refl, sym, ap, ap₂, ◌∙◌, false, some, List, [], ◌∷◌, ◌++◌,
  arith, if_false, length, append-nil, Bool-cases,
}
use kyua.Prelude.Bytes.{Bytes, bytes}
use kyua.Prelude.Results.{Result-cases, ok, err}
use kyua.Templates.{TemplatesDef, evaluate, evaluate_line}
use kyua.Templates.Parser.{
  TemplatesParser, templates_parser, up, down, is_truth, is_skipping, instantiate_loop,
}
use kyua.Templates.Blocks.{AreLines, Blocks, conditional, depth, line, lines, meaning, nothing}
use kyua.Templates.Handling.{pad, pad-length, reading, reading_text, step_err, step_ok}
use kyua.Templates.Skipped.{down-up, reshape, up_small}
use kyua.Templates.Branches.{
  GoesOn-after, GoesOn-same, RunOf, closed, closing, if_fails, if_taken, passing_over, run_by,
  starting,
}

run_blocks :
    (fuel : ℕ) (p : TemplatesParser) (blocks : Blocks) (tail : List Bytes) (out : Bytes)
    → AreLines p.templates blocks
    → is_skipping p.skip ≡ false
    → p.if_level + depth blocks < 4294967296
    → RunOf fuel p blocks tail out
run_blocks fuel p nothing tail out w s b =
    inr ([], p, refl, (refl, refl, s), ap (instantiate_loop fuel p tail) (sym (append-nil out)))
run_blocks fuel p (line l rest) tail out ((h, k), w) s b =
    elim (Result-cases (evaluate_line p.templates (bytes "%%") l)) [
      | inl (e, x) ↦
          inl
            (e, rw x refl, step_err _ p l _ out e (if_false (is_skipping p.skip) _ _ s ∙ rw x refl))
      | inr (v, x) ↦ rw x (
          GoesOn-after fuel p p tail out (v ++ (b'\n' ∷ [])) (meaning p.templates rest) _ _
            (refl, refl, s)
            (step_ok _ p p l _ _ out _ (reading p l v _ s x ∙ reading_text p v _ (k v x)))
            (run_blocks fuel p rest tail (out ++ (v ++ (b'\n' ∷ []))) w s b))
    ]
run_blocks fuel p (conditional first expression body last rest) tail out (f, wb, g, w) s b =
    elim (Result-cases (evaluate p.templates expression)) [
      | inl (e, x) ↦ inl (
        e,
        rw x refl,
        step_err _ p first _ out e
            (starting p first expression _ (err e) f s (if_fails p expression e x)),
      )
      | inr (v, x) ↦ elim (Bool-cases (is_truth v)) [
        | inl y ↦
            let inner = record p { if_level = up p.if_level; skip = false ∷ p.skip } in
            let level : up p.if_level ≡ p.if_level + 1 = up_small p.if_level (omega arith) in
            let start =
              step_ok _ p inner first _ _ out []
                (starting p first expression _ (ok inner) f s (if_taken p expression v x y))
              ∙ reshape fuel inner (lines body) (last ∷ lines rest) tail out in
            elim (run_blocks (pad (last ∷ lines rest) fuel) inner body ((last ∷ lines rest) ++ tail)
              out wb refl (omega arith)) [
                | inl (e, m, r) ↦ inl (e, rw (x, y, m) refl, start ∙ r)
                | inr (text, q, m, (a, l, c), r) ↦
                    let same : down q.if_level ≡ p.if_level =
                      ap down l ∙ down-up p.if_level (omega arith) in
                    let more =
                      run_blocks fuel (closed q) rest tail (out ++ text)
                        (subst (λ t. AreLines t rest) (sym a) w) c (omega arith) in
                    rw (x, y, m)
                      (GoesOn-after fuel p (closed q) tail out text (meaning p.templates rest) _ _
                        (a, same, c)
                        (start
                          ∙ r
                          ∙ closing _ p.templates q last (lines rest ++ tail) (out ++ text) a g c)
                        (run_by fuel p.templates (closed q) rest tail (out ++ text) a more))
              ]
        | inr y ↦
            let behind = record p {
              if_level = down (up p.if_level);
              exit_if_level = up p.if_level;
            } in
            let same : down (up p.if_level) ≡ p.if_level = down-up p.if_level (omega arith) in
            rw (x, y)
              (GoesOn-same fuel p behind tail out (meaning p.templates rest) _ _ (refl, same, s)
                (passing_over fuel p first expression v body last (lines rest) tail out f wb g s
                  (omega arith) x y)
                (run_blocks fuel behind rest tail out w s (omega arith)))
      ]
    ]

finished : (q : TemplatesParser) (text : Bytes) → instantiate_loop 0 q [] text ≡ some (ok text)
unfolding instantiate_loop
finished q text = refl

-- A template of lines and conditionals without alternatives, nested to any depth below 2^32, is
-- instantiated, with as much fuel as it has lines, to what its lines and conditionals mean, and fails
-- with the error of the first expression that fails.
pub instantiate_loop-meaning :
    (t : TemplatesDef) (blocks : Blocks)
    → AreLines t blocks
    → depth blocks < 4294967296
    → instantiate_loop (length (lines blocks)) (templates_parser t) (lines blocks) []
      ≡ some (meaning t blocks)
instantiate_loop-meaning t blocks w d =
    let shape =
      ap₂ (λ x y. instantiate_loop x (templates_parser t) y []) (sym (pad-length (lines blocks)))
        (sym (append-nil (lines blocks))) in
    elim (run_blocks 0 (templates_parser t) blocks [] [] w refl (omega arith)) [
      | inl (e, m, r) ↦ shape ∙ r ∙ sym (ap some m)
      | inr (text, q, m, k, r) ↦ shape ∙ r ∙ finished q text ∙ sym (ap some m)
    ]
