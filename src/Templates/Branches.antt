-- ===== src/Templates/Branches.antt =====
-- How a run of the parser of templates goes on at a conditional that is taken or passed over.
use kyua.Prelude.{
  ℕ, suc, ◌+◌, subst, ◌<◌, ◌≡◌, ◌⊎◌, inl, inr, refl, sym, ap, ◌∙◌, true, false, Option, some, List,
  [], ◌∷◌, ◌++◌, arith, if_true, if_false, append_assoc, append-nil,
}
use kyua.Prelude.Bytes.{Bytes}
use kyua.Prelude.Results.{Result, ok, err, ◌>>=◌}
use kyua.Templates.{TemplateError, TemplatesDef, evaluate}
use kyua.Templates.Parser.{
  type_if, type_endif, TemplatesParser, up, down, is_truth, handle_if, is_skipping, handle_line,
  instantiate_loop,
}
use kyua.Templates.Blocks.{AreLines, Blocks, IsStatement, depth, lines, meaning}
use kyua.Templates.Handling.{pad, passing_endif, reading_endif, reading_if, step_ok}
use kyua.Templates.Skipped.{reshape, skip_blocks, up_small}

-- A parser that reads on at the same level.
abbrev pub Still : TemplatesParser → TemplatesParser → Type 0
Still p q = (q.templates ≡ p.templates) × (q.if_level ≡ p.if_level) × (is_skipping q.skip ≡ false)

-- How a run goes on whose meaning is `m`.
abbrev pub GoesOn :
    ℕ
    → TemplatesParser
    → List Bytes
    → Bytes
    → Result TemplateError Bytes
    → Option (Result TemplateError Bytes)
    → Type 0
GoesOn fuel p tail out m run =
    ((e : TemplateError) × (m ≡ err e) × (run ≡ some (err e)))
    ⊎ ((text : Bytes) × (q : TemplatesParser) × (m ≡ ok text)
        × Still p q
        × (run ≡ instantiate_loop fuel q tail (out ++ text)))

abbrev pub RunOf : ℕ → TemplatesParser → Blocks → List Bytes → Bytes → Type 0
RunOf fuel p blocks tail out =
    GoesOn fuel p tail out (meaning p.templates blocks)
      (instantiate_loop (pad (lines blocks) fuel) p (lines blocks ++ tail) out)

-- A run that starts with a text and reads on from a parser at the same level.
pub GoesOn-after :
    (fuel : ℕ) (p q : TemplatesParser) (tail : List Bytes) (out text : Bytes)
    (m : Result TemplateError Bytes) (run next : Option (Result TemplateError Bytes))
    → Still p q
    → run ≡ next
    → GoesOn fuel q tail (out ++ text) m next
    → GoesOn fuel p tail out (m >>= λ more. ok (text ++ more)) run
GoesOn-after fuel p q tail out text m run next k r (inl (e, h, g)) = inl (e, rw h refl, r ∙ g)
GoesOn-after fuel p q tail out text m run next (a, b, c) r (inr (more, z, h, (x, y, w), g)) = inr (
  text ++ more,
  z,
  rw h refl,
  (x ∙ a, y ∙ b, w),
  r ∙ g ∙ ap (instantiate_loop fuel z tail) (append_assoc out text more),
)

pub GoesOn-same :
    (fuel : ℕ) (p q : TemplatesParser) (tail : List Bytes) (out : Bytes)
    (m : Result TemplateError Bytes) (run next : Option (Result TemplateError Bytes))
    → Still p q
    → run ≡ next
    → GoesOn fuel q tail out m next
    → GoesOn fuel p tail out m run
GoesOn-same fuel p q tail out m run next k r (inl (e, h, g)) = inl (e, h, r ∙ g)
GoesOn-same fuel p q tail out m run next (a, b, c) r (inr (more, z, h, (x, y, w), g)) =
    inr (more, z, h, (x ∙ a, y ∙ b, w), r ∙ g)

pub if_fails :
    (p : TemplatesParser) (expression : Bytes) (e : TemplateError)
    → evaluate p.templates expression ≡ err e
    → handle_if p expression ≡ err e
unfolding handle_if
if_fails p expression e h = rw (h, handle_if) refl

pub if_taken :
    (p : TemplatesParser) (expression v : Bytes)
    → evaluate p.templates expression ≡ ok v
    → is_truth v ≡ true
    → handle_if p expression ≡ ok (record p { if_level = up p.if_level; skip = false ∷ p.skip })
unfolding handle_if
if_taken p expression v h k = rw (h, handle_if) (if_true (is_truth v) _ _ k)

pub if_left :
    (p : TemplatesParser) (expression v : Bytes)
    → evaluate p.templates expression ≡ ok v
    → is_truth v ≡ false
    → handle_if p expression
      ≡ ok (record p {
        if_level = up p.if_level;
        exit_if_level = up p.if_level;
        skip = true ∷ p.skip;
      })
unfolding handle_if
if_left p expression v h k = rw (h, handle_if) (if_false (is_truth v) _ _ k)

pub starting :
    (p : TemplatesParser) (l expression : Bytes) (rest : List Bytes)
    (r : Result TemplateError TemplatesParser)
    → IsStatement p.templates l (record { type = type_if; arguments = expression ∷ [] })
    → is_skipping p.skip ≡ false
    → handle_if p expression ≡ r
    → handle_line p l rest ≡ (r >>= λ q. ok (q, rest, []))
starting p l expression rest r f s h =
    reading_if p l expression rest f s ∙ ap (λ x. x >>= λ q. ok (q, rest, [])) h

-- A parser behind the end of a conditional.
abbrev pub closed : TemplatesParser → TemplatesParser
closed q = record q { if_level = down q.if_level }

pub closing :
    (fuel : ℕ) (t : TemplatesDef) (q : TemplatesParser) (last : Bytes) (ls : List Bytes)
    (out : Bytes)
    → q.templates ≡ t
    → IsStatement t last (record { type = type_endif; arguments = [] })
    → is_skipping q.skip ≡ false
    → instantiate_loop (suc fuel) q (last ∷ ls) out ≡ instantiate_loop fuel (closed q) ls out
closing fuel t q last ls out a g c =
    step_ok fuel q (closed q) last ls ls out [] (
      reading_endif q last ls
        (subst (λ x. IsStatement x last (record { type = type_endif; arguments = [] })) (sym a) g)
        c)
    ∙ ap (instantiate_loop fuel (closed q) ls) (append-nil out)

-- A run, by the meaning for other definitions that are equal.
pub run_by :
    (fuel : ℕ) (t : TemplatesDef) (q : TemplatesParser) (rest : Blocks) (tail : List Bytes)
    (out : Bytes)
    → q.templates ≡ t
    → RunOf fuel q rest tail out
    → GoesOn fuel q tail out
        (meaning t rest)
        (instantiate_loop (pad (lines rest) fuel) q (lines rest ++ tail) out)
run_by fuel t q rest tail out a =
    subst
      (λ x.
        GoesOn fuel q tail out (meaning x rest)
          (instantiate_loop (pad (lines rest) fuel) q (lines rest ++ tail) out))
      a

-- Over a conditional that is not taken.
pub passing_over :
    (fuel : ℕ) (p : TemplatesParser) (first expression v : Bytes) (body : Blocks) (last : Bytes)
    (rest tail : List Bytes) (out : Bytes)
    → IsStatement p.templates first (record { type = type_if; arguments = expression ∷ [] })
    → AreLines p.templates body
    → IsStatement p.templates last (record { type = type_endif; arguments = [] })
    → is_skipping p.skip ≡ false
    → p.if_level + suc (depth body) < 4294967296
    → evaluate p.templates expression ≡ ok v
    → is_truth v ≡ false
    → instantiate_loop
        (suc (pad (lines body ++ (last ∷ rest)) fuel))
        p
        (first ∷ ((lines body ++ (last ∷ rest)) ++ tail))
        out
      ≡ instantiate_loop
          (pad rest fuel)
          (record p { if_level = down (up p.if_level); exit_if_level = up p.if_level })
          (rest ++ tail)
          out
passing_over fuel p first expression v body last rest tail out f wb g s b x y =
    let inner = record p {
      if_level = up p.if_level;
      exit_if_level = up p.if_level;
      skip = true ∷ p.skip;
    } in
    let level : up p.if_level ≡ p.if_level + 1 = up_small p.if_level (omega arith) in
    step_ok _ p inner first _ _ out []
      (starting p first expression _ (ok inner) f s (if_left p expression v x y))
    ∙ reshape fuel inner (lines body) (last ∷ rest) tail out
    ∙ skip_blocks (pad (last ∷ rest) fuel) inner body ((last ∷ rest) ++ tail) out wb refl
        (omega arith) (omega arith)
    ∙ step_ok _ inner _ last _ _ out [] (passing_endif inner last _ g refl (omega arith))
    ∙ ap
        (instantiate_loop (pad rest fuel)
          (record p { if_level = down (up p.if_level); exit_if_level = up p.if_level })
          (rest ++ tail))
        (append-nil out)
