-- ===== src/Tap/Counts.antt =====
-- What the parser of TAP output has counted at the end of its loop.
use kyua.Prelude.{
  ℕ, ◌+◌, subst, ◌≤◌, ◌≡◌, inl, inr, refl, sym, ap, ◌∙◌, Bool, true, false, Option, none, some,
  List, [], ◌∷◌, ◌++◌, arith, if_true, if_false, length, all, append-nil, Option-cases,
}
use kyua.Prelude.Bytes.{Bytes}
use kyua.Tap.{TapPlan, Tap}
use kyua.Tap.Lines.{Kind, passing, failing, bailing, other, invalid, planning, steps}

-- A line at which the parser goes on.
abbrev pub is_clean : Kind → Bool
is_clean bailing = false
is_clean invalid = false
is_clean k = true

abbrev pub passings : List Kind → ℕ
passings [] = 0
passings (passing ∷ ks) = passings ks + 1
passings (k ∷ ks) = passings ks

abbrev pub failings : List Kind → ℕ
failings [] = 0
failings (failing ∷ ks) = failings ks + 1
failings (k ∷ ks) = failings ks

abbrev pub plans : List Kind → List TapPlan
plans [] = []
plans (planning plan reason ∷ ks) = plan ∷ plans ks
plans (k ∷ ks) = plans ks

abbrev pub given : Option TapPlan → List TapPlan
given none = []
given (some plan) = plan ∷ []

-- The state `t` counts what the state `s` and the lines count.
pub record Counts (ks : List Kind) (s t : Tap) : Type 0 where
  pub clean : all is_clean ks ≡ true
  pub bailed : t.bailed_out ≡ false
  pub oks : t.ok_count ≡ s.ok_count + passings ks
  pub not_oks : t.not_ok_count ≡ s.not_ok_count + failings ks
  pub planned : given t.plan ≡ given s.plan ++ plans ks

steps_bailed : (ks : List Kind) (s : Tap) → s.bailed_out ≡ true → steps ks s ≡ some s
steps_bailed [] s h = refl
steps_bailed (k ∷ ks) s h = if_true s.bailed_out _ _ h

-- The state behind one more line counts that line too.
Counts-passing :
    (ks : List Kind) (s t : Tap)
    → Counts ks (record s { ok_count = s.ok_count + 1 }) t
    → Counts (passing ∷ ks) s t
Counts-passing ks s t c = record {
  clean = c.clean;
  bailed = c.bailed;
  oks = omega (arith, c.oks);
  not_oks = c.not_oks;
  planned = c.planned;
}

Counts-other : (ks : List Kind) (s t : Tap) → Counts ks s t → Counts (other ∷ ks) s t
Counts-other ks s t c = record {
  clean = c.clean;
  bailed = c.bailed;
  oks = c.oks;
  not_oks = c.not_oks;
  planned = c.planned;
}

Counts-failing :
    (ks : List Kind) (s t : Tap)
    → Counts ks (record s { not_ok_count = s.not_ok_count + 1 }) t
    → Counts (failing ∷ ks) s t
Counts-failing ks s t c = record {
  clean = c.clean;
  bailed = c.bailed;
  oks = c.oks;
  not_oks = omega (arith, c.not_oks);
  planned = c.planned;
}

Counts-planning :
    (ks : List Kind) (s t : Tap) (plan : TapPlan) (reason : Bytes)
    → s.plan ≡ none
    → Counts ks (record s { plan = some plan; all_skipped_reason = reason }) t
    → Counts (planning plan reason ∷ ks) s t
Counts-planning ks s t plan reason e c = record {
  clean = c.clean;
  bailed = c.bailed;
  oks = c.oks;
  not_oks = c.not_oks;
  planned = c.planned ∙ sym (ap (λ o. given o ++ (plan ∷ plans ks)) e);
}

-- A loop that returns without a bail-out has counted its lines.
pub steps-Counts :
    (ks : List Kind) (s t : Tap)
    → s.bailed_out ≡ false
    → steps ks s ≡ some t
    → t.bailed_out ≡ false
    → Counts ks s t
steps-Counts [] s t h e k =
    let same : s ≡ t = cc in
    subst (Counts [] s) same (record {
      clean = refl;
      bailed = h;
      oks = omega arith;
      not_oks = omega arith;
      planned = sym (append-nil (given s.plan));
    })
steps-Counts (passing ∷ ks) s t h e k =
    Counts-passing ks s t (steps-Counts ks _ t h (sym (if_false s.bailed_out _ _ h) ∙ e) k)
steps-Counts (failing ∷ ks) s t h e k =
    Counts-failing ks s t (steps-Counts ks _ t h (sym (if_false s.bailed_out _ _ h) ∙ e) k)
steps-Counts (bailing ∷ ks) s t h e k =
    let stopped =
      sym (steps_bailed ks (record s { bailed_out = true }) refl)
      ∙ sym (if_false s.bailed_out _ _ h)
      ∙ e in
    cc
steps-Counts (other ∷ ks) s t h e k =
    Counts-other ks s t (steps-Counts ks s t h (sym (if_false s.bailed_out _ _ h) ∙ e) k)
steps-Counts (invalid ∷ ks) s t h e k = cc (sym (if_false s.bailed_out _ _ h) ∙ e)
steps-Counts (planning plan reason ∷ ks) s t h e k = elim (Option-cases s.plan) [
  | inl n ↦
      Counts-planning ks s t plan reason n
        (steps-Counts ks _ t h (rw n at (sym (if_false s.bailed_out _ _ h) ∙ e)) k)
  | inr (old, n) ↦ cc (rw n at (sym (if_false s.bailed_out _ _ h) ∙ e))
]

-- Clean lines with one plan at most are counted.
pub Counts-steps :
    (ks : List Kind) (s : Tap)
    → s.bailed_out ≡ false
    → all is_clean ks ≡ true
    → length (given s.plan ++ plans ks) ≤ 1
    → (t : Tap) × (steps ks s ≡ some t) × Counts ks s t
Counts-steps [] s h a l = (
  s,
  refl,
  record {
    clean = refl;
    bailed = h;
    oks = omega arith;
    not_oks = omega arith;
    planned = sym (append-nil (given s.plan));
  },
)
Counts-steps (passing ∷ ks) s h a l =
    let (t, e, c) = Counts-steps ks (record s { ok_count = s.ok_count + 1 }) h a l in
    (t, if_false s.bailed_out _ _ h ∙ e, Counts-passing ks s t c)
Counts-steps (failing ∷ ks) s h a l =
    let (t, e, c) = Counts-steps ks (record s { not_ok_count = s.not_ok_count + 1 }) h a l in
    (t, if_false s.bailed_out _ _ h ∙ e, Counts-failing ks s t c)
Counts-steps (bailing ∷ ks) s h a l = cc
Counts-steps (invalid ∷ ks) s h a l = cc
Counts-steps (other ∷ ks) s h a l =
    let (t, e, c) = Counts-steps ks s h a l in
    (t, if_false s.bailed_out _ _ h ∙ e, Counts-other ks s t c)
Counts-steps (planning plan reason ∷ ks) s h a l = elim (Option-cases s.plan) [
  | inl n ↦
      let few : length (plan ∷ plans ks) ≤ 1 = rw n at l in
      let (t, e, c) =
        Counts-steps ks (record s { plan = some plan; all_skipped_reason = reason }) h a few in
      (t, if_false s.bailed_out _ _ h ∙ rw n e, Counts-planning ks s t plan reason n c)
  | inr (old, n) ↦ let many : length (old ∷ plan ∷ plans ks) ≤ 1 = rw n at l in absurd (omega arith)
]
