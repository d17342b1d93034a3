-- ===== src/Timers/Signals.antt =====
-- utils/signals/timer.cpp: a run of the signals of the system's timer.
use kyua.Prelude.{
  ℕ, suc, ◌+◌, ◌≤◌, ◌<◌, ◌≡◌, refl, sym, ap, ◌∙◌, Bool, true, List, [], ◌∷◌, ◌++◌, arith, leb,
  length,
}
use kyua.Timers.{Outcome, returned, threw, aborted, System, Bucket, Globals, fire}
use kyua.Timers.Order.{is_valid}
use kyua.Timers.Due.{all_ids, due, later, later-is_valid, later-length, due-later}
use kyua.Timers.Alarm.{Accepts, rearmed, fire-after}

abbrev pub ran_before : List ℕ → Outcome (List ℕ × Globals) → Outcome (List ℕ × Globals)
ran_before ran (returned (more, g)) = returned (ran ++ more, g)
ran_before ran (threw (more, g)) = threw (ran ++ more, g)
ran_before ran aborted = aborted

abbrev pub after_fire :
    (Globals → Outcome (List ℕ × Globals)) → Outcome (List ℕ × Globals) → Outcome (List ℕ × Globals)
after_fire k (returned (ran, g)) = ran_before ran (k g)
after_fire k (threw r) = threw r
after_fire k aborted = aborted

-- The signals of the system's timer, each later than the activation by one and the number given,
-- with the timers they run.
unfoldable pub signals : System → List ℕ → Globals → Outcome (List ℕ × Globals)
signals s [] g = returned ([], g)
signals s (late ∷ lates) g =
    after_fire (λ h. signals s lates h) (fire s (g.timer_activation + 1 + late) g)

-- Whether the first deadline is not later than a time.
starts_by : ℕ → List Bucket → Bool
starts_by t [] = true
starts_by t (b ∷ bs) = leb b.deadline t

RunsAll : System → List ℕ → Globals → Type 0
RunsAll s lates g =
    (h : Globals) × (signals s lates g ≡ returned (all_ids g.all_timers, h)) × (h.all_timers ≡ [])

rearmed-all_timers : (now : ℕ) (bs : List Bucket) (g : Globals) → (rearmed now bs g).all_timers ≡ bs
rearmed-all_timers now [] g = refl
rearmed-all_timers now (b ∷ bs) g = refl

rearmed-starts_by :
    (now : ℕ) (bs : List Bucket) (g : Globals)
    → starts_by (rearmed now bs g).timer_activation (rearmed now bs g).all_timers ≡ true
unfolding starts_by
rearmed-starts_by now [] g = refl
rearmed-starts_by now (b ∷ bs) g = ground arith

later-shorter :
    (now act n : ℕ) (bs : List Bucket)
    → starts_by act bs ≡ true
    → act ≤ now
    → length bs ≤ suc n
    → length (later now bs) ≤ n
unfolding starts_by
later-shorter now act n [] b h k = omega arith
later-shorter now act n (c ∷ bs) b h k = ground (arith, later-length now bs)

length-zero : (bs : List Bucket) → length bs ≤ 0 → bs ≡ []
length-zero [] h = refl
length-zero (b ∷ bs) h = absurd (omega (arith, h))

-- One signal, and the rest from what it leaves.
signal-RunsAll :
    (s : System) (late : ℕ) (lates : List ℕ) (g : Globals)
    → is_valid g.all_timers ≡ true
    → Accepts s
    → RunsAll s lates (
        rearmed
          (g.timer_activation + 1 + late)
          (later (g.timer_activation + 1 + late) g.all_timers)
          g)
    → RunsAll s (late ∷ lates) g
unfolding RunsAll signals
signal-RunsAll s late lates g v a (h, ran, none_left) =
    let now : ℕ = g.timer_activation + 1 + late in
    let rest : List ℕ = all_ids (later now g.all_timers) in
    let left = rearmed-all_timers now (later now g.all_timers) g in
    (
      h,
      ap (after_fire (λ k. signals s lates k)) (fire-after s now g v (omega arith) a)
          ∙ ap (ran_before (all_ids (due now g.all_timers)))
              (ran ∙ ap (λ bs. returned (all_ids bs, h)) left)
          ∙ ap (λ ids. returned (ids, h)) (due-later now g.all_timers v),
      none_left,
    )

rearmed-shorter :
    (now n : ℕ) (bs : List Bucket) (g : Globals)
    → length bs ≤ n
    → length (rearmed now bs g).all_timers ≤ n
rearmed-shorter now n [] g h = h
rearmed-shorter now n (b ∷ bs) g h = h

rearmed-is_valid :
    (now : ℕ) (g : Globals)
    → is_valid g.all_timers ≡ true
    → is_valid (rearmed now (later now g.all_timers) g).all_timers ≡ true
rearmed-is_valid now g v =
    ap is_valid (rearmed-all_timers now (later now g.all_timers) g)
    ∙ later-is_valid now g.all_timers v

-- As many signals as there are deadlines are enough when the activation is not earlier than the
-- first of them.
signals-from :
    (s : System) (lates : List ℕ) (g : Globals)
    → is_valid g.all_timers ≡ true
    → Accepts s
    → starts_by g.timer_activation g.all_timers ≡ true
    → length g.all_timers ≤ length lates
    → RunsAll s lates g
unfolding RunsAll signals
signals-from s [] g v a b n =
    let e = length-zero g.all_timers n in (g, ap (λ bs. returned (all_ids bs, g)) (sym e), e)
signals-from s (late ∷ lates) g v a b n =
    let now : ℕ = g.timer_activation + 1 + late in
    let rest : List Bucket = later now g.all_timers in
    signal-RunsAll s late lates g v a (
      signals-from s lates (rearmed now rest g) (rearmed-is_valid now g v) a
        (rearmed-starts_by now rest g)
        (rearmed-shorter now (length lates) rest g
          (later-shorter now g.timer_activation (length lates) g.all_timers b (omega arith) n)))

-- Let the entries be in order and the system accept every delay. However late the signals come
-- after the activations they are set for, more signals than there are deadlines run every timer
-- exactly once, by increasing deadline, and leave none.
pub signals_lem :
    (s : System) (lates : List ℕ) (g : Globals)
    → is_valid g.all_timers ≡ true
    → Accepts s
    → length g.all_timers < length lates
    → (h : Globals) × (signals s lates g ≡ returned (all_ids g.all_timers, h)) × (h.all_timers ≡ [])
unfolding RunsAll
signals_lem s [] g v a n = absurd (omega (arith, n))
signals_lem s (late ∷ lates) g v a n =
    let now : ℕ = g.timer_activation + 1 + late in
    let rest : List Bucket = later now g.all_timers in
    signal-RunsAll s late lates g v a (
      signals-from s lates (rearmed now rest g) (rearmed-is_valid now g v) a
        (rearmed-starts_by now rest g)
        (rearmed-shorter now (length lates) rest g
          (omega (arith, later-length now g.all_timers, n))))
