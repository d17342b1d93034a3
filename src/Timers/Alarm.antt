-- ===== src/Timers/Alarm.antt =====
-- utils/signals/timer.cpp: what the system's timer is set to, over a run of its signals.
use kyua.Prelude.{
  ℕ, ◌-◌, ◌≤◌, ◌<◌, ◌≡◌, refl, ap, ◌∙◌, ◌⊎◌, inl, inr, Bool-cases, Bool, true, false, ◌&&◌, ◌||◌,
  List, [], ◌∷◌, arith, ltb, leb, all,
}
use kyua.Timers.{
  Outcome, returned, threw, aborted, System, Bucket, Globals, NextActivation, next_at,
  nothing_to_do, empty_bucket, next_activation, arm, reprogram_system_timer, reprogram_to, fire,
  fire_pruned, to_invoke, with_all_timers,
}
use kyua.Timers.Order.{all_after, is_valid}
use kyua.Timers.Due.{
  all_ids, due, later, later-is_valid, later-all_after_self,
  compute_timers_to_run_and_prune_old_lem,
}

-- The deadline that `next_activation` finds in entries that are all later.
head_activation : List Bucket → NextActivation
head_activation [] = nothing_to_do
head_activation (b ∷ bs) = next_at b.deadline

next_activation-all_after :
    (now : ℕ) (bs : List Bucket)
    → is_valid bs ≡ true
    → all_after now bs ≡ true
    → next_activation now bs ≡ head_activation bs
unfolding next_activation head_activation
next_activation-all_after now [] h k = refl
next_activation-all_after now (b ∷ bs) h k = ground arith

-- Whether an activation is not in the past and not later than any deadline still to come, if
-- there is one.
abbrev pub covers : ℕ → ℕ → List Bucket → Bool
covers now act = all (λ b. ltb b.deadline now || (leb now act && leb act b.deadline))

-- The state is as it was, or the system's timer was set for the activation of the new one.
abbrev pub IsSetFrom : ℕ → Globals → Globals → Type 0
IsSetFrom now g q =
    (q ≡ g)
    ⊎ (q ≡ record g {
      timer_activation = q.timer_activation;
      armed = (q.timer_activation - now) ∷ g.armed;
    })

-- What a reprogramming leaves: a return covers the deadlines to come, and an exception is one
-- of setitimer(2), for an activation that covers them, and changes nothing.
abbrev pub IsCovered : System → ℕ → Globals → Outcome Globals → Type 0
IsCovered s now g (returned q) =
    (covers now q.timer_activation g.all_timers ≡ true) × IsSetFrom now g q
IsCovered s now g (threw q) =
    (q ≡ g) × ((n : ℕ) × (covers now n g.all_timers ≡ true) × (s.setitimer (n - now) ≡ false))
IsCovered s now g aborted = true ≡ false

covers-after :
    (now act t : ℕ) (bs : List Bucket)
    → now ≤ act
    → act ≤ t
    → all_after t bs ≡ true
    → covers now act bs ≡ true
covers-after now act t [] w h k = refl
covers-after now act t (b ∷ bs) w h k = ground (arith, covers-after now act t bs w h)

-- What the search finds covers the deadlines to come; without a find there are none, and the
-- search never meets an empty entry.
abbrev finds : ℕ → List Bucket → NextActivation → Bool
finds now bs (next_at n) = leb now n && covers now n bs
finds now bs nothing_to_do = all (λ b. ltb b.deadline now) bs
finds now bs empty_bucket = false

finds-behind :
    (now : ℕ) (b : Bucket) (bs : List Bucket) (r : NextActivation)
    → ltb b.deadline now ≡ true
    → finds now bs r ≡ true
    → finds now (b ∷ bs) r ≡ true
finds-behind now b bs (next_at n) h k = ground arith
finds-behind now b bs nothing_to_do h k = ground arith
finds-behind now b bs empty_bucket h k = ground arith

next_activation-finds :
    (now : ℕ) (bs : List Bucket) → is_valid bs ≡ true → finds now bs (next_activation now bs) ≡ true
unfolding next_activation
next_activation-finds now [] h = refl
next_activation-finds now (b ∷ bs) h = ground (
  arith,
  next_activation-finds now bs,
  finds-behind now b bs (next_activation now bs),
  covers-after now b.deadline b.deadline bs,
)

covers-none :
    (now act : ℕ) (bs : List Bucket)
    → all (λ b. ltb b.deadline now) bs ≡ true
    → covers now act bs ≡ true
covers-none now act [] h = refl
covers-none now act (b ∷ bs) h = ground (arith, covers-none now act bs)

covers-earlier :
    (now act n : ℕ) (bs : List Bucket)
    → now ≤ act
    → act ≤ n
    → covers now n bs ≡ true
    → covers now act bs ≡ true
covers-earlier now act n [] w h k = refl
covers-earlier now act n (b ∷ bs) w h k = ground (arith, covers-earlier now act n bs w h)

arm-IsCovered :
    (s : System) (now n : ℕ) (g : Globals)
    → covers now n g.all_timers ≡ true
    → IsCovered s now g (arm s now n g)
unfolding arm
arm-IsCovered s now n g k = elim (Bool-cases (s.setitimer (n - now))) [
  | inl e ↦ rw (arm, e) (k, inr refl)
  | inr e ↦ rw (arm, e) (refl, (n, k, e))
]

reprogram_to-IsCovered :
    (s : System) (now : ℕ) (g : Globals) (r : NextActivation)
    → finds now g.all_timers r ≡ true
    → IsCovered s now g (reprogram_to s now g r)
unfolding reprogram_to
reprogram_to-IsCovered s now g (next_at n) k =
    let found : (now ≤ n) × (covers now n g.all_timers ≡ true) = ground arith in
    elim (Bool-cases (ltb n g.timer_activation)) [
      | inl e ↦ rw (reprogram_to, e) (arm-IsCovered s now n g (found.1))
      | inr e ↦ elim (Bool-cases (ltb g.timer_activation now)) [
        | inl a ↦ rw (reprogram_to, e, a) (arm-IsCovered s now n g (found.1))
        | inr a ↦
            rw (reprogram_to, e, a)
              (
                covers-earlier now g.timer_activation n g.all_timers (ground arith) (ground arith)
                    (found.1),
                inl refl,
              )
      ]
    ]
reprogram_to-IsCovered s now g nothing_to_do k =
    (covers-none now g.timer_activation g.all_timers k, inl refl)
reprogram_to-IsCovered s now g empty_bucket k = absurd cc

-- `reprogram_system_timer` on entries in order passes its PREs. When it returns and deadlines
-- are still to come, the activation is between now and each of these; the state is as it was,
-- or the system's timer was set to the time until the activation. When it throws, setitimer(2)
-- refused the time until such an activation, and the state is as it was.
pub reprogram_system_timer-IsCovered :
    (s : System) (now : ℕ) (g : Globals)
    → is_valid g.all_timers ≡ true
    → IsCovered s now g (reprogram_system_timer s now g)
unfolding reprogram_system_timer
reprogram_system_timer-IsCovered s now g h =
    reprogram_to-IsCovered s now g _ (next_activation-finds now g.all_timers h)

-- The state that a signal leaves when it sets the system's timer again.
abbrev pub rearmed : ℕ → List Bucket → Globals → Globals
rearmed now [] g = record {
  timer_activation = g.timer_activation;
  all_timers = [];
  armed = g.armed;
}
rearmed now (b ∷ bs) g = record {
  timer_activation = b.deadline;
  all_timers = b ∷ bs;
  armed = (b.deadline - now) ∷ g.armed;
}

-- Whether the system accepts every delay.
abbrev pub Accepts : System → Type 0
Accepts s = (d : ℕ) → s.setitimer d ≡ true

reprogram-later :
    (s : System) (now : ℕ) (g : Globals) (bs : List Bucket)
    → is_valid bs ≡ true
    → all_after now bs ≡ true
    → g.timer_activation < now
    → Accepts s
    → reprogram_system_timer s now (with_all_timers bs g) ≡ returned (rearmed now bs g)
unfolding reprogram_system_timer reprogram_to arm next_activation
reprogram-later s now g [] h k a w = refl
reprogram-later s now g (b ∷ bs) h k a w = ground (arith, w (b.deadline - now))

-- A signal after the activation runs the timers that are due, in order, keeps the others, and
-- sets the system's timer to the first of those.
pub fire-after :
    (s : System) (now : ℕ) (g : Globals)
    → is_valid g.all_timers ≡ true
    → g.timer_activation < now
    → Accepts s
    → fire s now g
      ≡ returned (all_ids (due now g.all_timers), rearmed now (later now g.all_timers) g)
unfolding fire fire_pruned
fire-after s now g h a w =
    ap (fire_pruned s now g) (compute_timers_to_run_and_prune_old_lem now g.all_timers h)
    ∙ ap (to_invoke (all_ids (due now g.all_timers))) (
        reprogram-later s now g (later now g.all_timers) (later-is_valid now g.all_timers h)
          (later-all_after_self now g.all_timers) a w)

reprogram-at :
    (s : System) (now : ℕ) (g : Globals) (bs : List Bucket)
    → is_valid bs ≡ true
    → all_after now bs ≡ true
    → g.timer_activation ≡ now
    → reprogram_system_timer s now (with_all_timers bs g) ≡ returned (with_all_timers bs g)
unfolding reprogram_system_timer reprogram_to arm next_activation
reprogram-at s now g [] h k a = refl
reprogram-at s now g (b ∷ bs) h k a = ground arith

-- A signal at the very time of the activation runs what is due, but does not set the system's
-- timer, whatever remains.
pub fire-at :
    (s : System) (now : ℕ) (g : Globals)
    → is_valid g.all_timers ≡ true
    → g.timer_activation ≡ now
    → fire s now g
      ≡ returned (all_ids (due now g.all_timers), with_all_timers (later now g.all_timers) g)
unfolding fire fire_pruned
fire-at s now g h a =
    ap (fire_pruned s now g) (compute_timers_to_run_and_prune_old_lem now g.all_timers h)
    ∙ ap (to_invoke (all_ids (due now g.all_timers))) (
        reprogram-at s now g (later now g.all_timers) (later-is_valid now g.all_timers h)
          (later-all_after_self now g.all_timers) a)
