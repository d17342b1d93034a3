-- ===== src/Timers/Callbacks.antt =====
-- utils/signals/timer.cpp: which callbacks a signal calls.
use kyua.Prelude.{
  ℕ, ◌<◌, ◌≡◌, inl, inr, refl, sym, ap, ap₂, ◌∙◌, Bool, true, false, not, ◌&&◌, Option, none, some,
  List, [], ◌∷◌, ◌++◌, map, ◌==◌, arith, append_assoc, append-nil, Bool-cases, all, if◌then◌else◌,
}
use kyua.Timers.{returned, System, Globals, contains}
use kyua.Timers.Order.{is_valid}
use kyua.Timers.Due.{all_ids, due, later}
use kyua.Timers.Alarm.{Accepts, rearmed, fire-after}
use kyua.Timers.Object.{
  Timer, World, find_timer, set_fired, do_fired, invoke_all, with_globals, and_then, run_fired,
  sigalrm_handler, signal_globals,
}

-- Whether a timer exists that has not fired.
abbrev pub is_pending_in : Option Timer → Bool
is_pending_in none = false
is_pending_in (some o) = not (o.fired)

abbrev pub is_pending : List Timer → ℕ → Bool
is_pending os t = is_pending_in (find_timer t os)

abbrev pub are_distinct : List ℕ → Bool
are_distinct [] = true
are_distinct (t ∷ ts) = not (contains t ts) && are_distinct ts

-- The timers after those of some addresses have fired.
abbrev pub mark : List ℕ → Timer → Timer
mark ts o = if contains o.address ts then record o { fired = true } else o

is_pending-set_fired :
    (t u : ℕ) (os : List Timer) → (t == u) ≡ false → is_pending (set_fired t os) u ≡ is_pending os u
unfolding find_timer
is_pending-set_fired t u [] h = refl
is_pending-set_fired t u (o ∷ os) h = ground (arith, is_pending-set_fired t u os h)

all-is_pending :
    (t : ℕ) (us : List ℕ) (os : List Timer)
    → contains t us ≡ false
    → all (is_pending os) us ≡ true
    → all (is_pending (set_fired t os)) us ≡ true
all-is_pending t [] os h k = refl
all-is_pending t (u ∷ us) os h k =
    ground (arith, all-is_pending t us os, is_pending-set_fired t u os)

mark-fired :
    (t : ℕ) (ts : List ℕ) (o : Timer)
    → mark ts (if o.address == t then record o { fired = true } else o) ≡ mark (t ∷ ts) o
mark-fired t ts o = elim (Bool-cases (o.address == t)) [
  | inl e ↦
      (rw e (elim (Bool-cases (contains o.address ts)) [ inl c ↦ rw c refl | inr c ↦ rw c refl ]))
  | inr e ↦ rw e refl
]

mark-set_fired :
    (t : ℕ) (ts : List ℕ) (os : List Timer)
    → map (mark ts) (set_fired t os) ≡ map (mark (t ∷ ts)) os
mark-set_fired t ts [] = refl
mark-set_fired t ts (o ∷ os) = ap₂ (λ p q. p ∷ q) (mark-fired t ts o) (mark-set_fired t ts os)

do_fired-pending :
    (t : ℕ) (w : World)
    → is_pending w.timers t ≡ true
    → do_fired t w
      ≡ returned (record w { timers = set_fired t w.timers; callbacks = w.callbacks ++ (t ∷ []) })
unfolding do_fired
do_fired-pending t w h = ground arith

mark-nil : (os : List Timer) → map (mark []) os ≡ os
mark-nil [] = refl
mark-nil (o ∷ os) = ap (◌∷◌ o) (mark-nil os)

invoke_all-pending :
    (ts : List ℕ) (w : World)
    → are_distinct ts ≡ true
    → all (is_pending w.timers) ts ≡ true
    → invoke_all ts w
      ≡ returned (record w { timers = map (mark ts) w.timers; callbacks = w.callbacks ++ ts })
unfolding invoke_all
invoke_all-pending [] w d h =
    ap₂ (λ os cs. returned (record w { timers = os; callbacks = cs })) (sym (mark-nil w.timers))
      (sym (append-nil w.callbacks))
invoke_all-pending (t ∷ ts) w d h =
    ap (and_then (λ v. invoke_all ts v)) (do_fired-pending t w (ground arith))
    ∙ (invoke_all-pending ts
          (record w { timers = set_fired t w.timers; callbacks = w.callbacks ++ (t ∷ []) })
          (ground arith) (all-is_pending t ts w.timers (ground arith) (ground arith))
        ∙ ap₂ (λ os cs. returned (record w { timers = os; callbacks = cs }))
            (mark-set_fired t ts w.timers) (append_assoc w.callbacks (t ∷ []) ts))

-- Let the entries be in order, the timers that are due be distinct and each exist and not have
-- fired, and the system accept every delay. A signal after the activation then calls the
-- callbacks of the timers that are due, each once and by increasing deadline, marks those and
-- no others as fired, and sets the system's timer to the first deadline that remains.
pub sigalrm_handler-after :
    (s : System) (now : ℕ) (w : World) (g : Globals)
    → w.globals ≡ some g
    → is_valid g.all_timers ≡ true
    → g.timer_activation < now
    → Accepts s
    → are_distinct (all_ids (due now g.all_timers)) ≡ true
    → all (is_pending w.timers) (all_ids (due now g.all_timers)) ≡ true
    → sigalrm_handler s now w
      ≡ returned (record {
        globals = some (rearmed now (later now g.all_timers) g);
        timers = map (mark (all_ids (due now g.all_timers))) w.timers;
        callbacks = w.callbacks ++ all_ids (due now g.all_timers);
      })
unfolding sigalrm_handler signal_globals
sigalrm_handler-after s now w g e v a k d p =
    ap (signal_globals s now w) e
    ∙ ap (run_fired w) (fire-after s now g v a k)
    ∙ invoke_all-pending (all_ids (due now g.all_timers))
        (with_globals (some (rearmed now (later now g.all_timers) g)) w) d p
