-- ===== src/Timers/Reached.antt =====
-- utils/signals/timer.cpp: what holds of `_all_timers` after any calls and signals.
use kyua.Prelude.{ℕ, ◌≡◌, refl, Bool, true, Option, none, some, List, [], ◌∷◌, arith}
use kyua.Timers.{
  Outcome, returned, threw, aborted, System, Globals, global_state, program_new, unprogram_globals,
  fire,
}
use kyua.Timers.Object.{
  Timer, World, unset_programmed, find_timer, do_fired, invoke_all, with_globals, and_then,
  run_fired, sigalrm_handler, created, created_first, create, new_timer, signal_globals,
  unprogram_on, unprogrammed, unprogram, destroyed, destroy_timer,
}
use kyua.Timers.Kept.{
  is_ordered, keeps, keeps_option, keeps_fired, program_new-keeps, global_state-keeps,
  unprogram_globals-keeps, fire-keeps,
}

-- A call by the program, or a signal, with the times the clock shows. A timer is named by its
-- address.
pub data Event : Type 0 where
  created_at : ℕ → ℕ → ℕ → Event
  stopped : ℕ → ℕ → ℕ → Event
  destroyed_at : ℕ → ℕ → ℕ → Event
  signalled : ℕ → Event

abbrev on_timer : (Timer → World → Outcome World) → World → Option Timer → Outcome World
on_timer f w none = aborted
on_timer f w (some o) = f o w

unfoldable pub step : System → Event → World → Outcome World
step s (created_at t now delta) w = new_timer s t now delta w
step s (stopped t now after) w = on_timer (unprogram s now after) w (find_timer t w.timers)
step s (destroyed_at t now after) w = on_timer (destroy_timer s now after) w (find_timer t w.timers)
step s (signalled now) w = sigalrm_handler s now w

-- The events in order. An exception is caught by the caller, and what was changed remains.
abbrev after_step : (World → Outcome World) → Outcome World → Outcome World
after_step k (returned w) = k w
after_step k (threw w) = k w
after_step k aborted = aborted

unfoldable pub run_events : System → List Event → World → Outcome World
run_events s [] w = returned w
run_events s (e ∷ es) w = after_step (λ v. run_events s es v) (step s e w)

abbrev pub leaves_order : Outcome World → Bool
leaves_order (returned w) = is_ordered w.globals
leaves_order (threw w) = is_ordered w.globals
leaves_order aborted = true

-- The calls on the timers keep the global state.
do_fired-order :
    (t : ℕ) (w : World) → is_ordered w.globals ≡ true → leaves_order (do_fired t w) ≡ true
unfolding do_fired
do_fired-order t w h = ground arith

and_then-order :
    (k : World → Outcome World) (o : Outcome World)
    → ((w : World) → is_ordered w.globals ≡ true → leaves_order (k w) ≡ true)
    → leaves_order o ≡ true
    → leaves_order (and_then k o) ≡ true
and_then-order k (returned w) f h = f w h
and_then-order k (threw w) f h = h
and_then-order k aborted f h = refl

invoke_all-order :
    (ts : List ℕ) (w : World) → is_ordered w.globals ≡ true → leaves_order (invoke_all ts w) ≡ true
unfolding invoke_all
invoke_all-order [] w h = h
invoke_all-order (t ∷ ts) w h =
    and_then-order _ (do_fired t w) (invoke_all-order ts) (do_fired-order t w h)

run_fired-order :
    (w : World) (o : Outcome (List ℕ × Globals))
    → keeps_fired o ≡ true
    → leaves_order (run_fired w o) ≡ true
run_fired-order w (returned (ts, g)) h = invoke_all-order ts (with_globals (some g) w) h
run_fired-order w (threw (ts, g)) h = h
run_fired-order w aborted h = refl

created-order :
    (w : World) (o : Timer) (r : Outcome Globals)
    → keeps r ≡ true
    → leaves_order (created w o r) ≡ true
created-order w o (returned g) h = h
created-order w o (threw g) h = h
created-order w o aborted h = refl

created_first-order :
    (w : World) (o : Timer) (r : Outcome (Option Globals))
    → is_ordered w.globals ≡ true
    → keeps_option r ≡ true
    → leaves_order (created_first w o r) ≡ true
created_first-order w o (returned g) k h = h
created_first-order w o (threw g) k h = k
created_first-order w o aborted k h = refl

unprogrammed-order :
    (o : Timer) (now : ℕ) (w : World) (r : Outcome (Option Globals))
    → keeps_option r ≡ true
    → leaves_order (unprogrammed o now w r) ≡ true
unfolding unprogrammed
unprogrammed-order o now w (returned g) h = ground (
  arith,
  do_fired-order o.address (record {
    globals = g;
    timers = unset_programmed o.address w.timers;
    callbacks = w.callbacks;
  }),
)
unprogrammed-order o now w (threw g) h = h
unprogrammed-order o now w aborted h = refl

destroyed-order :
    (t : ℕ) (o : Outcome World) → leaves_order o ≡ true → leaves_order (destroyed t o) ≡ true
destroyed-order t (returned w) h = h
destroyed-order t (threw w) h = refl
destroyed-order t aborted h = refl

create-order :
    (s : System) (now : ℕ) (o : Timer) (w : World) (g : Option Globals)
    → is_ordered w.globals ≡ true
    → is_ordered g ≡ true
    → leaves_order (create s now o w g) ≡ true
unfolding create
create-order s now o w none k h =
    created_first-order w o (global_state s o.when o.address now) k
      (global_state-keeps s o.when o.address now)
create-order s now o w (some g) k h =
    created-order w o (program_new s o.when o.address now g)
      (program_new-keeps s o.when o.address now g h)

unprogram_on-order :
    (s : System) (now after : ℕ) (o : Timer) (w : World) (g : Option Globals)
    → is_ordered g ≡ true
    → leaves_order (unprogram_on s now after o w g) ≡ true
unfolding unprogram_on
unprogram_on-order s now after o w none h = refl
unprogram_on-order s now after o w (some g) h =
    unprogrammed-order o after w (unprogram_globals s o.when o.address now g)
      (unprogram_globals-keeps s o.when o.address now g h)

unprogram-order :
    (s : System) (now after : ℕ) (o : Timer) (w : World)
    → is_ordered w.globals ≡ true
    → leaves_order (unprogram s now after o w) ≡ true
unfolding unprogram
unprogram-order s now after o w h = ground (arith, unprogram_on-order s now after o w w.globals)

signal_globals-order :
    (s : System) (now : ℕ) (w : World) (g : Option Globals)
    → is_ordered g ≡ true
    → leaves_order (signal_globals s now w g) ≡ true
unfolding signal_globals
signal_globals-order s now w none h = refl
signal_globals-order s now w (some g) h = run_fired-order w (fire s now g) (fire-keeps s now g h)

on_timer-order :
    (f : Timer → World → Outcome World) (w : World) (o : Option Timer)
    → ((o : Timer) → leaves_order (f o w) ≡ true)
    → leaves_order (on_timer f w o) ≡ true
on_timer-order f w none h = refl
on_timer-order f w (some o) h = h o

step-order :
    (s : System) (e : Event) (w : World)
    → is_ordered w.globals ≡ true
    → leaves_order (step s e w) ≡ true
unfolding step new_timer sigalrm_handler destroy_timer
step-order s (created_at t now delta) w h = create-order s now _ w w.globals h h
step-order s (stopped t now after) w h =
    on_timer-order (unprogram s now after) w (find_timer t w.timers)
      (λ o. unprogram-order s now after o w h)
step-order s (destroyed_at t now after) w h =
    on_timer-order (destroy_timer s now after) w (find_timer t w.timers) (λ o.
      destroyed-order o.address (unprogram s now after o w) (unprogram-order s now after o w h))
step-order s (signalled now) w h = signal_globals-order s now w w.globals h

after_step-order :
    (k : World → Outcome World) (o : Outcome World)
    → ((w : World) → is_ordered w.globals ≡ true → leaves_order (k w) ≡ true)
    → leaves_order o ≡ true
    → leaves_order (after_step k o) ≡ true
after_step-order k (returned w) f h = f w h
after_step-order k (threw w) f h = f w h
after_step-order k aborted f h = refl

-- From a program whose entries are in order, as they are without a timer, after any calls and
-- signals at any times and with any answers of the system, the exceptions caught, the timestamps
-- of `_all_timers` increase and none of its entries is empty, or the program has aborted.
pub run_events-order :
    (s : System) (es : List Event) (w : World)
    → is_ordered w.globals ≡ true
    → leaves_order (run_events s es w) ≡ true
unfolding run_events
run_events-order s [] w h = h
run_events-order s (e ∷ es) w h =
    after_step-order _ (step s e w) (run_events-order s es) (step-order s e w h)
