-- ===== src/Examples/Timers.antt =====
-- The timers at concrete inputs.
use kyua.Prelude.{ℕ, ◌≡◌, refl, true, false, none, some, List, [], ◌∷◌, arith}
use kyua.Timers.{returned, System, Globals, fire, reprogram_system_timer}
use kyua.Timers.Alarm.{fire-at, IsCovered, reprogram_system_timer-IsCovered}
use kyua.Timers.Signals.{signals, signals_lem}
use kyua.Timers.Object.{Timer, World, sigalrm_handler}
use kyua.Timers.Callbacks.{sigalrm_handler-after}
use kyua.Timers.Reached.{
  Event, created_at, stopped, destroyed_at, signalled, run_events, leaves_order, run_events-order,
}

abbrev willing : System
willing = record { sigaction = true; setitimer = λ d. true }

-- Two timers at 10, and one at 20.
abbrev three_timers : Globals
three_timers = record {
  timer_activation = 10;
  all_timers =
      record { deadline = 10; timers = 1 ∷ 2 ∷ [] }
      ∷ record { deadline = 20; timers = 3 ∷ [] }
      ∷ [];
  armed = 5 ∷ [];
}

signals_lem_example :
    (h : Globals) × (signals willing (0 ∷ 7 ∷ 0 ∷ []) three_timers ≡ returned (1 ∷ 2 ∷ 3 ∷ [], h))
    × (h.all_timers ≡ [])
signals_lem_example =
    signals_lem willing (0 ∷ 7 ∷ 0 ∷ []) three_timers refl (λ d. refl) (omega arith)

fire-at_example :
    fire willing 10 three_timers
    ≡ returned (
      1 ∷ 2 ∷ [],
      record {
        timer_activation = 10;
        all_timers = record { deadline = 20; timers = 3 ∷ [] } ∷ [];
        armed = 5 ∷ [];
      },
    )
fire-at_example = fire-at willing 10 three_timers refl refl

reprogram_system_timer-IsCovered_example :
    IsCovered willing 12 three_timers (reprogram_system_timer willing 12 three_timers)
reprogram_system_timer-IsCovered_example =
    reprogram_system_timer-IsCovered willing 12 three_timers refl

abbrev pending : ℕ → ℕ → Timer
pending t when = record { address = t; when = when; programmed = true; fired = false }

abbrev three_pending : World
three_pending = record {
  globals = some three_timers;
  timers = pending 1 10 ∷ pending 2 10 ∷ pending 3 20 ∷ [];
  callbacks = [];
}

sigalrm_handler-after_example :
    sigalrm_handler willing 12 three_pending
    ≡ returned (record {
      globals = some (record {
        timer_activation = 20;
        all_timers = record { deadline = 20; timers = 3 ∷ [] } ∷ [];
        armed = 8 ∷ 5 ∷ [];
      });
      timers =
          record { address = 1; when = 10; programmed = true; fired = true }
          ∷ record { address = 2; when = 10; programmed = true; fired = true }
          ∷ pending 3 20
          ∷ [];
      callbacks = 1 ∷ 2 ∷ [];
    })
unfolding kyua.Timers.Object.find_timer
sigalrm_handler-after_example =
    sigalrm_handler-after willing 12 three_pending three_timers refl refl (omega arith) (λ d. refl)
      refl refl

abbrev some_events : List Event
some_events =
    created_at 1 100 10
    ∷ created_at 2 101 5
    ∷ signalled 107
    ∷ stopped 1 108 109
    ∷ destroyed_at 2 110 111
    ∷ []

abbrev no_timers : World
no_timers = record { globals = none; timers = []; callbacks = [] }

run_events-order_example : leaves_order (run_events willing some_events no_timers) ≡ true
run_events-order_example = run_events-order willing some_events no_timers refl
