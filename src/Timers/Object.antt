-- ===== src/Timers/Object.antt =====
-- utils/signals/timer.cpp: the class `timer` and the handler of SIGALRM over the global state.
use kyua.Prelude.{
  ℕ, ◌+◌, Bool, true, false, not, Option, none, some, List, [], ◌∷◌, ◌++◌, map, ◌==◌, ltb,
  if◌then◌else◌, filter,
}
use kyua.Timers.{
  Outcome, returned, threw, aborted, System, Globals, global_state, program_new, unprogram_globals,
  fire,
}

-- A timer: its address and the fields of `timer::impl`.
pub record Timer : Type 0 where
  pub address : ℕ
  pub when : ℕ
  pub programmed : Bool
  pub fired : Bool

-- The program: `globals`, the timers that exist, and the addresses of the timers whose
-- `callback` was called, in order.
pub record World : Type 0 where
  pub globals : Option Globals
  pub timers : List Timer
  pub callbacks : List ℕ

unfoldable pub find_timer : ℕ → List Timer → Option Timer
find_timer t [] = none
find_timer t (o ∷ os) = let rest = find_timer t os in if o.address == t then some o else rest

abbrev pub set_fired : ℕ → List Timer → List Timer
set_fired t = map (λ o. if o.address == t then record o { fired = true } else o)

abbrev pub unset_programmed : ℕ → List Timer → List Timer
unset_programmed t = map (λ o. if o.address == t then record o { programmed = false } else o)

abbrev pub with_globals : Option Globals → World → World
with_globals g w = record w { globals = g }

-- `do_fired`, through `invoke_do_fired`. A call on a timer that no longer exists is undefined,
-- and stands with the aborts.
unfoldable pub do_fired : ℕ → World → Outcome World
do_fired t w = elim (find_timer t w.timers) [
  | none ↦ aborted
  | some o ↦
      if o.fired
      then aborted
      else returned (record {
        globals = w.globals;
        timers = set_fired t w.timers;
        callbacks = w.callbacks ++ (t ∷ []);
      })
]

-- The loop of `fire` that invokes the timers.
abbrev pub and_then : (World → Outcome World) → Outcome World → Outcome World
and_then k (returned w) = k w
and_then k (threw w) = threw w
and_then k aborted = aborted

unfoldable pub invoke_all : List ℕ → World → Outcome World
invoke_all [] w = returned w
invoke_all (t ∷ ts) w = and_then (λ v. invoke_all ts v) (do_fired t w)

-- `sigalrm_handler`.
abbrev pub run_fired : World → Outcome (List ℕ × Globals) → Outcome World
run_fired w (returned (ts, g)) = invoke_all ts (with_globals (some g) w)
run_fired w (threw (ts, g)) = threw (with_globals (some g) w)
run_fired w aborted = aborted

unfoldable pub signal_globals : System → ℕ → World → Option Globals → Outcome World
signal_globals s now w none = aborted
signal_globals s now w (some g) = run_fired w (fire s now g)

unfoldable pub sigalrm_handler : System → ℕ → World → Outcome World
sigalrm_handler s now w = signal_globals s now w w.globals

-- The constructor of `timer` at an address. A timer whose constructor throws does not exist.
abbrev pub created : World → Timer → Outcome Globals → Outcome World
created w o (returned g) =
    returned (record { globals = some g; timers = o ∷ w.timers; callbacks = w.callbacks })
created w o (threw g) = threw (with_globals (some g) w)
created w o aborted = aborted

abbrev pub created_first : World → Timer → Outcome (Option Globals) → Outcome World
created_first w o (returned g) =
    returned (record { globals = g; timers = o ∷ w.timers; callbacks = w.callbacks })
created_first w o (threw g) = threw w
created_first w o aborted = aborted

unfoldable pub create : System → ℕ → Timer → World → Option Globals → Outcome World
create s now o w none = created_first w o (global_state s o.when o.address now)
create s now o w (some g) = created w o (program_new s o.when o.address now g)

unfoldable pub new_timer : System → ℕ → ℕ → ℕ → World → Outcome World
new_timer s t now delta w =
    create s now (record { address = t; when = now + delta; programmed = true; fired = false }) w
      w.globals

-- The end of `timer::unprogram`: the timer is no longer programmed, and is fired here when it
-- has expired without its signal.
unfoldable pub unprogrammed : Timer → ℕ → World → Outcome (Option Globals) → Outcome World
unprogrammed o now w (returned g) =
    let v : World = record {
      globals = g;
      timers = unset_programmed o.address w.timers;
      callbacks = w.callbacks;
    } in
    if o.fired then returned v else if ltb o.when now then do_fired o.address v else returned v
unprogrammed o now w (threw g) = threw (with_globals g w)
unprogrammed o now w aborted = aborted

-- `timer::unprogram` at the times of its two readings of the clock.
unfoldable pub unprogram_on : System → ℕ → ℕ → Timer → World → Option Globals → Outcome World
unprogram_on s now after o w none = aborted
unprogram_on s now after o w (some g) =
    unprogrammed o after w (unprogram_globals s o.when o.address now g)

unfoldable pub unprogram : System → ℕ → ℕ → Timer → World → Outcome World
unprogram s now after o w =
    if not (o.programmed) then returned w else unprogram_on s now after o w w.globals

-- The destructor of `timer`: an error of `unprogram` reaches an UNREACHABLE.
abbrev pub destroyed : ℕ → Outcome World → Outcome World
destroyed t (returned w) = returned (record {
  globals = w.globals;
  timers = filter (λ o. not (o.address == t)) w.timers;
  callbacks = w.callbacks;
})
destroyed t (threw w) = aborted
destroyed t aborted = aborted

unfoldable pub destroy_timer : System → ℕ → ℕ → Timer → World → Outcome World
destroy_timer s now after o w = destroyed o.address (unprogram s now after o w)
