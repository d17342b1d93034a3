-- ===== src/Timers.antt =====
-- utils/signals/timer.cpp: timers over the one interval timer of the system. A timer is named by
-- its address, a timestamp is a number of microseconds, and the time of the clock is an argument.
use kyua.Prelude.{
  ℕ, ◌+◌, ◌-◌, Bool, not, Option, none, some, List, [], ◌∷◌, ◌++◌, ◌==◌, ltb, leb, if◌then◌else◌,
  filter, any, is_empty,
}
pub mod Order
pub mod Due
pub mod Alarm
pub mod Signals
pub mod Object
pub mod Callbacks
pub mod Kept
pub mod Reached

-- How a call ends: it returns, it throws `system_error`, or a PRE or an INV fails, which aborts.
-- What it has changed remains when it throws.
pub data Outcome {ℓ} (A : Type ℓ) : Type ℓ where
  returned : A → Outcome A
  threw : A → Outcome A
  aborted : Outcome A

-- What the calls of the system answer, a parameter of the model: whether the handler of SIGALRM
-- can be installed, and whether `setitimer` accepts a number of microseconds.
pub record System : Type 0 where
  pub sigaction : Bool
  pub setitimer : ℕ → Bool

-- An entry of `_all_timers`: the timers of one timestamp, a set ordered by address.
pub record Bucket : Type 0 where
  pub deadline : ℕ
  pub timers : List ℕ

-- The state of `global_state`, with the delays given to `setitimer`, the last one first.
pub record Globals : Type 0 where
  pub timer_activation : ℕ
  pub all_timers : List Bucket
  pub armed : List ℕ

-- `find` and `insert` of `timers_set`.
abbrev pub contains : ℕ → List ℕ → Bool
contains t = any (λ u. t == u)

unfoldable pub insert : ℕ → List ℕ → List ℕ
insert t [] = t ∷ []
insert t (u ∷ us) =
    let rest = insert t us in if t == u then u ∷ us else if ltb t u then t ∷ (u ∷ us) else u ∷ rest

unfoldable pub erase : ℕ → List ℕ → List ℕ
erase t = filter (λ u. not (t == u))

abbrev pub behind : Bucket → Option (List Bucket) → Option (List Bucket)
behind b none = none
behind b (some bs) = some (b ∷ bs)

-- `add_to_all_timers`, with the `operator[]` of the map; none when its INV fails.
unfoldable pub add_to_all_timers : ℕ → ℕ → List Bucket → Option (List Bucket)
add_to_all_timers when t [] = some (record { deadline = when; timers = t ∷ [] } ∷ [])
add_to_all_timers when t (b ∷ bs) =
    let rest = add_to_all_timers when t bs in
    if when == b.deadline
    then if contains t b.timers
      then none
      else some (record { deadline = b.deadline; timers = insert t b.timers } ∷ bs)
    else if ltb when b.deadline
    then some (record { deadline = when; timers = t ∷ [] } ∷ (b ∷ bs))
    else behind b rest

-- `remove_from_all_timers`; none when its INV fails.
unfoldable pub remove_from_all_timers : ℕ → ℕ → List Bucket → Option (List Bucket)
remove_from_all_timers when t [] = some []
remove_from_all_timers when t (b ∷ bs) =
    let rest = remove_from_all_timers when t bs in
    let left = erase t b.timers in
    if when == b.deadline
    then if contains t b.timers
      then if is_empty left
        then some bs
        else some (record { deadline = b.deadline; timers = left } ∷ bs)
      else none
    else behind b rest

-- `compute_timers_to_run_and_prune_old`: the timers to run and what remains of `_all_timers`.
unfoldable pub compute_timers_to_run_and_prune_old : ℕ → List Bucket → List ℕ × List Bucket
compute_timers_to_run_and_prune_old now [] = ([], [])
compute_timers_to_run_and_prune_old now (b ∷ bs) =
    let rest = compute_timers_to_run_and_prune_old now bs in
    if leb b.deadline now then (b.timers ++ rest.0, rest.1) else ([], b ∷ bs)

-- The loop of `reprogram_system_timer`.
pub data NextActivation : Type 0 where
  next_at : ℕ → NextActivation
  nothing_to_do : NextActivation
  empty_bucket : NextActivation

unfoldable pub next_activation : ℕ → List Bucket → NextActivation
next_activation now [] = nothing_to_do
next_activation now (b ∷ bs) =
    let rest = next_activation now bs in
    if is_empty b.timers
    then empty_bucket
    else if ltb b.deadline now
    then rest
    else next_at b.deadline

-- `reprogram_system_timer`.
unfoldable pub arm : System → ℕ → ℕ → Globals → Outcome Globals
arm s now next g =
    if s.setitimer (next - now)
    then returned (record {
      timer_activation = next;
      all_timers = g.all_timers;
      armed = (next - now) ∷ g.armed;
    })
    else threw g

unfoldable pub reprogram_to : System → ℕ → Globals → NextActivation → Outcome Globals
reprogram_to s now g nothing_to_do = returned g
reprogram_to s now g empty_bucket = aborted
reprogram_to s now g (next_at next) =
    if ltb next g.timer_activation
    then arm s now next g
    else if ltb g.timer_activation now
    then arm s now next g
    else returned g

unfoldable pub reprogram_system_timer : System → ℕ → Globals → Outcome Globals
reprogram_system_timer s now g = reprogram_to s now g (next_activation now g.all_timers)

-- The constructor of `global_state`; without it when it throws.
unfoldable pub global_state : System → ℕ → ℕ → ℕ → Outcome (Option Globals)
global_state s when t now =
    if leb when now
    then aborted
    else if not (s.sigaction)
    then threw none
    else if s.setitimer (when - now)
    then returned (
        some (record {
          timer_activation = when;
          all_timers = record { deadline = when; timers = t ∷ [] } ∷ [];
          armed = (when - now) ∷ [];
        }))
    else threw none

abbrev pub with_all_timers : List Bucket → Globals → Globals
with_all_timers bs g = record g { all_timers = bs }

-- `program_new`.
unfoldable pub program_added : System → ℕ → Globals → Option (List Bucket) → Outcome Globals
program_added s now g none = aborted
program_added s now g (some bs) = reprogram_system_timer s now (with_all_timers bs g)

unfoldable pub program_new : System → ℕ → ℕ → ℕ → Globals → Outcome Globals
program_new s when t now g = program_added s now g (add_to_all_timers when t g.all_timers)

-- `global_state::unprogram`: nothing remains when no timer is active.
abbrev pub still_active : Outcome Globals → Outcome (Option Globals)
still_active (returned g) = returned (some g)
still_active (threw g) = threw (some g)
still_active aborted = aborted

unfoldable pub unprogram_removed :
    System → ℕ → Globals → Option (List Bucket) → Outcome (Option Globals)
unprogram_removed s now g none = aborted
unprogram_removed s now g (some bs) =
    if is_empty bs
    then returned none
    else still_active (reprogram_system_timer s now (with_all_timers bs g))

unfoldable pub unprogram_globals : System → ℕ → ℕ → ℕ → Globals → Outcome (Option Globals)
unprogram_globals s when t now g =
    unprogram_removed s now g (remove_from_all_timers when t g.all_timers)

-- `fire` up to the loop that invokes the timers: the timers to run and the state.
abbrev pub to_invoke : List ℕ → Outcome Globals → Outcome (List ℕ × Globals)
to_invoke to_run (returned g) = returned (to_run, g)
to_invoke to_run (threw g) = threw ([], g)
to_invoke to_run aborted = aborted

unfoldable pub fire_pruned :
    System → ℕ → Globals → List ℕ × List Bucket → Outcome (List ℕ × Globals)
fire_pruned s now g (to_run, remaining) =
    to_invoke to_run (reprogram_system_timer s now (with_all_timers remaining g))

unfoldable pub fire : System → ℕ → Globals → Outcome (List ℕ × Globals)
fire s now g = fire_pruned s now g (compute_timers_to_run_and_prune_old now g.all_timers)
