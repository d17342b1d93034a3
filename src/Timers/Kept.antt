-- ===== src/Timers/Kept.antt =====
-- utils/signals/timer.cpp: the functions on the global state keep `_all_timers` in order.
use kyua.Prelude.{ℕ, ◌≡◌, refl, ap, ◌∙◌, Bool, true, Option, none, some, List, [], ◌∷◌, arith}
use kyua.Timers.{
  Outcome, returned, threw, aborted, System, Globals, Bucket, NextActivation, next_at,
  nothing_to_do, empty_bucket, arm, reprogram_to, reprogram_system_timer, global_state,
  program_added, program_new, still_active, unprogram_removed, unprogram_globals, fire, fire_pruned,
  to_invoke, with_all_timers, add_to_all_timers, remove_from_all_timers,
}
use kyua.Timers.Order.{is_valid, kept, add_to_all_timers-is_valid, remove_from_all_timers-is_valid}
use kyua.Timers.Due.{all_ids, due, later, later-is_valid, compute_timers_to_run_and_prune_old_lem}

-- Whether the global state, if there is one, has its entries in order and none empty.
abbrev pub is_ordered : Option Globals → Bool
is_ordered none = true
is_ordered (some g) = is_valid g.all_timers

-- The same of the functions on the global state.
abbrev pub keeps : Outcome Globals → Bool
keeps (returned g) = is_valid g.all_timers
keeps (threw g) = is_valid g.all_timers
keeps aborted = true

abbrev pub keeps_option : Outcome (Option Globals) → Bool
keeps_option (returned g) = is_ordered g
keeps_option (threw g) = is_ordered g
keeps_option aborted = true

abbrev pub keeps_fired : Outcome (List ℕ × Globals) → Bool
keeps_fired (returned (ts, g)) = is_valid g.all_timers
keeps_fired (threw (ts, g)) = is_valid g.all_timers
keeps_fired aborted = true

reprogram_to-keeps :
    (s : System) (now : ℕ) (g : Globals) (r : NextActivation)
    → is_valid g.all_timers ≡ true
    → keeps (reprogram_to s now g r) ≡ true
unfolding reprogram_to arm
reprogram_to-keeps s now g (next_at n) h = ground arith
reprogram_to-keeps s now g nothing_to_do h = h
reprogram_to-keeps s now g empty_bucket h = refl

reprogram-keeps :
    (s : System) (now : ℕ) (g : Globals)
    → is_valid g.all_timers ≡ true
    → keeps (reprogram_system_timer s now g) ≡ true
unfolding reprogram_system_timer
reprogram-keeps s now g h = reprogram_to-keeps s now g _ h

program_added-keeps :
    (s : System) (now : ℕ) (g : Globals) (o : Option (List Bucket))
    → kept is_valid o ≡ true
    → keeps (program_added s now g o) ≡ true
unfolding program_added
program_added-keeps s now g none h = refl
program_added-keeps s now g (some bs) h = reprogram-keeps s now (with_all_timers bs g) h

pub program_new-keeps :
    (s : System) (when t now : ℕ) (g : Globals)
    → is_valid g.all_timers ≡ true
    → keeps (program_new s when t now g) ≡ true
unfolding program_new
program_new-keeps s when t now g h =
    program_added-keeps s now g (add_to_all_timers when t g.all_timers)
      (add_to_all_timers-is_valid when t g.all_timers h)

pub global_state-keeps :
    (s : System) (when t now : ℕ) → keeps_option (global_state s when t now) ≡ true
unfolding global_state
global_state-keeps s when t now = ground arith

still_active-keeps : (o : Outcome Globals) → keeps o ≡ true → keeps_option (still_active o) ≡ true
still_active-keeps (returned g) h = h
still_active-keeps (threw g) h = h
still_active-keeps aborted h = refl

unprogram_removed-keeps :
    (s : System) (now : ℕ) (g : Globals) (o : Option (List Bucket))
    → kept is_valid o ≡ true
    → keeps_option (unprogram_removed s now g o) ≡ true
unfolding unprogram_removed
unprogram_removed-keeps s now g none h = refl
unprogram_removed-keeps s now g (some []) h = refl
unprogram_removed-keeps s now g (some (b ∷ bs)) h =
    still_active-keeps (reprogram_system_timer s now (with_all_timers (b ∷ bs) g))
      (reprogram-keeps s now (with_all_timers (b ∷ bs) g) h)

pub unprogram_globals-keeps :
    (s : System) (when t now : ℕ) (g : Globals)
    → is_valid g.all_timers ≡ true
    → keeps_option (unprogram_globals s when t now g) ≡ true
unfolding unprogram_globals
unprogram_globals-keeps s when t now g h =
    unprogram_removed-keeps s now g (remove_from_all_timers when t g.all_timers)
      (remove_from_all_timers-is_valid when t g.all_timers h)

to_invoke-keeps :
    (ts : List ℕ) (o : Outcome Globals) → keeps o ≡ true → keeps_fired (to_invoke ts o) ≡ true
to_invoke-keeps ts (returned g) h = h
to_invoke-keeps ts (threw g) h = h
to_invoke-keeps ts aborted h = refl

pub fire-keeps :
    (s : System) (now : ℕ) (g : Globals)
    → is_valid g.all_timers ≡ true
    → keeps_fired (fire s now g) ≡ true
unfolding fire fire_pruned
fire-keeps s now g h =
    ap (λ p. keeps_fired (fire_pruned s now g p))
      (compute_timers_to_run_and_prune_old_lem now g.all_timers h)
    ∙ to_invoke-keeps (all_ids (due now g.all_timers))
        (reprogram_system_timer s now (with_all_timers (later now g.all_timers) g))
        (reprogram-keeps s now (with_all_timers (later now g.all_timers) g)
          (later-is_valid now g.all_timers h))
