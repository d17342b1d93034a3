-- ===== src/Timers/Due.antt =====
-- utils/signals/timer.cpp: `compute_timers_to_run_and_prune_old` against a filter of the entries.
use kyua.Prelude.{
  ℕ, ◌≤◌, ◌≡◌, refl, true, List, [], ◌∷◌, ◌++◌, arith, ltb, leb, filter, length, append_assoc,
}
use kyua.Timers.{Bucket, compute_timers_to_run_and_prune_old}
use kyua.Timers.Order.{all_after, all_after_trans, is_valid}

-- The timers of the entries, in their order.
abbrev pub all_ids : List Bucket → List ℕ
all_ids [] = []
all_ids (b ∷ bs) = b.timers ++ all_ids bs

-- The entries on or before a time, and those after it.
abbrev pub due : ℕ → List Bucket → List Bucket
due now = filter (λ b. leb b.deadline now)

abbrev pub later : ℕ → List Bucket → List Bucket
later now = filter (λ b. ltb now b.deadline)

later-all_after : (s now : ℕ) (bs : List Bucket) → s ≤ now → all_after s (later now bs) ≡ true
later-all_after s now [] h = refl
later-all_after s now (b ∷ bs) h = ground (arith, later-all_after s now bs h)

all_after-later :
    (s now : ℕ) (bs : List Bucket) → all_after s bs ≡ true → all_after s (later now bs) ≡ true
all_after-later s now [] h = refl
all_after-later s now (b ∷ bs) h = ground (arith, all_after-later s now bs)

pub later-is_valid :
    (now : ℕ) (bs : List Bucket) → is_valid bs ≡ true → is_valid (later now bs) ≡ true
later-is_valid now [] h = refl
later-is_valid now (b ∷ bs) h =
    ground (arith, later-is_valid now bs, all_after-later b.deadline now bs)

pub later-all_after_self : (now : ℕ) (bs : List Bucket) → all_after now (later now bs) ≡ true
later-all_after_self now bs = later-all_after now now bs (omega arith)

later-all : (now : ℕ) (bs : List Bucket) → all_after now bs ≡ true → later now bs ≡ bs
later-all now [] h = refl
later-all now (b ∷ bs) h = ground (arith, later-all now bs)

due-none : (now : ℕ) (bs : List Bucket) → all_after now bs ≡ true → due now bs ≡ []
due-none now [] h = refl
due-none now (b ∷ bs) h = ground (arith, due-none now bs)

pub later-length : (now : ℕ) (bs : List Bucket) → length (later now bs) ≤ length bs
later-length now [] = omega arith
later-length now (b ∷ bs) = ground (arith, later-length now bs)

-- What is taken out and what remains are the two halves of the entries, each in order.
pub compute_timers_to_run_and_prune_old_lem :
    (now : ℕ) (bs : List Bucket)
    → is_valid bs ≡ true
    → compute_timers_to_run_and_prune_old now bs ≡ (all_ids (due now bs), later now bs)
unfolding compute_timers_to_run_and_prune_old
compute_timers_to_run_and_prune_old_lem now [] h = refl
compute_timers_to_run_and_prune_old_lem now (b ∷ bs) h = ground (
  arith,
  compute_timers_to_run_and_prune_old_lem now bs,
  later-all now bs,
  due-none now bs,
  all_after_trans now b.deadline bs,
)

-- Nothing is lost, and nothing is taken twice.
pub due-later :
    (now : ℕ) (bs : List Bucket)
    → is_valid bs ≡ true
    → all_ids (due now bs) ++ all_ids (later now bs) ≡ all_ids bs
due-later now [] h = refl
due-later now (b ∷ bs) h = ground (
  arith,
  due-later now bs,
  append_assoc b.timers (all_ids (due now bs)) (all_ids (later now bs)),
  later-all now bs,
  due-none now bs,
  all_after_trans now b.deadline bs,
)
