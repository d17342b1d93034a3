-- ===== src/Timers/Order.antt =====
-- utils/signals/timer.cpp: `_all_timers` stays ordered by timestamp, without empty entries.
use kyua.Prelude.{
  ℕ, ◌≤◌, ◌<◌, ◌≡◌, refl, Bool, true, false, not, ◌&&◌, Option, none, some, List, [], ◌∷◌, arith,
  ltb, all, is_empty,
}
use kyua.Timers.{Bucket, insert, behind, add_to_all_timers, remove_from_all_timers}

-- Whether every entry is later than a time.
abbrev pub all_after : ℕ → List Bucket → Bool
all_after t = all (λ b. ltb t b.deadline)

-- The invariant of `_all_timers`: the timestamps increase, and no entry is empty.
abbrev pub is_valid : List Bucket → Bool
is_valid [] = true
is_valid (b ∷ bs) = not (is_empty b.timers) && (all_after b.deadline bs && is_valid bs)

-- Later entries than a time are later than an earlier one.
pub all_after_trans :
    (s t : ℕ) (bs : List Bucket) → s ≤ t → all_after t bs ≡ true → all_after s bs ≡ true
all_after_trans s t [] h k = refl
all_after_trans s t (b ∷ bs) h k = ground (arith, all_after_trans s t bs h)

insert-filled : (t : ℕ) (us : List ℕ) → is_empty (insert t us) ≡ false
unfolding insert
insert-filled t [] = refl
insert-filled t (u ∷ us) = ground arith

-- A property of the entries when the call returns them.
abbrev pub kept : (List Bucket → Bool) → Option (List Bucket) → Bool
kept p none = true
kept p (some bs) = p bs

kept-behind :
    (s : ℕ) (b : Bucket) (o : Option (List Bucket))
    → ltb s b.deadline ≡ true
    → kept (all_after s) o ≡ true
    → kept (all_after s) (behind b o) ≡ true
kept-behind s b none h k = refl
kept-behind s b (some bs) h k = ground arith

kept_valid-behind :
    (b : Bucket) (o : Option (List Bucket))
    → is_empty b.timers ≡ false
    → kept (all_after b.deadline) o ≡ true
    → kept is_valid o ≡ true
    → kept is_valid (behind b o) ≡ true
kept_valid-behind b none e h k = refl
kept_valid-behind b (some bs) e h k = ground arith

-- What an addition puts is later than a time when the timer is.
add_to_all_timers-all_after :
    (s when t : ℕ) (bs : List Bucket)
    → s < when
    → all_after s bs ≡ true
    → kept (all_after s) (add_to_all_timers when t bs) ≡ true
unfolding add_to_all_timers
add_to_all_timers-all_after s when t [] h k = ground arith
add_to_all_timers-all_after s when t (b ∷ bs) h k = ground (
  arith,
  add_to_all_timers-all_after s when t bs h,
  kept-behind s b (add_to_all_timers when t bs),
)

pub add_to_all_timers-is_valid :
    (when t : ℕ) (bs : List Bucket)
    → is_valid bs ≡ true
    → kept is_valid (add_to_all_timers when t bs) ≡ true
unfolding add_to_all_timers
add_to_all_timers-is_valid when t [] h = refl
add_to_all_timers-is_valid when t (b ∷ bs) h = ground (
  arith,
  add_to_all_timers-is_valid when t bs,
  kept_valid-behind b (add_to_all_timers when t bs),
  add_to_all_timers-all_after b.deadline when t bs,
  insert-filled t b.timers,
  all_after_trans when b.deadline bs,
)

remove_from_all_timers-all_after :
    (s when t : ℕ) (bs : List Bucket)
    → all_after s bs ≡ true
    → kept (all_after s) (remove_from_all_timers when t bs) ≡ true
unfolding remove_from_all_timers
remove_from_all_timers-all_after s when t [] k = refl
remove_from_all_timers-all_after s when t (b ∷ bs) k = ground (
  arith,
  remove_from_all_timers-all_after s when t bs,
  kept-behind s b (remove_from_all_timers when t bs),
)

pub remove_from_all_timers-is_valid :
    (when t : ℕ) (bs : List Bucket)
    → is_valid bs ≡ true
    → kept is_valid (remove_from_all_timers when t bs) ≡ true
unfolding remove_from_all_timers
remove_from_all_timers-is_valid when t [] h = refl
remove_from_all_timers-is_valid when t (b ∷ bs) h = ground (
  arith,
  remove_from_all_timers-is_valid when t bs,
  kept_valid-behind b (remove_from_all_timers when t bs),
  remove_from_all_timers-all_after b.deadline when t bs,
)
