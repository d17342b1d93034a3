-- ===== src/Status.antt =====
-- utils/process/status.cpp: the termination status of a process. The macros of waitpid(2) are not
-- part of the sources: what they read from a status value is a parameter.
use kyua.Prelude.{
  ◌≡◌, ◌⊎◌, inl, inr, refl, Bool, true, false, Option, none, some, ◌++◌, if◌then◌else◌,
  Option-cases,
}
use kyua.Prelude.Bytes.{Bytes, bytes}
use kyua.Prelude.Integer.{ℤ, negsuc, show_int}

pub record Status : Type 0 where
  pub dead_pid : ℤ
  pub exited_code : Option ℤ
  pub signaled_by : Option (ℤ × Bool)

-- WIFEXITED, WEXITSTATUS, WIFSIGNALED, WTERMSIG and WCOREDUMP.
pub record WaitMacros : Type 0 where
  pub if_exited : ℤ → Bool
  pub exit_status : ℤ → ℤ
  pub if_signaled : ℤ → Bool
  pub term_sig : ℤ → ℤ
  pub core_dump : ℤ → Bool

-- The constructor on the value that waitpid(2) returned.
unfoldable pub of_wait : WaitMacros → ℤ → ℤ → Status
of_wait w dead_pid stat_loc = record {
  dead_pid = dead_pid;
  exited_code = if w.if_exited stat_loc then some (w.exit_status stat_loc) else none;
  signaled_by =
      if w.if_signaled stat_loc then some (w.term_sig stat_loc, w.core_dump stat_loc) else none;
}

unfoldable pub fake : Option ℤ → Option (ℤ × Bool) → Status
fake exited_code signaled_by = record {
  dead_pid = negsuc 0;
  exited_code = exited_code;
  signaled_by = signaled_by;
}

unfoldable pub fake_exited : ℤ → Status
unfolding fake
fake_exited code = fake (some code) none

unfoldable pub fake_signaled : ℤ → Bool → Status
unfolding fake
fake_signaled termsig coredump = fake none (some (termsig, coredump))

abbrev is_some {ℓ} : {A : Type ℓ} → Option A → Bool
is_some none = false
is_some (some a) = true

unfoldable pub exited : Status → Bool
exited s = is_some s.exited_code

unfoldable pub signaled : Status → Bool
signaled s = is_some s.signaled_by

-- The accessors under a precondition; `none` is its failure.
unfoldable pub exitstatus : Status → Option ℤ
exitstatus s = s.exited_code

unfoldable pub termsig : Status → Option ℤ
termsig s = elim s.signaled_by [ none ↦ none | some (n, core) ↦ some n ]

unfoldable pub coredump : Status → Option Bool
coredump s = elim s.signaled_by [ none ↦ none | some (n, core) ↦ some core ]

-- A status has an exit code or none, and `exited` says which.
pub exited_cases :
    (s : Status)
    → ((exited s ≡ false) × (exitstatus s ≡ none))
      ⊎ ((n : ℤ) × (exited s ≡ true) × (exitstatus s ≡ some n))
unfolding exited exitstatus
exited_cases s = elim (Option-cases s.exited_code) [
  | inl e ↦ inl (rw e refl, e)
  | inr (n, e) ↦ inr (n, rw e refl, e)
]

pub signaled_cases :
    (s : Status)
    → ((signaled s ≡ false) × (termsig s ≡ none))
      ⊎ ((n : ℤ) × (signaled s ≡ true) × (termsig s ≡ some n))
unfolding signaled termsig
signaled_cases s = elim (Option-cases s.signaled_by) [
  | inl e ↦ inl (rw e refl, rw e refl)
  | inr (n, e) ↦ inr (n.0, rw e refl, rw e refl)
]

-- `operator<<`; `none` is a failed INV.
unfoldable pub show_status : Status → Option Bytes
show_status s = elim s.exited_code [
  | some n ↦ some (bytes "status{exitstatus=" ++ (show_int n ++ bytes "}"))
  | none ↦ elim s.signaled_by [
    | none ↦ none
    | some (n, core) ↦ some (
        bytes "status{termsig="
        ++ (show_int n
            ++ (bytes ", coredump="
                ++ ((if core then bytes "true" else bytes "false") ++ bytes "}"))))
  ]
]
