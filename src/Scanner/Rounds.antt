-- ===== src/Scanner/Rounds.antt =====
-- One round of `advance`: what is left to scan stays the same, and the rounds left fall.
use kyua.Prelude.{
  ℕ, ◌+◌, ◌≤◌, ◌<◌, ◌≡◌, inl, inr, refl, ap, ◌∙◌, Bool, true, false, Option, none, some, List, [],
  ◌∷◌, ◌++◌, arith, if◌then◌else◌, length, Bool-cases,
}
use kyua.Prelude.Bytes.{Bytes}
use kyua.Filters.{TestFilter, match_test_program, match_test_case, FiltersState, use_test_case}
use kyua.Filters.State.{
  match_test_program-match_test_case, use_test_case-filters, use_test_case-matched,
}
use kyua.Scanner.{
  TestProgram, Scanner, Round, again, stop, visit, enter, round, rounds, programs_rounds,
}

abbrev pub selects : List TestFilter → TestProgram → Bytes → Bool
selects fs t c = (match_test_case fs t.relative_path c).0

-- The test cases of one program that the filters select, in order.
abbrev pub cases_of : List TestFilter → TestProgram → List Bytes → List (TestProgram × Bytes)
cases_of fs t [] = []
cases_of fs t (c ∷ cs) =
    let rest = cases_of fs t cs in if selects fs t c then (t, c) ∷ rest else rest

abbrev pub all_cases : List TestFilter → List TestProgram → List (TestProgram × Bytes)
all_cases fs [] = []
all_cases fs (t ∷ ts) = cases_of fs t t.test_cases ++ all_cases fs ts

abbrev pub remaining_of :
    List TestFilter → Option (List Bytes) → List TestProgram → List (TestProgram × Bytes)
remaining_of fs none ts = all_cases fs ts
remaining_of fs (some cs) [] = []
remaining_of fs (some cs) (t ∷ ts) = cases_of fs t cs ++ all_cases fs ts

-- What a scanner has still to return.
abbrev pub remaining : Scanner → List (TestProgram × Bytes)
remaining s = remaining_of s.filters.filters s.first_test_cases s.pending_test_programs

-- The scanner stands at the test case `c` of the program `t`.
pub record IsAt (s : Scanner) (t : TestProgram) (c : Bytes) : Type 0 where
  pub programs : List TestProgram
  pub cases : List Bytes
  pub active : s.pending_test_programs ≡ t ∷ programs
  pub next_case : s.first_test_cases ≡ some (c ∷ cases)
  pub is_selected : selects s.filters.filters t c ≡ true

-- What a stop says of what is left.
abbrev pub Stops : Bool → Scanner → List (TestProgram × Bytes) → Type 0
Stops true s l = (t : TestProgram) × (c : Bytes) × IsAt s t c
Stops false s l = l ≡ []

abbrev pub RoundLem : List TestFilter → List (TestProgram × Bytes) → ℕ → Round → Type 0
RoundLem fs l n (again t) = (t.filters.filters ≡ fs) × (remaining t ≡ l) × (rounds t < n)
RoundLem fs l n (stop more t) = (t.filters.filters ≡ fs) × (remaining t ≡ l) × Stops more t l

cases_of-unmatched :
    (fs : List TestFilter) (t : TestProgram) (cs : List Bytes)
    → match_test_program fs t.relative_path ≡ false
    → cases_of fs t cs ≡ []
cases_of-unmatched fs t [] h = refl
cases_of-unmatched fs t (c ∷ cs) h =
    ground
      (arith, cases_of-unmatched fs t cs, match_test_program-match_test_case fs t.relative_path c)

visit-RoundLem :
    (t : TestProgram) (ts : List TestProgram) (cs : List Bytes) (fi : FiltersState)
    (o : Option (List Bytes)) (n : ℕ)
    → length cs + 1 + programs_rounds ts ≤ n
    → let s : Scanner = record {
      pending_test_programs = t ∷ ts;
      filters = fi;
      first_test_cases = o;
    } in
      RoundLem fi.filters (cases_of fi.filters t cs ++ all_cases fi.filters ts) n (visit t ts cs s)
unfolding visit
visit-RoundLem t ts [] fi o n h = (refl, refl, omega arith)
visit-RoundLem t ts (c ∷ cs) fi o n h =
    let used = use_test_case fi t.relative_path c in
    let kept = use_test_case-filters fi t.relative_path c in
    elim (Bool-cases (selects fi.filters t c)) [
      | inl e ↦
          rw (use_test_case-matched fi t.relative_path c, e)
            (
              kept,
              ap (λ fs. remaining_of fs (some (c ∷ cs)) (t ∷ ts)) kept ∙ rw e refl,
              (
                t,
                c,
                record {
                  programs = ts;
                  cases = cs;
                  active = refl;
                  next_case = refl;
                  is_selected = ap (λ fs. selects fs t c) kept ∙ e;
                },
              ),
            )
      | inr e ↦
          rw (use_test_case-matched fi t.relative_path c, e)
            (kept, ap (λ fs. remaining_of fs (some cs) (t ∷ ts)) kept, omega arith)
    ]

enter-RoundLem :
    (o : Option (List Bytes)) (ts : List TestProgram) (fi : FiltersState)
    → let s : Scanner = record { pending_test_programs = ts; filters = fi; first_test_cases = o } in
      RoundLem fi.filters (remaining s) (rounds s) (enter o ts s)
unfolding enter
enter-RoundLem none [] fi = (refl, refl, refl)
enter-RoundLem (some cs) [] fi = (refl, refl, refl)
enter-RoundLem (some cs) (t ∷ ts) fi = visit-RoundLem t ts cs fi (some cs) _ (omega arith)
enter-RoundLem none (t ∷ ts) fi =
    elim (Bool-cases (match_test_program fi.filters t.relative_path)) [
      | inl e ↦ rw e (visit-RoundLem t ts t.test_cases fi none _ (omega arith))
      | inr e ↦ rw (e, cases_of-unmatched fi.filters t t.test_cases e) (refl, refl, omega arith)
    ]

RoundLem-mono :
    (fs : List TestFilter) (l : List (TestProgram × Bytes)) (n m : ℕ) (r : Round)
    → n ≤ m
    → RoundLem fs l n r
    → RoundLem fs l m r
RoundLem-mono fs l n m (again t) h (a, b, c) = (a, b, omega arith)
RoundLem-mono fs l n m (stop more t) h k = k

round-RoundLem :
    (o : Option (List Bytes)) (ts : List TestProgram) (fi : FiltersState)
    → let s : Scanner = record { pending_test_programs = ts; filters = fi; first_test_cases = o } in
      RoundLem fi.filters (remaining s) (rounds s) (round s)
unfolding round
round-RoundLem none ts fi = enter-RoundLem none ts fi
round-RoundLem (some (c ∷ cs)) ts fi = enter-RoundLem (some (c ∷ cs)) ts fi
round-RoundLem (some []) [] fi = (refl, refl, refl)
round-RoundLem (some []) (t ∷ ts) fi =
    RoundLem-mono fi.filters (all_cases fi.filters ts) (programs_rounds ts) _ _ (omega arith)
      (enter-RoundLem none ts fi)

-- A round keeps the filters and what is left to scan; it leaves fewer rounds, or it stops at the
-- next selected test case, or at the end of the scan.
pub round_lem : (s : Scanner) → RoundLem s.filters.filters (remaining s) (rounds s) (round s)
round_lem s = round-RoundLem s.first_test_cases s.pending_test_programs s.filters
