-- ===== src/Scanner.antt =====
-- engine/scanner.cpp: the scan over the test cases of some test programs. A test program is its
-- path and the keys of its map of test cases, in the order of the map.
pub mod Rounds
pub mod Scan
use kyua.Prelude.{
  ℕ, zero, suc, ◌+◌, ◌-◌, ap, Bool, true, false, not, Option, none, some, List, [], ◌∷◌, map,
  if◌then◌else◌, length, filter,
}
use kyua.Prelude.Bytes.{Bytes, at}
use kyua.FsPath.{FsPath}
use kyua.Filters.{
  TestFilter, match_test_program, FiltersState, filters_state, use_test_case, unused,
}

pub record TestProgram : Type 0 where
  pub relative_path : FsPath
  pub test_cases : List Bytes

pub record Scanner : Type 0 where
  pub pending_test_programs : List TestProgram
  pub filters : FiltersState
  pub first_test_cases : Option (List Bytes)

-- The constructor.
unfoldable pub scanner : List TestProgram → List TestFilter → Scanner
unfolding filters_state
scanner test_programs filters = record {
  pending_test_programs = test_programs;
  filters = filters_state filters;
  first_test_cases = none;
}

-- A round of the loop of `advance` goes on, or returns.
pub data Round : Type 0 where
  again : Scanner → Round
  stop : Bool → Scanner → Round

abbrev pub pop_front {ℓ} : {A : Type ℓ} → List A → List A
pop_front [] = []
pop_front (x ∷ xs) = xs

-- The first test of the round: the active test program has no test case left.
unfoldable pub leave_finished : Option (List Bytes) → Scanner → Scanner
leave_finished none s = s
leave_finished (some []) s = record s {
  pending_test_programs = pop_front s.pending_test_programs;
  first_test_cases = none;
}
leave_finished (some (c ∷ cs)) s = s

-- The end of the round, at the test cases of the active test program.
unfoldable pub visit : TestProgram → List TestProgram → List Bytes → Scanner → Round
visit t ts [] s = again (record s { pending_test_programs = ts; first_test_cases = none })
visit t ts (c ∷ cs) s =
    let used = use_test_case s.filters t.relative_path c in
    if not used.0
    then again (record s { first_test_cases = some cs; filters = used.1 })
    else stop true (record s { first_test_cases = some (c ∷ cs); filters = used.1 })

-- The rest of the round, at the pending test programs.
unfoldable pub enter : Option (List Bytes) → List TestProgram → Scanner → Round
unfolding visit
enter first [] s = stop false s
enter none (t ∷ ts) s =
    if not (match_test_program s.filters.filters t.relative_path)
    then again (record s { pending_test_programs = ts })
    else visit t ts t.test_cases s
enter (some cs) (t ∷ ts) s = visit t ts cs s

unfoldable pub round : Scanner → Round
unfolding leave_finished enter
round s =
    let left = leave_finished s.first_test_cases s in
    enter left.first_test_cases left.pending_test_programs left

-- `advance`, with fuel for its rounds; `none` means that the fuel ran out.
unfoldable pub advance : ℕ → Scanner → Option (Bool × Scanner)
unfolding round
advance zero s = none
advance (suc fuel) s = elim (round s) [ again t ↦ advance fuel t | stop more t ↦ some (more, t) ]

-- `consume`, where `advance` has found a test case.
unfoldable pub consume : Scanner → Option ((TestProgram × Bytes) × Scanner)
consume s = elim s.first_test_cases [
  | none ↦ none
  | some cs ↦ elim cs [
    | [] ↦ none
    | c ∷ rest ↦ elim s.pending_test_programs [
      | [] ↦ none
      | t ∷ ts ↦ some ((t, c), record s { first_test_cases = some rest })
    ]
  ]
]

-- The rounds that are left, at most.
abbrev pub programs_rounds : List TestProgram → ℕ
programs_rounds [] = 0
programs_rounds (t ∷ ts) = length t.test_cases + 2 + programs_rounds ts

abbrev pub rounds_of : Option (List Bytes) → List TestProgram → ℕ
rounds_of none ts = programs_rounds ts
rounds_of (some cs) [] = 1
rounds_of (some cs) (t ∷ ts) = length cs + 1 + programs_rounds ts

abbrev pub rounds : Scanner → ℕ
rounds s = rounds_of s.first_test_cases s.pending_test_programs

abbrev pub consume_if : Bool → Scanner → Option (Option (TestProgram × Bytes) × Scanner)
consume_if true s = elim (consume s) [ none ↦ none | some (r, t) ↦ some (some r, t) ]
consume_if false s = some (none, s)

-- `yield`. The outer `none` means that the fuel ran out or that `consume` found nothing.
unfoldable pub yield_next : Scanner → Option (Option (TestProgram × Bytes) × Scanner)
yield_next s = elim (advance (suc (rounds s)) s) [
  | none ↦ none
  | some (more, t) ↦ consume_if more t
]

-- `done`, with the state behind it.
unfoldable pub done : Scanner → Option (Bool × Scanner)
done s = elim (advance (suc (rounds s)) s) [ none ↦ none | some (more, t) ↦ some (not more, t) ]

unfoldable pub unused_filters : Scanner → List TestFilter
unfolding unused
unused_filters s = unused s.filters
