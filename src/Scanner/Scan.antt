-- ===== src/Scanner/Scan.antt =====
-- `advance`, `yield` and `done` over a whole scan.
use kyua.Prelude.{
  ℕ, zero, suc, ◌<◌, ◌≡◌, refl, sym, ap, ◌∙◌, Bool, true, false, not, Option, none, some, List, [],
  ◌∷◌, arith, length, is_empty,
}
use kyua.Prelude.Bytes.{Bytes}
use kyua.Prelude.{subst}
use kyua.Filters.{TestFilter, FiltersState}
use kyua.Scanner.{
  TestProgram, Scanner, scanner, Round, again, stop, round, rounds, advance, consume, consume_if,
  yield_next, done,
}
use kyua.Scanner.Rounds.{
  remaining, remaining_of, all_cases, selects, IsAt, Stops, RoundLem, round_lem,
}

abbrev AdvanceLem : List TestFilter → List (TestProgram × Bytes) → Option (Bool × Scanner) → Type 0
AdvanceLem fs l none = ⊥
AdvanceLem fs l (some (more, t)) = (t.filters.filters ≡ fs) × (remaining t ≡ l) × Stops more t l

advance_next :
    (fuel n : ℕ) (fs : List TestFilter) (l : List (TestProgram × Bytes)) (r : Round)
    → ((t : Scanner) → rounds t < n → AdvanceLem t.filters.filters (remaining t) (advance fuel t))
    → RoundLem fs l n r
    → AdvanceLem fs l (elim r [ again t ↦ advance fuel t | stop more t ↦ some (more, t) ])
advance_next fuel n fs l (stop more t) ih k = k
advance_next fuel n fs l (again t) ih (same, left, fewer) =
    subst (λ gs. AdvanceLem gs l (advance fuel t)) same
      (subst (λ m. AdvanceLem t.filters.filters m (advance fuel t)) left (ih t fewer))

-- With fuel for the rounds that are left, `advance` returns.
advance_lem :
    (fuel : ℕ) (s : Scanner)
    → rounds s < fuel
    → AdvanceLem s.filters.filters (remaining s) (advance fuel s)
unfolding advance
advance_lem zero s h = absurd (omega arith)
advance_lem (suc fuel) s h =
    advance_next fuel (rounds s) s.filters.filters (remaining s) (round s)
      (λ t k. advance_lem fuel t (omega arith)) (round_lem s)

-- What `yield` returns, against the test cases that were left.
abbrev pub YieldLem :
    List TestFilter
    → List (TestProgram × Bytes)
    → Option (Option (TestProgram × Bytes) × Scanner)
    → Type 0
YieldLem fs l none = ⊥
YieldLem fs l (some (some r, t)) = (t.filters.filters ≡ fs) × (l ≡ r ∷ remaining t)
YieldLem fs l (some (none, t)) = (t.filters.filters ≡ fs) × (l ≡ []) × (remaining t ≡ [])

consume_at :
    (fs : List TestFilter) (l : List (TestProgram × Bytes)) (t : TestProgram) (c : Bytes)
    (ts : List TestProgram) (cs : List Bytes) (fi : FiltersState)
    → fi.filters ≡ fs
    → selects fi.filters t c ≡ true
    → let s : Scanner = record {
      pending_test_programs = t ∷ ts;
      filters = fi;
      first_test_cases = some (c ∷ cs);
    } in
      remaining s ≡ l → YieldLem fs l (consume_if true s)
unfolding consume
consume_at fs l t c ts cs fi same chosen left = (same, sym left ∙ rw chosen refl)

consume_if-YieldLem :
    (fs : List TestFilter) (l : List (TestProgram × Bytes)) (more : Bool) (s : Scanner)
    → s.filters.filters ≡ fs
    → remaining s ≡ l
    → Stops more s l
    → YieldLem fs l (consume_if more s)
consume_if-YieldLem fs l false s same left nothing = (same, nothing, left ∙ nothing)
consume_if-YieldLem fs l true s same left (t, c, spot) =
    let here : ◌≡◌ {A = Scanner}
        (record {
          pending_test_programs = t ∷ spot.programs;
          filters = s.filters;
          first_test_cases = some (c ∷ spot.cases);
        })
        s =
      λ i. record {
        pending_test_programs = sym spot.active i;
        filters = s.filters;
        first_test_cases = sym spot.next_case i;
      } in
    subst (λ x. YieldLem fs l (consume_if true x)) here
      (consume_at fs l t c spot.programs spot.cases s.filters same spot.is_selected
        (ap remaining here ∙ left))

-- `yield` returns the first of the test cases that are left, and leaves the others; or there is
-- none left, and it returns none.
pub yield_next-YieldLem : (s : Scanner) → YieldLem s.filters.filters (remaining s) (yield_next s)
unfolding yield_next
yield_next-YieldLem s =
    go (advance (suc (rounds s)) s) (advance_lem (suc (rounds s)) s (omega arith))
  where
    go :
        (r : Option (Bool × Scanner))
        → AdvanceLem s.filters.filters (remaining s) r
        → YieldLem s.filters.filters
            (remaining s)
            (elim r [ none ↦ none | some (more, t) ↦ consume_if more t ])
    go none k = absurd k
    go (some (more, t)) (same, left, stops) = consume_if-YieldLem _ _ more t same left stops

remaining-IsAt :
    (s : Scanner) (t : TestProgram) (c : Bytes) → IsAt s t c → is_empty (remaining s) ≡ false
remaining-IsAt s t c spot =
    ap (λ o. is_empty (remaining_of s.filters.filters o s.pending_test_programs)) spot.next_case
    ∙ ap (λ ts. is_empty (remaining_of s.filters.filters (some (c ∷ spot.cases)) ts)) spot.active
    ∙ rw spot.is_selected refl

Stops-empty :
    (more : Bool) (s : Scanner) (l : List (TestProgram × Bytes))
    → remaining s ≡ l
    → Stops more s l
    → not more ≡ is_empty l
Stops-empty false s l left nothing = rw nothing refl
Stops-empty true s l left (t, c, spot) = sym (ap is_empty (sym left) ∙ remaining-IsAt s t c spot)

-- `done` says whether there is a test case left, and leaves what there is to scan.
pub done_lem :
    (s : Scanner)
    → (t : Scanner) × (done s ≡ some (is_empty (remaining s), t)) × (remaining t ≡ remaining s)
unfolding done
done_lem s = go (advance (suc (rounds s)) s) (advance_lem (suc (rounds s)) s (omega arith))
  where
    go :
        (r : Option (Bool × Scanner))
        → AdvanceLem s.filters.filters (remaining s) r
        → (t : Scanner) × ((elim r as (λ _. Option (Bool × Scanner)) [
          | none ↦ none
          | some (more, t) ↦ some (not more, t)
        ])
            ≡ some (is_empty (remaining s), t))
          × (remaining t ≡ remaining s)
    go none k = absurd k
    go (some (more, t)) (same, left, stops) =
        (t, ap (λ b. some (b, t)) (Stops-empty more t (remaining s) left stops), left)

-- The results of a scanner, up to the first none; the fuel bounds the calls of `yield`.
unfoldable pub scan : ℕ → Scanner → Option (List (TestProgram × Bytes))
scan zero s = none
scan (suc fuel) s = elim (yield_next s) [
  | none ↦ none
  | some (none, t) ↦ some []
  | some (some r, t) ↦ elim (scan fuel t) [ none ↦ none | some rs ↦ some (r ∷ rs) ]
]

scan_next :
    (fuel : ℕ) (fs : List TestFilter) (l : List (TestProgram × Bytes))
    (y : Option (Option (TestProgram × Bytes) × Scanner))
    → length l < suc fuel
    → ((t : Scanner) → length (remaining t) < fuel → scan fuel t ≡ some (remaining t))
    → YieldLem fs l y
    → (elim y as (λ _. Option (List (TestProgram × Bytes))) [
      | none ↦ none
      | some (none, t) ↦ some []
      | some (some r, t) ↦ elim (scan fuel t) [ none ↦ none | some rs ↦ some (r ∷ rs) ]
    ])
      ≡ some l
scan_next fuel fs l none h ih k = absurd k
scan_next fuel fs l (some (none, t)) h ih (same, nothing, _) = ap some (sym nothing)
scan_next fuel fs l (some (some r, t)) h ih (same, left) =
    rw (ih t (omega (arith, ap length left))) (ap some (sym left))

scan-remaining :
    (fuel : ℕ) (s : Scanner) → length (remaining s) < fuel → scan fuel s ≡ some (remaining s)
unfolding scan
scan-remaining zero s h = absurd (omega arith)
scan-remaining (suc fuel) s h =
    scan_next fuel s.filters.filters (remaining s) (yield_next s) h (scan-remaining fuel)
      (yield_next-YieldLem s)

-- A scan with fuel for more calls than there are selected test cases returns each test case that
-- the filters select, once for each time that it is listed, in the order of the programs and of
-- their test cases, and then ends.
pub scan-scanner :
    (ps : List TestProgram) (fs : List TestFilter) (fuel : ℕ)
    → length (all_cases fs ps) < fuel
    → scan fuel (scanner ps fs) ≡ some (all_cases fs ps)
unfolding scanner
scan-scanner ps fs fuel h = scan-remaining fuel _ h
