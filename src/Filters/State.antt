-- ===== src/Filters/State.antt =====
-- `filters_state` over a run of queries.
use kyua.Prelude.{
  ◌≡◌, ◌⊎◌, inl, inr, refl, sym, ap, ◌∙◌, Bool, true, false, not, ◌&&◌, ◌||◌, Option, none, some,
  List, [], ◌∷◌, arith, if◌then◌else◌, any,
}
use kyua.Prelude.Bytes.{Bytes}
use kyua.FsPath.{FsPath}
use kyua.Filters.{
  TestFilter, filter_eq, matches_test_program, matches_test_case, match_test_program,
  match_test_case, find_match, member, FiltersState, filters_state, use_test_case, unused,
  note_used, is_found,
}
use kyua.Filters.Order.{is_sorted, insert_lem, member-filter}

any_mono :
    (p q : TestFilter → Bool) (fs : List TestFilter)
    → ((f : TestFilter) → p f ≡ true → q f ≡ true)
    → any p fs ≡ true
    → any q fs ≡ true
any_mono p q [] h k = k
any_mono p q (f ∷ fs) h k = ground (arith, h f, any_mono p q fs h)

matches_test_case-program :
    (p : FsPath) (c : Bytes) (f : TestFilter)
    → matches_test_case f p c ≡ true
    → matches_test_program f p ≡ true
unfolding matches_test_case
matches_test_case-program p c f h = ground arith

any-find_match :
    (fs : List TestFilter) (p : FsPath) (c : Bytes)
    → is_found (find_match fs p c) ≡ any (λ f. matches_test_case f p c) fs
unfolding find_match
any-find_match [] p c = refl
any-find_match (f ∷ fs) p c = ground (arith, any-find_match fs p c)

-- A set that matches a test case matches its test program, so that the programs can be filtered
-- before their test cases are listed.
pub match_test_program-match_test_case :
    (fs : List TestFilter) (p : FsPath) (c : Bytes)
    → (match_test_case fs p c).0 ≡ true
    → match_test_program fs p ≡ true
unfolding match_test_case match_test_program
match_test_program-match_test_case [] p c h = refl
match_test_program-match_test_case (f ∷ fs) p c h =
    any_mono _ _ (f ∷ fs) (matches_test_case-program p c) (sym (any-find_match (f ∷ fs) p c) ∙ h)

-- The queries of a run, in order.
abbrev pub run : FiltersState → List (FsPath × Bytes) → FiltersState
run s [] = s
run s ((p, c) ∷ qs) = run (use_test_case s p c).1 qs

-- Whether a query over the set of filters returns the filter `f`.
abbrev pub returns : List TestFilter → TestFilter → FsPath × Bytes → Bool
returns fs f (p, c) = elim (match_test_case fs p c).1 [ none ↦ false | some g ↦ filter_eq f g ]

-- One query keeps the filters, keeps the used set ordered, and adds what it returns to it.
abbrev Steps : FiltersState → FsPath → Bytes → FiltersState → Type 0
Steps s p c t =
    (t.filters ≡ s.filters)
    × (is_sorted t.used_filters ≡ true)
    × ((f : TestFilter)
        → member f t.used_filters ≡ (returns s.filters f (p, c) || member f s.used_filters))

Steps-cases :
    (fs us : List TestFilter) (p : FsPath) (c : Bytes) (o : Option TestFilter)
    → is_sorted us ≡ true
    → (match_test_case fs p c ≡ (is_found o, o))
      ⊎ ((match_test_case fs p c ≡ (true, none)) × (o ≡ none))
    → let s : FiltersState = record { filters = fs; used_filters = us } in
      Steps s p c (use_test_case s p c).1
unfolding use_test_case
Steps-cases fs us p c none h (inl k) = rw (k, use_test_case) (refl, h, λ f. rw (k, ◌||◌) refl)
Steps-cases fs us p c o h (inr (k, _)) = rw (k, use_test_case) (refl, h, λ f. rw (k, ◌||◌) refl)
Steps-cases fs us p c (some g) h (inl k) =
    let added = insert_lem g us h in
    rw (k, use_test_case) (refl, added.0, λ f. rw (k, ◌||◌) (added.1 f))

use_test_case-Steps :
    (s : FiltersState) (p : FsPath) (c : Bytes)
    → is_sorted s.used_filters ≡ true
    → Steps s p c (use_test_case s p c).1
use_test_case-Steps s p c h = go s.filters
  where
    go :
        (fs : List TestFilter)
        → let t : FiltersState = record { filters = fs; used_filters = s.used_filters } in
          Steps t p c (use_test_case t p c).1
    go [] = Steps-cases [] s.used_filters p c none h (inr (unfold match_test_case in refl, refl))
    go (f ∷ fs) =
        Steps-cases (f ∷ fs) s.used_filters p c (find_match (f ∷ fs) p c) h
          (inl (unfold match_test_case in refl))

or_comm : (a b c : Bool) → (a || (b || c)) ≡ ((b || a) || c)
or_comm a b c = ground arith

run-used :
    (qs : List (FsPath × Bytes)) (s : FiltersState) (f : TestFilter)
    → is_sorted s.used_filters ≡ true
    → ((run s qs).filters ≡ s.filters)
      × (member f (run s qs).used_filters
          ≡ (any (returns s.filters f) qs || member f s.used_filters))
run-used [] s f h = (refl, refl)
run-used ((p, c) ∷ qs) s f h =
    let (same, sorted, used) = use_test_case-Steps s p c h in
    let (kept, later) = run-used qs (use_test_case s p c).1 f sorted in
    (
      kept ∙ same,
      later
          ∙ ap (λ fs. any (returns fs f) qs || member f (use_test_case s p c).1.used_filters) same
          ∙ ap (λ b. any (returns s.filters f) qs || b) (used f)
          ∙ or_comm (any (returns s.filters f) qs) (returns s.filters f (p, c))
              (member f s.used_filters),
    )

-- After any run of queries, the unused filters are those of the set that no query returned.
pub unused-run :
    (fs : List TestFilter) (qs : List (FsPath × Bytes)) (f : TestFilter)
    → member f (unused (run (filters_state fs) qs)) ≡ (member f fs && not (any (returns fs f) qs))
unfolding unused filters_state
unused-run fs qs f =
    let (kept, used) = run-used qs (record { filters = fs; used_filters = [] }) f refl in
    let s = run (filters_state fs) qs in
    member-filter (λ g. not (member g s.used_filters)) f s.filters ∙ ground (arith, kept, used)

note_used-filters :
    (s : FiltersState) (b : Bool) (o : Option TestFilter)
    → (if b then note_used s o else s).filters ≡ s.filters
note_used-filters s true none = refl
note_used-filters s true (some f) = refl
note_used-filters s false o = refl

pub use_test_case-filters :
    (s : FiltersState) (p : FsPath) (c : Bytes) → (use_test_case s p c).1.filters ≡ s.filters
unfolding use_test_case
use_test_case-filters s p c =
    note_used-filters s (match_test_case s.filters p c).0 (match_test_case s.filters p c).1

pub use_test_case-matched :
    (s : FiltersState) (p : FsPath) (c : Bytes)
    → (use_test_case s p c).0 ≡ (match_test_case s.filters p c).0
unfolding use_test_case
use_test_case-matched s p c = refl
