-- ===== src/Filters/Matching.antt =====
-- What a filter selects, and the filters that a set finds.
use kyua.Prelude.{
  ◌≡◌, ◌↔◌, ◌⊎◌, inl, inr, refl, sym, ap, ◌∙◌, true, false, Option, none, some, List, [], ◌∷◌, ◌++◌,
  arith, any, is_empty, Bool-cases,
}
use kyua.Prelude.Bytes.{Bytes, str_eq_iff}
use kyua.FsPath.{FsPath}
use kyua.FsPath.Normal.{IsNormal}
use kyua.FsPath.Branch.{path_eq_iff}
use kyua.FsPath.Parent.{IsParent, IsParent-trans, IsParent-linear, is_parent_of_iff}
use kyua.Filters.{TestFilter, contains, matches_test_program, matches_test_case, find_match}
use kyua.Filters.Order.{filter_eq_iff, TestFilter-eq}

-- The test programs that a filter selects.
abbrev pub Selects : TestFilter → FsPath → Type 0
Selects f p = (f.test_program ≡ p) ⊎ ((f.test_case ≡ []) × IsParent f.test_program p)

-- The test cases that a filter selects.
abbrev pub SelectsCase : TestFilter → FsPath → Bytes → Type 0
SelectsCase f p c = Selects f p × ((f.test_case ≡ []) ⊎ (f.test_case ≡ c))

is_empty_iff : (s : Bytes) → (is_empty s ≡ true) ↔ (s ≡ [])
is_empty_iff [] = (λ _. refl, λ _. refl)
is_empty_iff (c ∷ s) = (λ h. cc, λ h. cc)

module _ (f : TestFilter) (p : FsPath) (n : IsNormal f.test_program) (m : IsNormal p) where
  pub matches_test_program_iff : (matches_test_program f p ≡ true) ↔ Selects f p
  unfolding matches_test_program
  matches_test_program_iff = (
    λ h. ground (
      arith,
      is_empty_iff f.test_case,
      path_eq_iff f.test_program p,
      is_parent_of_iff f.test_program p n m,
    ),
    λ h. ground (
      arith,
      is_empty_iff f.test_case,
      path_eq_iff f.test_program p,
      is_parent_of_iff f.test_program p n m,
    ),
  )

  -- `matches_test_case` decides, on paths in normal form, whether a filter selects a test case: its
  -- path is the test program, or it names no test case and its path is a parent of the program; and
  -- it names no test case, or this one.
  pub matches_test_case_iff : (c : Bytes) → (matches_test_case f p c ≡ true) ↔ SelectsCase f p c
  unfolding matches_test_case
  matches_test_case_iff c = (
    λ h.
        ground
          (arith, matches_test_program_iff, is_empty_iff f.test_case, str_eq_iff f.test_case c),
    λ h.
        ground
          (arith, matches_test_program_iff, is_empty_iff f.test_case, str_eq_iff f.test_case c),
  )

pub contains_iff :
    (f g : TestFilter)
    → IsNormal f.test_program
    → IsNormal g.test_program
    → (contains f g ≡ true)
      ↔ ((f ≡ g) ⊎ ((f.test_case ≡ []) × IsParent f.test_program g.test_program))
unfolding contains
contains_iff f g n m = (
  λ h. ground (
    arith,
    filter_eq_iff f g,
    is_empty_iff f.test_case,
    is_parent_of_iff f.test_program g.test_program n m,
  ),
  λ h. ground (
    arith,
    filter_eq_iff f g,
    is_empty_iff f.test_case,
    is_parent_of_iff f.test_program g.test_program n m,
  ),
)

-- A filter that contains another selects all that the other selects.
SelectsCase-contains :
    (f g : TestFilter) (p : FsPath) (c : Bytes)
    → (f ≡ g) ⊎ ((f.test_case ≡ []) × IsParent f.test_program g.test_program)
    → SelectsCase g p c
    → SelectsCase f p c
SelectsCase-contains f g p c (inl e) h = rw e h
SelectsCase-contains f g p c (inr (whole, up)) (inl e, h) = (inr (whole, rw (← e) up), inl whole)
SelectsCase-contains f g p c (inr (whole, up)) (inr (_, down), h) =
    (inr (whole, IsParent-trans f.test_program g.test_program p up down), inl whole)

-- Whatever test case the contained filter matches, the containing one matches, where the paths of
-- both and of the test program are in normal form.
pub matches_test_case-contains :
    (f g : TestFilter) (p : FsPath) (c : Bytes)
    → IsNormal f.test_program
    → IsNormal g.test_program
    → IsNormal p
    → contains f g ≡ true
    → matches_test_case g p c ≡ true
    → matches_test_case f p c ≡ true
matches_test_case-contains f g p c n m k h w = (matches_test_case_iff f p n k c).1 (
    SelectsCase-contains f g p c ((contains_iff f g n m).0 h)
      ((matches_test_case_iff g p m k c).0 w))

abbrev Covers : TestFilter → TestFilter → Type 0
Covers f g = (f ≡ g) ⊎ ((f.test_case ≡ []) × IsParent f.test_program g.test_program)

-- Two filters that select one test case: one of them contains the other.
SelectsCase-overlap :
    (f g : TestFilter) (p : FsPath) (c : Bytes)
    → SelectsCase f p c
    → SelectsCase g p c
    → Covers f g ⊎ Covers g f
SelectsCase-overlap f g p c (inl e, inl w) (inl k, _) = inl (inr (w, inl (e ∙ sym k)))
SelectsCase-overlap f g p c (inl e, inr w) (inl k, inl v) = inr (inr (v, inl (k ∙ sym e)))
SelectsCase-overlap f g p c (inl e, inr w) (inl k, inr v) =
    inl (inl (TestFilter-eq f g (e ∙ sym k) (w ∙ sym v)))
SelectsCase-overlap f g p c (inl e, _) (inr (v, up), _) = inr (inr (v, rw e up))
SelectsCase-overlap f g p c (inr (w, up), _) (inl k, _) = inl (inr (w, rw k up))
SelectsCase-overlap f g p c (inr (w, up), _) (inr (v, over), _) =
    elim (IsParent-linear f.test_program g.test_program p up over) [
      | inl h ↦ inl (inr (w, h))
      | inr h ↦ inr (inr (v, h))
    ]

-- Of two filters that match one test case, all paths in normal form, one contains the other.
pub contains_overlap :
    (f g : TestFilter) (p : FsPath) (c : Bytes)
    → IsNormal f.test_program
    → IsNormal g.test_program
    → IsNormal p
    → matches_test_case f p c ≡ true
    → matches_test_case g p c ≡ true
    → (contains f g ≡ true) ⊎ (contains g f ≡ true)
contains_overlap f g p c n m k h w =
    elim (SelectsCase-overlap f g p c ((matches_test_case_iff f p n k c).0 h)
      ((matches_test_case_iff g p m k c).0 w)) [
        | inl v ↦ inl ((contains_iff f g n m).1 v)
        | inr v ↦ inr ((contains_iff g f m n).1 v)
      ]

-- The first filter of a set, in its order, that matches a test case.
pub record IsFirst (fs : List TestFilter) (p : FsPath) (c : Bytes) (f : TestFilter) : Type 0 where
  pub before : List TestFilter
  pub after : List TestFilter
  pub split : fs ≡ before ++ (f ∷ after)
  pub none_before : any (λ g. matches_test_case g p c) before ≡ false
  pub matches : matches_test_case f p c ≡ true

abbrev pub Finds : List TestFilter → FsPath → Bytes → Option TestFilter → Type 0
Finds fs p c none = any (λ g. matches_test_case g p c) fs ≡ false
Finds fs p c (some f) = IsFirst fs p c f

step :
    (f : TestFilter) (fs : List TestFilter) (p : FsPath) (c : Bytes)
    → matches_test_case f p c ≡ false
    → (o : Option TestFilter) → Finds fs p c o
    → Finds (f ∷ fs) p c o
step f fs p c e none h = ground arith
step f fs p c e (some g) h = record {
  before = f ∷ h.before;
  after = h.after;
  split = ap (◌∷◌ f) h.split;
  none_before = rw e h.none_before;
  matches = h.matches;
}

-- The filter that `find_match` returns matches the test case, and none before it in the set does;
-- where it returns none, no filter of the set matches.
pub find_match-Finds :
    (fs : List TestFilter) (p : FsPath) (c : Bytes) → Finds fs p c (find_match fs p c)
unfolding find_match
find_match-Finds [] p c = refl
find_match-Finds (f ∷ fs) p c = elim (Bool-cases (matches_test_case f p c)) [
  | inl e ↦
      rw (e, find_match)
        (record { before = []; after = fs; split = refl; none_before = refl; matches = e })
  | inr e ↦ rw (e, find_match) (step f fs p c e (find_match fs p c) (find_match-Finds fs p c))
]
