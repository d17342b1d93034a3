-- ===== src/Filters/Disjoint.antt =====
-- `check_disjoint_filters`, and what it gives to the matching.
use kyua.Prelude.{
  ◌≡◌, inl, inr, refl, sym, Bool, true, false, not, ◌&&◌, ◌||◌, List, [], ◌∷◌, arith, all,
  Bool-cases,
}
use kyua.Prelude.Bytes.{Bytes}
use kyua.Prelude.{subst}
use kyua.Prelude.Results.{Result, ok, err}
use kyua.FsPath.{FsPath}
use kyua.FsPath.Normal.{IsNormal}
use kyua.Filters.{
  TestFilter, FilterError, not_disjoint, filter_str, contains, filter_eq, matches_test_case, member,
  check_against, check_each, check_disjoint_filters,
}
use kyua.Filters.Matching.{contains_overlap}
use kyua.Filters.Order.{filter_eq_iff, filter_eq_self, all-member}

-- Two filters do not clash: they are one filter, or the first does not contain the second.
abbrev pub agrees : TestFilter → TestFilter → Bool
agrees f g = filter_eq f g || not (contains f g)

abbrev pub disjoint : List TestFilter → List TestFilter → Bool
disjoint fs gs = all (λ f. all (agrees f) gs) fs

-- Two filters of a list clash, and the error names them.
pub record Clash (fs gs : List TestFilter) (e : FilterError) : Type 0 where
  pub first : TestFilter
  pub second : TestFilter
  pub first_member : member first fs ≡ true
  pub second_member : member second gs ≡ true
  pub differ : filter_eq first second ≡ false
  pub overlap : contains first second ≡ true
  pub names : e ≡ not_disjoint (filter_str first) (filter_str second)

-- The outcome of a check over two lists of filters, by whether all of them agree.
abbrev pub Outcome : List TestFilter → List TestFilter → Result FilterError (Unit {0}) → Type 0
Outcome fs gs (ok _) = disjoint fs gs ≡ true
Outcome fs gs (err e) = (disjoint fs gs ≡ false) × Clash fs gs e

widen_second :
    (f g : TestFilter) (gs : List TestFilter) (r : Result FilterError (Unit {0}))
    → agrees f g ≡ true
    → Outcome (f ∷ []) gs r
    → Outcome (f ∷ []) (g ∷ gs) r
widen_second f g gs (ok _) e h = ground arith
widen_second f g gs (err x) e (h, c) = (
  ground arith,
  record {
    first = c.first;
    second = c.second;
    first_member = c.first_member;
    second_member = ground (arith, c.second_member);
    differ = c.differ;
    overlap = c.overlap;
    names = c.names;
  },
)

check_against-Outcome :
    (f : TestFilter) (gs : List TestFilter) → Outcome (f ∷ []) gs (check_against f gs)
unfolding check_against
check_against-Outcome f [] = refl
check_against-Outcome f (g ∷ gs) = elim (Bool-cases (not (filter_eq f g) && contains f g)) [
  | inl e ↦
      rw (e, check_against)
        (
          ground arith,
          record {
            first = f;
            second = g;
            first_member = rw (filter_eq_self f) refl;
            second_member = rw (filter_eq_self g) refl;
            differ = ground arith;
            overlap = ground arith;
            names = refl;
          },
        )
  | inr e ↦
      rw (e, check_against)
        (widen_second f g gs (check_against f gs) (ground arith) (check_against-Outcome f gs))
]

add_row :
    (f : TestFilter) (fs gs : List TestFilter) (r s : Result FilterError (Unit {0}))
    → Outcome (f ∷ []) gs r
    → Outcome fs gs s
    → Outcome (f ∷ fs) gs (elim r [ ok _ ↦ s | err e ↦ err e ])
add_row f fs gs (ok _) (ok _) h k = ground arith
add_row f fs gs (ok _) (err e) h (k, c) = (
  ground arith,
  record {
    first = c.first;
    second = c.second;
    first_member = ground (arith, c.first_member);
    second_member = c.second_member;
    differ = c.differ;
    overlap = c.overlap;
    names = c.names;
  },
)
add_row f fs gs (err e) s (h, c) k = (
  ground arith,
  record {
    first = c.first;
    second = c.second;
    first_member = ground (arith, c.first_member);
    second_member = c.second_member;
    differ = c.differ;
    overlap = c.overlap;
    names = c.names;
  },
)

check_each-Outcome : (fs gs : List TestFilter) → Outcome fs gs (check_each fs gs)
unfolding check_each
check_each-Outcome [] gs = refl
check_each-Outcome (f ∷ fs) gs =
    add_row f fs gs (check_against f gs) (check_each fs gs) (check_against-Outcome f gs)
      (check_each-Outcome fs gs)

-- The check passes exactly if no filter of the set contains another; else the error names two
-- different filters of the set of which the first contains the second.
pub check_disjoint_filters-Outcome :
    (fs : List TestFilter) → Outcome fs fs (check_disjoint_filters fs)
unfolding check_disjoint_filters
check_disjoint_filters-Outcome fs = check_each-Outcome fs fs

-- Where the check passes on filters with paths in normal form, at most one filter of the set
-- matches a test case of a program with such a path.
pub matches_unique :
    (fs : List TestFilter) (f g : TestFilter) (p : FsPath) (c : Bytes)
    → ((h : TestFilter) → member h fs ≡ true → IsNormal h.test_program)
    → IsNormal p
    → check_disjoint_filters fs ≡ ok tt
    → member f fs ≡ true
    → member g fs ≡ true
    → matches_test_case f p c ≡ true
    → matches_test_case g p c ≡ true
    → f ≡ g
matches_unique fs f g p c normal n passed mf mg hf hg =
    let all_agree : disjoint fs fs ≡ true =
      subst (Outcome fs fs) passed (check_disjoint_filters-Outcome fs) in
    let row_f =
      all-member (agrees f) g fs mg (all-member (λ h. all (agrees h) fs) f fs mf all_agree) in
    let row_g =
      all-member (agrees g) f fs mf (all-member (λ h. all (agrees h) fs) g fs mg all_agree) in
    elim (contains_overlap f g p c (normal f mf) (normal g mg) n hf hg) [
      | inl k ↦ (filter_eq_iff f g).0 (ground arith)
      | inr k ↦ sym ((filter_eq_iff g f).0 (ground arith))
    ]
