-- ===== src/Filters/Order.antt =====
-- The order of test filters, and the ordered set that `insert` builds.
use kyua.Prelude.{
  ◌≡◌, ◌↔◌, inl, inr, refl, ap, Bool, true, false, ◌&&◌, ◌||◌, List, [], ◌∷◌, arith, filter, any,
  all, Bool-cases,
}
use kyua.Prelude.Bytes.{str_eq_iff, str_lt_irrefl, str_lt_trans, str_lt_total}
use kyua.FsPath.{path_eq, path_lt}
use kyua.FsPath.Branch.{path_eq_iff}
use kyua.Filters.{TestFilter, filter_eq, filter_lt, insert, member}

pub TestFilter-eq :
    (f g : TestFilter) → f.test_program ≡ g.test_program → f.test_case ≡ g.test_case → f ≡ g
TestFilter-eq f g p c = λ i. record { test_program = p i; test_case = c i }

pub filter_eq_iff : (f g : TestFilter) → (filter_eq f g ≡ true) ↔ (f ≡ g)
unfolding filter_eq
filter_eq_iff f g = (
  λ h. TestFilter-eq f g ((path_eq_iff _ _).0 (ground arith)) ((str_eq_iff _ _).0 (ground arith)),
  λ e. ground (
    arith,
    (path_eq_iff f.test_program g.test_program).1 (ap (λ (x : TestFilter). x.test_program) e),
    (str_eq_iff f.test_case g.test_case).1 (ap (λ (x : TestFilter). x.test_case) e),
  ),
)

pub filter_eq_self : (f : TestFilter) → filter_eq f f ≡ true
filter_eq_self f = (filter_eq_iff f f).1 refl

filter_lt_irrefl : (f : TestFilter) → filter_lt f f ≡ false
unfolding filter_lt path_lt
filter_lt_irrefl f = ground (arith, str_lt_irrefl f.test_program.repr, str_lt_irrefl f.test_case)

filter_lt_trans :
    (f g h : TestFilter) → filter_lt f g ≡ true → filter_lt g h ≡ true → filter_lt f h ≡ true
unfolding filter_lt path_lt path_eq
filter_lt_trans f g h p q = ground (
  arith,
  str_lt_trans f.test_program.repr g.test_program.repr h.test_program.repr,
  str_lt_trans f.test_case g.test_case h.test_case,
  str_eq_iff f.test_program.repr g.test_program.repr,
  str_eq_iff g.test_program.repr h.test_program.repr,
  str_eq_iff f.test_program.repr h.test_program.repr,
)

filter_lt_total : (f g : TestFilter) → filter_lt f g ≡ false → filter_lt g f ≡ false → f ≡ g
unfolding filter_lt path_lt path_eq
filter_lt_total f g p q =
    let same : f.test_program.repr ≡ g.test_program.repr =
      str_lt_total _ _ (ground arith) (ground arith) in
    TestFilter-eq f g (ap (λ r. record { repr = r }) same) (
      str_lt_total _ _ (ground (arith, same, str_eq_iff f.test_program.repr g.test_program.repr))
        (ground (arith, same, str_eq_iff g.test_program.repr f.test_program.repr)))

abbrev pub is_sorted : List TestFilter → Bool
is_sorted [] = true
is_sorted (f ∷ fs) = all (filter_lt f) fs && is_sorted fs

all-insert :
    (p : TestFilter → Bool) (f : TestFilter) (fs : List TestFilter)
    → all p (insert f fs) ≡ (p f && all p fs)
unfolding insert
all-insert p f [] = refl
all-insert p f (g ∷ gs) = ground (arith, all-insert p f gs, filter_lt_total f g)

any-insert :
    (p : TestFilter → Bool) (f : TestFilter) (fs : List TestFilter)
    → any p (insert f fs) ≡ (p f || any p fs)
unfolding insert
any-insert p f [] = refl
any-insert p f (g ∷ gs) = ground (arith, any-insert p f gs, filter_lt_total f g)

all-filter_lt_trans :
    (f g : TestFilter) (gs : List TestFilter)
    → filter_lt f g ≡ true
    → all (filter_lt g) gs ≡ true
    → all (filter_lt f) gs ≡ true
all-filter_lt_trans f g [] h k = refl
all-filter_lt_trans f g (x ∷ gs) h k =
    ground (arith, filter_lt_trans f g x, all-filter_lt_trans f g gs)

is_sorted-insert :
    (f : TestFilter) (fs : List TestFilter) → is_sorted fs ≡ true → is_sorted (insert f fs) ≡ true
unfolding insert
is_sorted-insert f [] h = refl
is_sorted-insert f (g ∷ gs) h =
    ground (arith, is_sorted-insert f gs, all-insert (filter_lt g) f gs, all-filter_lt_trans f g gs)

-- Inserting into an ordered set keeps it ordered, and adds the one filter to its elements.
pub insert_lem :
    (f : TestFilter) (fs : List TestFilter)
    → is_sorted fs ≡ true
    → (is_sorted (insert f fs) ≡ true)
      × ((g : TestFilter) → member g (insert f fs) ≡ (filter_eq g f || member g fs))
insert_lem f fs h = (is_sorted-insert f fs h, λ g. any-insert (filter_eq g) f fs)

pub all-member :
    (p : TestFilter → Bool) (f : TestFilter) (fs : List TestFilter)
    → member f fs ≡ true
    → all p fs ≡ true
    → p f ≡ true
all-member p f [] h k = cc
all-member p f (g ∷ gs) h k = elim (Bool-cases (filter_eq f g)) [
  | inl e ↦ ground (arith, (filter_eq_iff f g).0 e)
  | inr e ↦ ground (arith, all-member p f gs)
]

pub member-filter :
    (p : TestFilter → Bool) (f : TestFilter) (fs : List TestFilter)
    → member f (filter p fs) ≡ (member f fs && p f)
member-filter p f [] = refl
member-filter p f (g ∷ gs) = ground (arith, member-filter p f gs, filter_eq_iff f g)
