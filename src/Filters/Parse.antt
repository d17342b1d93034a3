-- ===== src/Filters/Parse.antt =====
-- The grammar of a filter, and `parse` against it.
use kyua.Prelude.{
  ℕ, ◌+◌, ◌-◌, ◌≡◌, ◌≢◌, ◌↔◌, refl, sym, ap, ◌∙◌, true, false, Option, none, some, [], ◌∷◌, ◌++◌,
  arith, ◌==◌, length, drop, length-append, drop-drop,
}
use kyua.Prelude.Bytes.{Bytes, lacks, absent, at, find-Split, find_from-lacks, find_from-append}
use kyua.Prelude.{subst, take-append, drop-append}
use kyua.Prelude.Results.{Result, ok, err}
use kyua.FsPath.{FsPath, PathError, path, is_absolute}
use kyua.FsPath.Normal.{IsNormal, path-repr}
use kyua.Filters.{TestFilter, FilterError, parse_with, parse_at, parse, filter_str}

-- The texts of a filter: a relative path, and perhaps a colon and a test case that is not empty.
pub data IsText (f : TestFilter) : Bytes → Type 0 where
  program_only :
      {str : Bytes}
      → lacks b':' str ≡ true
      → path str ≡ ok f.test_program
      → f.test_case ≡ []
      → is_absolute f.test_program ≡ false
      → IsText f str
  with_case :
      {str : Bytes} (program : Bytes)
      → str ≡ program ++ (b':' ∷ f.test_case)
      → lacks b':' program ≡ true
      → path program ≡ ok f.test_program
      → f.test_case ≢ []
      → is_absolute f.test_program ≡ false
      → IsText f str

path-nil : (p : FsPath) → path [] ≢ ok p
unfolding path
path-nil p e = cc

parse_at-none : (c : ℕ) (s : Bytes) → parse_at (c ∷ s) none ≡ parse_with (c ∷ s) none (path (c ∷ s))
unfolding parse_at
parse_at-none c s = refl

parse_at-some :
    (c x : ℕ) (a r : Bytes)
    → parse_at (c ∷ a ++ (b':' ∷ x ∷ r)) (some (length (c ∷ a)))
      ≡ parse_with (c ∷ a ++ (b':' ∷ x ∷ r)) (some (length (c ∷ a))) (path (c ∷ a))
unfolding parse_at
parse_at-some c x a r =
    let text = c ∷ a ++ (b':' ∷ x ∷ r) in
    let not_first : (length (c ∷ a) == 0) ≡ false = ground arith in
    let not_last : (length (c ∷ a) == (length text - 1)) ≡ false =
      ground (arith, length-append a (b':' ∷ x ∷ r)) in
    let count : length (c ∷ a) - 0 ≡ length (c ∷ a) = omega arith in
    rw (not_first, not_last, count, take-append) refl

parse_with-ok :
    (str : Bytes) (pos : Option ℕ) (r : Result PathError FsPath) {f : TestFilter}
    → parse_with str pos r ≡ ok f
    → (p : FsPath) × (r ≡ ok p)
      × (is_absolute p ≡ false)
      × (f ≡ record {
        test_program = p;
        test_case = elim pos [ none ↦ [] | some n ↦ drop (n + 1) str ];
      })
unfolding parse_with
parse_with-ok str pos (err e) h = cc
parse_with-ok str none (ok p) h = (p, refl, ground arith, ground arith)
parse_with-ok str (some n) (ok p) h = (p, refl, ground arith, ground arith)

drop_case : (a : Bytes) (x : ℕ) (r : Bytes) → drop (length a + 1) (a ++ (b':' ∷ x ∷ r)) ≡ x ∷ r
drop_case a x r = rw (← drop-drop 1 (length a), drop-append) refl

parse_at-last :
    (c : ℕ) (a : Bytes) {f : TestFilter}
    → parse_at (c ∷ a ++ (b':' ∷ [])) (some (length (c ∷ a))) ≢ ok f
unfolding parse_at
parse_at-last c a h =
    let last : (length (c ∷ a) == (length (c ∷ a ++ (b':' ∷ [])) - 1)) ≡ true =
      ground (arith, length-append a (b':' ∷ [])) in
    let not_first : (length (c ∷ a) == 0) ≡ false = ground arith in cc (rw (not_first, last) at h)

parse_at-IsText :
    (a r : Bytes) {f : TestFilter}
    → lacks b':' a ≡ true
    → parse_at (a ++ (b':' ∷ r)) (some (length a)) ≡ ok f
    → IsText f (a ++ (b':' ∷ r))
parse_at-IsText [] r free h = unfold parse_at in cc h
parse_at-IsText (c ∷ a) [] free h = absurd (parse_at-last c a h)
parse_at-IsText (c ∷ a) (x ∷ r) {f} free h =
    let (p, made, relative, same) =
      parse_with-ok _ (some (length (c ∷ a))) (path (c ∷ a)) (sym (parse_at-some c x a r) ∙ h) in
    rw same (
      with_case (c ∷ a) (rw (drop_case (c ∷ a) x r) refl) free made
        (λ e. cc (sym (drop_case (c ∷ a) x r) ∙ e)) relative)

parse-IsText : (str : Bytes) {f : TestFilter} → parse str ≡ ok f → IsText f str
unfolding parse
parse-IsText [] h = unfold parse_at in cc h
parse-IsText (c ∷ s) {f} h = elim (find-Split b':' (c ∷ s)) [
  | absent free e ↦
      let (p, made, relative, same) =
        parse_with-ok (c ∷ s) none (path (c ∷ s)) (rw (e, parse_at-none) at h) in
      rw same (program_only free made refl relative)
  | at a r shape free e ↦
      subst (IsText f) (sym shape) (parse_at-IsText a r free (rw (e, shape) at h))
]

with_path :
    (f : TestFilter) (t : Bytes)
    → t ≡ f.test_case
    → ◌≡◌ {A = Result FilterError TestFilter}
        (ok (record { test_program = f.test_program; test_case = t }))
        (ok f)
with_path f t e = ap (λ u. ok (record { test_program = f.test_program; test_case = u })) e

parse-program_only :
    (str : Bytes) (f : TestFilter)
    → lacks b':' str ≡ true
    → path str ≡ ok f.test_program
    → f.test_case ≡ []
    → is_absolute f.test_program ≡ false
    → parse str ≡ ok f
unfolding parse parse_with
parse-program_only [] f free made whole relative = absurd (path-nil f.test_program made)
parse-program_only (c ∷ s) f free made whole relative =
    rw (find_from-lacks b':' (c ∷ s) free, parse_at-none, made, relative)
      (with_path f [] (sym whole))

parse-with_case :
    (a r : Bytes) (f : TestFilter)
    → lacks b':' a ≡ true
    → path a ≡ ok f.test_program
    → r ≡ f.test_case
    → r ≢ []
    → is_absolute f.test_program ≡ false
    → parse (a ++ (b':' ∷ r)) ≡ ok f
unfolding parse parse_with
parse-with_case [] r f free made same ne relative = absurd (path-nil f.test_program made)
parse-with_case (c ∷ a) [] f free made same ne relative = absurd (ne refl)
parse-with_case (c ∷ a) (x ∷ r) f free made same ne relative =
    rw
      (
        find_from-append b':' (c ∷ a) (x ∷ r) free,
        parse_at-some,
        made,
        relative,
        drop_case (c ∷ a) x r,
      )
      (with_path f (x ∷ r) same)

IsText-parse : (str : Bytes) {f : TestFilter} → IsText f str → parse str ≡ ok f
IsText-parse str {f} (program_only free made whole relative) =
    parse-program_only str f free made whole relative
IsText-parse str {f} (with_case program shape free made case relative) =
    rw shape (parse-with_case program f.test_case f free made refl case relative)

-- `parse` returns a filter exactly on the texts of that filter.
pub parse_iff : (str : Bytes) (f : TestFilter) → (parse str ≡ ok f) ↔ IsText f str
parse_iff str f = (parse-IsText str, IsText-parse str)

filter_str-IsText :
    (p : FsPath) (t : Bytes)
    → IsNormal p
    → is_absolute p ≡ false
    → lacks b':' p.repr ≡ true
    → let f : TestFilter = record { test_program = p; test_case = t } in IsText f (filter_str f)
unfolding filter_str
filter_str-IsText p [] n relative free = program_only free (path-repr p n) refl relative
filter_str-IsText p (c ∷ t) n relative free =
    with_case p.repr refl free (path-repr p n) (λ h. cc) relative

-- A filter is read back from its own text, if its program is a relative path in normal form with
-- no colon.
pub parse-filter_str :
    (f : TestFilter)
    → IsNormal f.test_program
    → is_absolute f.test_program ≡ false
    → lacks b':' f.test_program.repr ≡ true
    → parse (filter_str f) ≡ ok f
parse-filter_str f n relative free =
    IsText-parse (filter_str f) (filter_str-IsText f.test_program f.test_case n relative free)
