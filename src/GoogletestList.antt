-- ===== src/GoogletestList.antt =====
-- engine/googletest_list.cpp: the list of test cases of a Google Test program.
use kyua.Prelude.{
  ◌≡◌, refl, Bool, true, false, Option, none, some, List, [], ◌∷◌, ◌++◌, filter, ◌||◌, Option-cases,
  inl, inr,
}
use kyua.Prelude.Bytes.{Bytes, bytes, pieces}
use kyua.Prelude.Results.{Result, ok, err, ◌>>=◌}
use kyua.ModelMetadata.{Metadata}
use kyua.AtfList.{
  ListError, format_error, TestCases, add_test_case, complete_lines, some_cases, started, finished,
}
use kyua.ModelMetadata.Builder.{new_builder, build}

-- The regular expressions of `parse_googletest_list`, parameters of the model: the group 1 of
-- `testcase_re` and of `testsuite_re` where they match a whole line.
pub record ListPatterns : Type 0 where
  pub testcase : Bytes → Option Bytes
  pub testsuite : Bytes → Option Bytes

-- `metadata_builder().build()`.
unfoldable pub default_metadata : Result ListError Metadata
default_metadata = started new_builder >>= λ b. finished (build b)

-- `test_cases_map_builder::add` of a name.
unfoldable pub add_named : Bytes → TestCases → Result ListError TestCases
unfolding add_test_case
add_named name cases = default_metadata >>= λ m. ok (add_test_case name m cases)

-- The loop over the lines, with the suite that the last suite line named.
unfoldable pub parse_test_lines :
    ListPatterns → List Bytes → Bytes → TestCases → Result ListError TestCases
unfolding add_named
parse_test_lines p [] test_suite cases = ok cases
parse_test_lines p (line ∷ lines) test_suite cases = elim (p.testcase line) [
  | some test_case ↦ elim test_suite [
    | [] ↦ err (
        format_error (bytes "Invalid testcase definition: not preceded by a test suite definition"))
    | c ∷ suite ↦
        add_named ((c ∷ suite) ++ test_case) cases >>= parse_test_lines p lines (c ∷ suite)
  ]
  | none ↦ elim (p.testsuite line) [
    | some name ↦ parse_test_lines p lines (name ++ bytes ".") cases
    | none ↦ parse_test_lines p lines test_suite cases
  ]
]

-- `parse_googletest_list`: of the lines, those that end.
unfoldable pub parse_googletest_list : ListPatterns → Bytes → Result ListError TestCases
unfolding parse_test_lines complete_lines
parse_googletest_list p input =
    parse_test_lines p (complete_lines (pieces b'\n' input)).0 [] [] >>= some_cases

-- Whether one of the expressions matches a line.
abbrev pub is_given {ℓ} : {A : Type ℓ} → Option A → Bool
is_given none = false
is_given (some a) = true

abbrev pub is_matched : ListPatterns → Bytes → Bool
is_matched p line = is_given (p.testcase line) || is_given (p.testsuite line)

>>=-cong {ℓ κ} :
    {A : Type ℓ} {B : Type κ} (r : Result ListError A) (f g : A → Result ListError B)
    → ((a : A) → f a ≡ g a)
    → (r >>= f) ≡ (r >>= g)
>>=-cong (ok a) f g h = h a
>>=-cong (err e) f g h = refl

-- The lines that no expression matches change nothing.
pub parse_test_lines-filter :
    (p : ListPatterns) (lines : List Bytes) (suite : Bytes) (cases : TestCases)
    → parse_test_lines p (filter (is_matched p) lines) suite cases
      ≡ parse_test_lines p lines suite cases
unfolding parse_test_lines
parse_test_lines-filter p [] suite cases = refl
parse_test_lines-filter p (line ∷ lines) suite cases = elim (Option-cases (p.testcase line)) [
  | inr (name, e) ↦
      elim suite
        as (λ s.
          parse_test_lines p (filter (is_matched p) (line ∷ lines)) s cases
          ≡ parse_test_lines p (line ∷ lines) s cases) [
            | [] ↦ (rw e (rw (e, parse_test_lines) refl))
            | c ∷ rest ↦
                (rw e (
                  rw (e, parse_test_lines)
                    (>>=-cong (add_named ((c ∷ rest) ++ name) cases) _ _
                      (λ made. parse_test_lines-filter p lines (c ∷ rest) made))))
          ]
  | inl e ↦ elim (Option-cases (p.testsuite line)) [
    | inr (name, d) ↦
        (rw (e, d)
          (rw (e, d, parse_test_lines) (parse_test_lines-filter p lines (name ++ bytes ".") cases)))
    | inl d ↦
        (rw (e, d) (rw (e, d, parse_test_lines) (parse_test_lines-filter p lines suite cases)))
  ]
]
