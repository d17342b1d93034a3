-- ===== src/AtfList/Fuel.antt =====
-- engine/atf_list.cpp: the loop of the parser ends, and what it returns has a test case.
use kyua.Prelude.{
  ℕ, zero, suc, ◌≤◌, ◌<◌, ◌≡◌, refl, drop, subst, Bool, true, false, not, none, some, List, [], ◌∷◌,
  is_empty, length, arith, if◌then◌else◌, Option-cases, inl, inr,
}
use kyua.Prelude.Bytes.{Bytes, pieces, str_eq}
use kyua.Prelude.Results.{Result, ok, err, ◌>>=◌}
use kyua.Units.{Floats}
use kyua.Config.{ConfigError}
use kyua.ModelMetadata.{Metadata}
use kyua.ModelMetadata.Builder.{
  ModelError, config_error, Builder, Built, new_builder, set_string, add_custom, build,
}
use kyua.AtfList.{
  content_type, bad_content_type, no_blank_line, ListError, format_error, out_of_fuel,
  split_prop_line, Properties, add_property, parse_properties, metadata_key, caught,
  set_atf_property, set_atf_properties, started, finished, parse_atf_metadata, TestCases,
  add_test_case, identifier, parse_test_cases, parse_lines, parse_atf_list, complete_lines,
  some_cases,
}

-- Whether a result is not the one for no fuel.
abbrev pub is_thrown : ListError → Bool
is_thrown out_of_fuel = false
is_thrown e = true

abbrev pub has_run {ℓ} : {A : Type ℓ} → Result ListError A → Bool
has_run (ok a) = true
has_run (err e) = is_thrown e

>>=-has_run {ℓ κ} :
    {A : Type ℓ} {B : Type κ} (r : Result ListError A) (k : A → Result ListError B)
    → has_run r ≡ true
    → ((a : A) → r ≡ ok a → has_run (k a) ≡ true)
    → has_run (r >>= k) ≡ true
>>=-has_run (ok a) k h f = f a refl
>>=-has_run (err e) k h f = h

split-has_run : (line : Bytes) → has_run (split_prop_line line) ≡ true
unfolding split_prop_line
split-has_run line = ground arith

add-has_run : (p : Bytes × Bytes) (ps : Properties) → has_run (add_property p ps) ≡ true
unfolding add_property
add-has_run (name, value) ps = ground arith

identifier-has_run : (p : Bytes × Bytes) → has_run (identifier p) ≡ true
unfolding identifier
identifier-has_run (name, value) = ground arith

properties-has_run :
    (lines : List Bytes) (ps : Properties) → has_run (parse_properties lines ps) ≡ true
unfolding parse_properties
properties-has_run [] ps = refl
properties-has_run ([] ∷ rest) ps = refl
properties-has_run ((c ∷ line) ∷ rest) ps =
    >>=-has_run (split_prop_line (c ∷ line)) _ (split-has_run (c ∷ line)) (λ p h.
      >>=-has_run (add_property p ps) _ (add-has_run p ps) (λ qs k. properties-has_run rest qs))

caught-has_run : (b : Built) → has_run (caught b) ≡ true
caught-has_run (b, none) = refl
caught-has_run (b, some (config_error e)) = refl
caught-has_run (b, some e) = refl

finished-has_run : (r : Result ModelError (Metadata × Builder)) → has_run (finished r) ≡ true
finished-has_run (ok (m, b)) = refl
finished-has_run (err e) = refl

custom-has_run :
    (t : Bool) (b : Built) (what : Bytes)
    → has_run (if t then caught b else err (format_error what)) ≡ true
custom-has_run true b what = caught-has_run b
custom-has_run false b what = refl

set-has_run :
    (f : Floats) (p : Bytes × Bytes) (b : Builder) → has_run (set_atf_property f p b) ≡ true
unfolding set_atf_property
set-has_run f (name, value) b = elim (Option-cases (metadata_key name)) [
  | inr (key, e) ↦ rw (e, set_atf_property) (caught-has_run (set_string f key value b))
  | inl e ↦ rw (e, set_atf_property) (custom-has_run _ (add_custom f (drop 2 name) value b) _)
]

set_all-has_run :
    (f : Floats) (ps : Properties) (b : Builder) → has_run (set_atf_properties f ps b) ≡ true
unfolding set_atf_properties
set_all-has_run f [] b = refl
set_all-has_run f (p ∷ ps) b =
    >>=-has_run (set_atf_property f p b) _ (set-has_run f p b) (λ c h. set_all-has_run f ps c)

-- The lines behind the properties are no more than those read.
behind : {A : Type 0} → Result ListError (A × List Bytes) → ℕ
behind (ok (a, rest)) = length rest
behind (err e) = 0

>>=-behind :
    {A B : Type 0} (r : Result ListError A) (k : A → Result ListError (B × List Bytes)) (n : ℕ)
    → ((a : A) → behind (k a) ≤ n)
    → behind (r >>= k) ≤ n
unfolding behind
>>=-behind (ok a) k n h = h a
>>=-behind (err e) k n h = omega arith

properties-shorter :
    (lines : List Bytes) (ps : Properties) → behind (parse_properties lines ps) ≤ length lines
unfolding parse_properties behind
properties-shorter [] ps = omega arith
properties-shorter ([] ∷ rest) ps = omega arith
properties-shorter ((c ∷ line) ∷ rest) ps =
    >>=-behind (split_prop_line (c ∷ line)) _ (suc (length rest)) (λ p.
      >>=-behind (add_property p ps) _ (suc (length rest))
        (λ qs. omega (arith, properties-shorter rest qs)))

started-has_run : (r : Result ConfigError Builder) → has_run (started r) ≡ true
started-has_run (ok b) = refl
started-has_run (err e) = refl

behind-ok :
    (parsed : Properties × List Bytes) (lines : List Bytes)
    → parse_properties lines [] ≡ ok parsed
    → length parsed.1 ≤ length lines
unfolding behind
behind-ok parsed lines e = subst (λ r. behind r ≤ length lines) e (properties-shorter lines [])

metadata-has_run : (f : Floats) (ps : Properties) → has_run (parse_atf_metadata f ps) ≡ true
unfolding parse_atf_metadata
metadata-has_run f ps = >>=-has_run (started new_builder) _ (started-has_run new_builder) (λ b h.
    >>=-has_run (set_atf_properties f ps b) _ (set_all-has_run f ps b)
      (λ c k. finished-has_run (build c)))

-- With more fuel than lines, the loop of the parser does not run out of it.
test_cases-has_run :
    (fuel : ℕ) (f : Floats) (lines : List Bytes) (cases : TestCases)
    → length lines < fuel
    → has_run (parse_test_cases fuel f lines cases) ≡ true
unfolding parse_test_cases behind
test_cases-has_run zero f lines cases h = absurd (omega (arith, h))
test_cases-has_run (suc fuel) f [] cases h = refl
test_cases-has_run (suc fuel) f (line ∷ lines) cases h =
    >>=-has_run (split_prop_line line) _ (split-has_run line) (λ p _.
      >>=-has_run (identifier p) _ (identifier-has_run p) (λ name _.
        >>=-has_run (parse_properties lines []) _ (properties-has_run lines []) (λ parsed e.
          >>=-has_run (parse_atf_metadata f parsed.0) _ (metadata-has_run f parsed.0) (λ m _.
            test_cases-has_run fuel f parsed.1 (add_test_case name m cases)
              (omega (arith, h, behind-ok parsed lines e))))))

-- Whether a parse gave a map with a test case, or threw.
abbrev pub has_cases : Result ListError TestCases → Bool
has_cases (ok []) = false
has_cases (ok (c ∷ cases)) = true
has_cases (err e) = is_thrown e

some_cases-has_cases :
    (r : Result ListError TestCases) → has_run r ≡ true → has_cases (r >>= some_cases) ≡ true
some_cases-has_cases (ok []) h = refl
some_cases-has_cases (ok (c ∷ cases)) h = refl
some_cases-has_cases (err e) h = h

guards-has_cases :
    (p q : Bool) (a b : Bytes) (r : Result ListError TestCases)
    → has_cases r ≡ true
    → has_cases (if p then err (format_error a) else if q then err (format_error b) else r) ≡ true
guards-has_cases true q a b r h = refl
guards-has_cases false true a b r h = refl
guards-has_cases false false a b r h = h

header-has_cases :
    (p : Bool) (a b : Result ListError TestCases)
    → has_cases a ≡ true
    → has_cases b ≡ true
    → has_cases (if p then a else b) ≡ true
header-has_cases true a b h k = h
header-has_cases false a b h k = k

lines-has_cases :
    (f : Floats) (lines : List Bytes) (last : Bytes) → has_cases (parse_lines f lines last) ≡ true
unfolding parse_lines
lines-has_cases f [] last = refl
lines-has_cases f (line ∷ []) last =
    header-has_cases (str_eq line content_type) (err (no_blank_line last))
      (err (bad_content_type line)) refl refl
lines-has_cases f (line ∷ blank ∷ lines) last =
    guards-has_cases _ (not (is_empty blank)) _ _
      (parse_test_cases (suc (length lines)) f lines [] >>= some_cases)
      (some_cases-has_cases (parse_test_cases (suc (length lines)) f lines [])
        (test_cases-has_run (suc (length lines)) f lines [] (omega arith)))

-- The parser of lists of test cases ends on every input: it returns a map with at least one
-- test case, or throws.
pub parse_atf_list-has_cases :
    (f : Floats) (input : Bytes) → has_cases (parse_atf_list f input) ≡ true
unfolding parse_atf_list
parse_atf_list-has_cases f input =
    lines-has_cases f (complete_lines (pieces b'\n' input)).0
      (complete_lines (pieces b'\n' input)).1
