-- ===== src/AtfList/Printed.antt =====
-- engine/atf_list.cpp: the parser on the lines of a list of test cases.
use kyua.Prelude.{
  ℕ, zero, suc, ◌+◌, ◌<◌, ◌≡◌, refl, sym, ap, ap₂, ◌∙◌, Bool, true, false, not, ◌&&◌, ◌==◌, ==_iff,
  Option, none, some, List, [], ◌∷◌, ◌++◌, map, is_empty, all, length, take, drop, arith,
  append_assoc, take-append, drop-append, drop-drop,
}
use kyua.Prelude.Bytes.{Bytes, bytes}
use kyua.Prelude.Search.{find_str}
use kyua.Prelude.Results.{Result, ok, err, ◌>>=◌}
use kyua.Units.{Floats}
use kyua.AtfList.{
  ListError, split_prop_line, Properties, add_property, parse_properties, parse_atf_metadata,
  TestCases, add_test_case, identifier, parse_test_cases,
}

-- A property as a line.
abbrev pub prop_line : Bytes × Bytes → Bytes
prop_line (name, value) = name ++ (bytes ": " ++ value)

-- Whether the first ": " of the line is the one behind the name.
abbrev pub splits_at : Option ℕ → ℕ → Bool
splits_at none n = false
splits_at (some m) n = m == n

abbrev pub is_prop : Bytes × Bytes → Bool
is_prop (name, value) = splits_at (find_str (bytes ": ") (prop_line (name, value))) (length name)

found_at_name : (o : Option ℕ) (n : ℕ) → splits_at o n ≡ true → o ≡ some n
found_at_name none n h = absurd cc
found_at_name (some m) n h = ap some ((==_iff m n).0 h)

drop_prop :
    (name sep value : Bytes) → drop (length name + length sep) (name ++ (sep ++ value)) ≡ value
drop_prop name sep value =
    sym (drop-drop (length sep) (length name) (name ++ (sep ++ value)))
    ∙ ap (drop (length sep)) (drop-append name (sep ++ value))
    ∙ drop-append sep value

split_prop_line-prop_line :
    (p : Bytes × Bytes) → is_prop p ≡ true → split_prop_line (prop_line p) ≡ ok p
unfolding split_prop_line
split_prop_line-prop_line (name, value) h =
    rw
      (
        found_at_name (find_str (bytes ": ") (prop_line (name, value))) (length name) h,
        split_prop_line,
      )
      (ap₂ (λ a b. ok (a, b)) (take-append name (bytes ": " ++ value))
        (drop_prop name (bytes ": ") value))

-- The properties, added in their order.
unfoldable pub collect : List (Bytes × Bytes) → Properties → Result ListError Properties
collect [] properties = ok properties
collect (p ∷ ps) properties = add_property p properties >>= collect ps

abbrev behind : List Bytes → Properties → Result ListError (Properties × List Bytes)
behind rest properties = ok (properties, rest)

>>=-assoc {ℓ κ ν} :
    {A : Type ℓ} {B : Type κ} {C : Type ν} (r : Result ListError A) (f : A → Result ListError B)
    (g : B → Result ListError C)
    → ((r >>= f) >>= g) ≡ (r >>= λ a. f a >>= g)
>>=-assoc (ok a) f g = refl
>>=-assoc (err e) f g = refl

parse_properties-line :
    (line : Bytes) (rest : List Bytes) (properties : Properties)
    → is_empty line ≡ false
    → parse_properties (line ∷ rest) properties
      ≡ (split_prop_line line >>= λ p. add_property p properties >>= parse_properties rest)
unfolding parse_properties
parse_properties-line [] rest properties h = absurd cc
parse_properties-line (c ∷ line) rest properties h = refl

prop_line-filled : (p : Bytes × Bytes) → is_empty (prop_line p) ≡ false
prop_line-filled ([], value) = refl
prop_line-filled (c ∷ name, value) = refl

bind_ap {ℓ κ} :
    {A : Type ℓ} {B : Type κ} (r : Result ListError A) (f g : A → Result ListError B)
    → ((a : A) → f a ≡ g a)
    → (r >>= f) ≡ (r >>= g)
bind_ap (ok a) f g h = h a
bind_ap (err e) f g h = refl

parse_properties-printed :
    (ps : List (Bytes × Bytes)) (rest : List Bytes) (properties : Properties)
    → all is_prop ps ≡ true
    → parse_properties (map prop_line ps ++ ([] ∷ rest)) properties
      ≡ (collect ps properties >>= behind rest)
unfolding collect parse_properties
parse_properties-printed [] rest properties h = refl
parse_properties-printed (p ∷ ps) rest properties h =
    parse_properties-line (prop_line p) (map prop_line ps ++ ([] ∷ rest)) properties
      (prop_line-filled p)
    ∙ ap
        (λ r. r >>= λ q.
          add_property q properties >>= parse_properties (map prop_line ps ++ ([] ∷ rest)))
        (split_prop_line-prop_line p (ground arith))
    ∙ bind_ap (add_property p properties) _ _
        (λ made. parse_properties-printed ps rest made (ground arith))
    ∙ sym (>>=-assoc (add_property p properties) (collect ps) (behind rest))

-- A test case: its name and its properties in the order they are printed.
abbrev pub Case : Type 0
Case = Bytes × List (Bytes × Bytes)

abbrev pub case_lines : Case → List Bytes
case_lines (name, props) = (bytes "ident: " ++ name) ∷ (map prop_line props ++ ([] ∷ []))

unfoldable pub list_lines : List Case → List Bytes
list_lines [] = []
list_lines (c ∷ cs) = case_lines c ++ list_lines cs

abbrev pub is_case : Case → Bool
is_case (name, props) = not (is_empty name) && all is_prop props

-- What a list of test cases means: the map of their metadata, in which the first of equal names
-- stays, or the first error.
unfoldable pub meaning : Floats → List Case → TestCases → Result ListError TestCases
meaning f [] cases = ok cases
meaning f ((name, props) ∷ rest) cases = do
  properties ← collect props []
  m ← parse_atf_metadata f properties
  meaning f rest (add_test_case name m cases)

split-ident : (name : Bytes) → split_prop_line (bytes "ident: " ++ name) ≡ ok (bytes "ident", name)
unfolding find_str kyua.Prelude.Search.starts_with
split-ident name = split_prop_line-prop_line (bytes "ident", name) refl

identifier-name :
    (name : Bytes) → is_empty name ≡ false → identifier (bytes "ident", name) ≡ ok name
unfolding identifier
identifier-name name h = rw h refl

-- The parser on the lines of any test cases, whose names are not empty and whose properties have
-- no ": " before the one behind the name, gives what the list means, with fuel for its cases.
pub parse_test_cases-printed :
    (fuel : ℕ) (f : Floats) (cs : List Case) (cases : TestCases)
    → all is_case cs ≡ true
    → length cs < fuel
    → parse_test_cases fuel f (list_lines cs) cases ≡ meaning f cs cases
unfolding parse_test_cases list_lines meaning
parse_test_cases-printed zero f cs cases h n = absurd (omega (arith, n))
parse_test_cases-printed (suc fuel) f [] cases h n = refl
parse_test_cases-printed (suc fuel) f ((name, props) ∷ cs) cases h n =
    let tail : List Bytes = list_lines cs in
    rw
      (
        split-ident name,
        identifier-name name (ground arith),
        append_assoc (map prop_line props) ([] ∷ []) tail,
        parse_properties-printed props tail [] (ground arith),
        >>=-assoc (collect props []) (behind tail) (λ parsed. parse_atf_metadata f parsed.0 >>= λ m.
            parse_test_cases fuel f parsed.1 (add_test_case name m cases)),
      )
      (bind_ap (collect props []) _ _ (λ ps. bind_ap (parse_atf_metadata f ps) _ _ (λ m.
        parse_test_cases-printed fuel f cs (add_test_case name m cases) (ground arith)
          (omega (arith, n)))))
