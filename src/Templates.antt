-- ===== src/Templates.antt =====
-- utils/text/templates.cpp: the definitions of a template, and its expressions.
use kyua.Prelude.{
  ℕ, zero, suc, ◌+◌, ◌-◌, ◌/◌, subst, ◌<◌, ap, Bool, true, false, not, ◌||◌, Option, none, some,
  List, [], ◌∷◌, ◌++◌, map, ◌==◌, if◌then◌else◌, length, take, drop, all,
}
use kyua.Prelude.Bytes.{Bytes, bytes, str_eq, find, find_from, substr, at}
use kyua.Prelude.Integer.{show_nat}
use kyua.Prelude.Results.{Result, ok, err, ◌>>=◌}
use kyua.Prelude.Search.{find_str_from}
use kyua.Text.{to_type_size}
pub mod Parser
pub mod Blocks
pub mod Handling
pub mod Skipped
pub mod Branches
pub mod Conditional

-- The exceptions of the module, and what has no defined behaviour: a failed PRE or INV, and the top
-- of an empty stack.
pub data TemplateError : Type 0 where
  syntax_error : Bytes → TemplateError
  value_error : TemplateError
  undefined : TemplateError

-- A std::map by its entries.
abbrev pub lookup {ℓ} : {A : Type ℓ} → List (Bytes × A) → Bytes → Option A
lookup [] name = none
lookup ((n, a) ∷ entries) name =
    let rest = lookup entries name in if str_eq n name then some a else rest

abbrev pub insert_entry {ℓ} : {A : Type ℓ} → Bytes → A → List (Bytes × A) → List (Bytes × A)
insert_entry name a [] = (name, a) ∷ []
insert_entry name a ((n, b) ∷ entries) =
    let rest = insert_entry name a entries in
    if str_eq n name then (n, a) ∷ entries else (n, b) ∷ rest

abbrev pub erase_entry {ℓ} : {A : Type ℓ} → Bytes → List (Bytes × A) → List (Bytes × A)
erase_entry name [] = []
erase_entry name ((n, b) ∷ entries) =
    let rest = erase_entry name entries in if str_eq n name then entries else (n, b) ∷ rest

abbrev pub is_some {ℓ} : {A : Type ℓ} → Option A → Bool
is_some none = false
is_some (some a) = true

-- `templates_def`.
pub record TemplatesDef : Type 0 where
  pub variables : List (Bytes × Bytes)
  pub vectors : List (Bytes × List Bytes)

abbrev pub templates_def : TemplatesDef
templates_def = record { variables = []; vectors = [] }

unfoldable pub add_variable : TemplatesDef → Bytes → Bytes → Result TemplateError TemplatesDef
add_variable t name value =
    if is_some (lookup t.vectors name)
    then err undefined
    else ok (record t { variables = insert_entry name value t.variables })

unfoldable pub remove_variable : TemplatesDef → Bytes → Result TemplateError TemplatesDef
remove_variable t name =
    if is_some (lookup t.variables name)
    then ok (record t { variables = erase_entry name t.variables })
    else err undefined

unfoldable pub add_vector : TemplatesDef → Bytes → Result TemplateError TemplatesDef
add_vector t name =
    if is_some (lookup t.variables name)
    then err undefined
    else ok (record t { vectors = insert_entry name [] t.vectors })

abbrev push_to :
    TemplatesDef → Bytes → Bytes → Option (List Bytes) → Result TemplateError TemplatesDef
push_to t name value none = err undefined
push_to t name value (some vector) =
    ok (record t { vectors = insert_entry name (vector ++ (value ∷ [])) t.vectors })

unfoldable pub add_to_vector : TemplatesDef → Bytes → Bytes → Result TemplateError TemplatesDef
add_to_vector t name value =
    if is_some (lookup t.variables name)
    then err undefined
    else push_to t name value (lookup t.vectors name)

unfoldable pub exists : TemplatesDef → Bytes → Bool
exists t name = is_some (lookup t.variables name) || is_some (lookup t.vectors name)

unfoldable pub get_variable : TemplatesDef → Bytes → Result TemplateError Bytes
get_variable t name = elim (lookup t.variables name) [
  | none ↦ err (syntax_error (bytes "Unknown variable '" ++ (name ++ bytes "'")))
  | some value ↦ ok value
]

unfoldable pub get_vector : TemplatesDef → Bytes → Result TemplateError (List Bytes)
get_vector t name = elim (lookup t.vectors name) [
  | none ↦ err (syntax_error (bytes "Unknown vector '" ++ (name ++ bytes "'")))
  | some vector ↦ ok vector
]

-- `to_type< std::size_t >`, whose exception no handler of the module takes.
abbrev pub to_index : Bytes → Result TemplateError ℕ
to_index str = elim (to_type_size str) [ none ↦ err value_error | some n ↦ ok n ]

abbrev pub at_index : Bytes → List Bytes → ℕ → Result TemplateError Bytes
at_index index_name vector index = elim (drop index vector) [
  | [] ↦ err (
      syntax_error (
        bytes "Index '"
        ++ (index_name ++ (bytes "' out of range at position '" ++ (show_nat index ++ bytes "'")))))
  | ◌∷◌ value rest ↦ ok value
]

-- `get_vector` of a vector and the variable with the index.
unfoldable pub get_vector_at : TemplatesDef → Bytes → Bytes → Result TemplateError Bytes
unfolding get_vector get_variable
get_vector_at t name index_name = get_vector t name >>= λ vector.
    get_variable t index_name >>= λ index_str. to_index index_str >>= at_index index_name vector

abbrev show_truth : Bool → Bytes
show_truth true = bytes "true"
show_truth false = bytes "false"

abbrev call : TemplatesDef → Bytes → Bytes → Result TemplateError Bytes
call t arg0 arg1 =
    if str_eq arg0 (bytes "defined")
    then ok (show_truth (exists t arg1))
    else if str_eq arg0 (bytes "length")
    then get_vector t arg1 >>= (λ vector. ok (show_nat (length vector)))
    else get_vector_at t arg0 arg1

abbrev evaluate_call : TemplatesDef → Bytes → ℕ → Option ℕ → Result TemplateError Bytes
evaluate_call t expression paren_open none =
    err (syntax_error (bytes "Expected ')' in expression '" ++ (expression ++ bytes "')")))
evaluate_call t expression paren_open (some paren_close) =
    if not (paren_close == (length expression - 1))
    then err (
        syntax_error
          (bytes "Unexpected text found after ')' in expression '" ++ (expression ++ bytes "'")))
    else call t (substr expression 0 paren_open)
        (substr expression (paren_open + 1) (paren_close - paren_open - 1))

unfoldable pub evaluate : TemplatesDef → Bytes → Result TemplateError Bytes
unfolding exists get_vector get_variable get_vector_at find find_from
evaluate t expression = elim (find b'(' expression) [
  | none ↦ get_variable t expression
  | some paren_open ↦ evaluate_call t expression paren_open (find_from b')' expression paren_open)
]

-- `templates_parser::evaluate`: each round but the last passes by two delimiters.
unfoldable pub evaluate_loop :
    ℕ → TemplatesDef → Bytes → Bytes → Bytes → ℕ → Result TemplateError Bytes
unfolding find_str_from
evaluate_loop zero t delimiter in_line out_line last_pos = ok out_line
evaluate_loop (suc fuel) t delimiter in_line out_line last_pos =
    elim (find_str_from delimiter in_line last_pos) [
      | none ↦ ok (out_line ++ drop last_pos in_line)
      | some open_pos ↦ elim (find_str_from delimiter in_line (open_pos + length delimiter)) [
        | none ↦ ok (out_line ++ drop last_pos in_line)
        | some close_pos ↦
            evaluate t (
              substr in_line (open_pos + length delimiter)
                (close_pos - open_pos - length delimiter))
            >>= λ value.
                evaluate_loop fuel t delimiter in_line
                  (out_line ++ (substr in_line last_pos (open_pos - last_pos) ++ value))
                  (close_pos + length delimiter)
      ]
    ]

unfoldable pub evaluate_line : TemplatesDef → Bytes → Bytes → Result TemplateError Bytes
unfolding evaluate_loop
evaluate_line t delimiter in_line = evaluate_loop (suc (length in_line)) t delimiter in_line [] 0
