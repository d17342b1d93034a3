-- ===== src/Formatter.antt =====
-- utils/format/formatter.cpp: the replacement of placeholders by arguments.
use kyua.Prelude.{
  ℕ, zero, suc, ◌+◌, ◌-◌, ◌%◌, ◌/◌, subst, Bool, not, ◌&&◌, ◌||◌, Option, none, some, List, [], ◌∷◌,
  ◌++◌, ◌==◌, leb, if◌then◌else◌, length, take, drop, is_empty, all,
}
use kyua.Prelude.Bytes.{Bytes, bytes, find, find_from, substr, substr_to, lacks, at}
use kyua.Prelude.Integer.{ℤ}
use kyua.Prelude.Results.{Result, ok, err, ◌>>=◌}
use kyua.Text.{to_type_int}
pub mod Stages
pub mod Render
pub mod Init
pub mod Chain

-- The exceptions of the module, with the format string.
pub data FormatError : Type 0 where
  bad_format_error : Bytes → Bytes → FormatError
  extra_args_error : Bytes → Bytes → FormatError

-- `expansion[begin]`, of the text from `begin` on; the byte behind the last is a NUL.
abbrev pub byte_is : ℕ → Bytes → Bool
byte_is c [] = c == 0
byte_is c (x ∷ s) = x == c

-- The first loop of `find_next_placeholder`, which passes by two bytes in each round.
unfoldable pub skip_percents : ℕ → Bytes → Option ℕ → Option ℕ
skip_percents zero expansion begin = begin
skip_percents (suc fuel) expansion none = none
skip_percents (suc fuel) expansion (some begin) =
    let rest = skip_percents fuel expansion (find_from b'%' expansion (begin + 2)) in
    if byte_is b'%' (drop (begin + 1) expansion) then rest else some begin

-- The second loop, over the text from `end` on.
unfoldable pub find_end : Bytes → ℕ → ℕ
find_end [] end = end
find_end (c ∷ s) end = let rest = find_end s (end + 1) in if not (c == b's') then rest else end

abbrev pub cut_placeholder : Bytes → Bytes → ℕ → ℕ → Result FormatError (ℕ × Bytes)
cut_placeholder format expansion begin end =
    let placeholder = substr expansion begin (end - begin + 1) in
    if (end == length expansion) || not (lacks b'%' (drop 1 placeholder))
    then err
        (bad_format_error format (bytes "Unterminated placeholder '" ++ (placeholder ++ bytes "'")))
    else ok (begin, placeholder)

abbrev pub placeholder_at : Bytes → Bytes → Option ℕ → Result FormatError (ℕ × Bytes)
placeholder_at format expansion none = ok (length expansion, [])
placeholder_at format expansion (some begin) =
    if begin == (length expansion - 1)
    then err (bad_format_error format (bytes "Trailing %"))
    else cut_placeholder format expansion begin (find_end (drop (begin + 1) expansion) (begin + 1))

unfoldable pub find_next_placeholder : Bytes → Bytes → ℕ → Result FormatError (ℕ × Bytes)
unfolding find_from skip_percents find_end
find_next_placeholder format expansion begin =
    placeholder_at format expansion
      (skip_percents (length expansion) expansion (find_from b'%' expansion begin))

-- `to_int`, whose message lacks a space.
abbrev pub to_int : Bytes → Bytes → Bytes → Result FormatError ℤ
to_int format str what = elim (to_type_int str) [
  | none ↦ err (bad_format_error format (bytes "Invalid " ++ (what ++ bytes "specifier")))
  | some n ↦ ok n
]

-- The settings of the std::ostringstream for one argument.
pub record Stream : Type 0 where
  pub fill : ℕ
  pub width : Option ℤ
  pub precision : Option ℤ

abbrev pub plain_stream : Stream
plain_stream = record { fill = b' '; width = none; precision = none }

abbrev stream_precision : Bytes → Bytes → Option ℕ → Stream → Result FormatError Stream
stream_precision format partial none s = ok s
stream_precision format partial (some dot) s =
    to_int format (drop (dot + 1) partial) (bytes "precision") >>= λ n.
    ok (record s { precision = some n })

abbrev stream_width : Bytes → Bytes → Option ℕ → Stream → Result FormatError Stream
stream_width format partial (some zero) s = ok s
stream_width format partial dot s = to_int format (substr_to partial 0 dot) (bytes "width") >>= λ n.
    ok (record s { width = some n })

abbrev stream_of : Bytes → Bytes → Stream → Result FormatError Stream
stream_of format partial s =
    if is_empty partial
    then ok s
    else stream_width format partial (find b'.' partial) s
      >>= stream_precision format partial (find b'.' partial)

unfoldable pub new_ostringstream : Bytes → Result FormatError Stream
unfolding find
new_ostringstream format =
    if leb (length format) 2
    then ok plain_stream
    else let partial = substr format 1 (length format - 2) in
      if byte_is b'0' partial
      then stream_of format (drop 1 partial) (record plain_stream { fill = b'0' })
      else stream_of format partial plain_stream

-- `part.find("%%")`.
unfoldable pub find_pair : Bytes → Option ℕ
find_pair [] = none
find_pair (c ∷ s) =
    let rest = find_pair s in
    if (c == b'%') && byte_is b'%' s
    then some 0
    else elim rest [ none ↦ none | some n ↦ some (suc n) ]

unfoldable pub find_pair_from : Bytes → ℕ → Option ℕ
unfolding find_pair
find_pair_from part pos = elim (find_pair (drop pos part)) [ none ↦ none | some n ↦ some (pos + n) ]

-- The loop of `strip_double_percent`: each round but the last erases a byte.
unfoldable pub strip_loop : ℕ → Bytes → ℕ → Option ℕ → Bytes × ℕ
strip_loop zero part removed pos = (part, removed)
strip_loop (suc fuel) part removed none = (part, removed)
strip_loop (suc fuel) part removed (some pos) =
    let part = take pos part ++ drop (pos + 1) part in
    strip_loop fuel part (removed + 1) (find_pair_from part (pos + 1))

unfoldable pub strip_double_percent : Bytes → ℕ → ℕ → Bytes × ℕ
unfolding strip_loop find_pair_from
strip_double_percent in_ begin end =
    let part = substr in_ begin (end - begin) in
    let (part, removed) = strip_loop (suc (length part)) part 0 (find_pair_from part 0) in
    (take begin in_ ++ (part ++ drop end in_), removed)

pub record Formatter : Type 0 where
  pub format : Bytes
  pub expansion : Bytes
  pub placeholder_pos : ℕ
  pub placeholder : Bytes
  pub oss : Stream

-- The constructors, with `init`.
unfoldable pub init : Bytes → Bytes → ℕ → Result FormatError Formatter
unfolding find_next_placeholder strip_double_percent new_ostringstream
init format expansion last_pos =
    find_next_placeholder format expansion last_pos >>= λ (position, placeholder).
    new_ostringstream placeholder >>= λ oss.
    let (stripped, removed) = strip_double_percent expansion last_pos position in
    ok (record {
      format = format;
      expansion = stripped;
      placeholder_pos = position - removed;
      placeholder = placeholder;
      oss = oss;
    })

unfoldable pub formatter : Bytes → Result FormatError Formatter
unfolding init
formatter format = init format format 0

unfoldable pub replace : Formatter → Bytes → Result FormatError Formatter
unfolding init
replace f arg =
    if f.placeholder_pos == length f.expansion
    then err (extra_args_error f.format arg)
    else init f.format
        (substr f.expansion 0 f.placeholder_pos
          ++ (arg ++ drop (f.placeholder_pos + length f.placeholder) f.expansion))
        (f.placeholder_pos + length arg)

-- `operator%`: `show` is what the insertion of the argument writes to a stream of these settings.
unfoldable pub put_argument : Formatter → (Stream → Bytes) → Result FormatError Formatter
unfolding replace
put_argument f show = replace f (show f.oss)

abbrev pub put_all : List (Stream → Bytes) → Formatter → Result FormatError Bytes
put_all [] f = ok f.expansion
put_all (show ∷ shows) f = put_argument f show >>= put_all shows

-- `(F(format) % arg1 % ... % argN).str()`.
unfoldable pub format_all : Bytes → List (Stream → Bytes) → Result FormatError Bytes
unfolding formatter put_argument
format_all format shows = formatter format >>= put_all shows
