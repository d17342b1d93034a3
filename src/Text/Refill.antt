-- ===== src/Text/Refill.antt =====
-- utils/text/operations.cpp: the filling of lines.
use kyua.Prelude.{
  ℕ, zero, suc, ◌+◌, ◌-◌, ◌%◌, ◌/◌, subst, ap, Bool, false, ◌&&◌, ◌||◌, Option, none, some, List,
  [], ◌∷◌, ◌++◌, ◌==◌, ltb, leb, if◌then◌else◌, length, take, drop, is_empty,
}
use kyua.Prelude.Bytes.{Bytes, find, find_from, substr, at}
use kyua.FsPath.{rfind}
use kyua.Text.{join}
pub mod Width
pub mod Lines

-- The sum of two std::size_t.
abbrev pub add_size : ℕ → ℕ → ℕ
add_size a b = (a + b) % 18446744073709551616

-- `input[pos] == c`, of the text from `pos` on.
abbrev pub starts_by : ℕ → Bytes → Bool
starts_by c [] = false
starts_by c (x ∷ s) = x == c

abbrev pub first_space : Bytes → ℕ → Option ℕ → ℕ
first_space input start none = length input - start
first_space input start (some pos) = pos - start

-- The width where the byte behind it is no space; `last` is what `find_last_of` returned.
abbrev pub search_space : Bytes → ℕ → ℕ → Option ℕ → ℕ
search_space input start stop none = first_space input start (find_from b' ' input stop)
search_space input start stop (some pos) =
    if ltb pos (start + 1) then first_space input start (find_from b' ' input stop) else pos - start

-- `input.find_last_of(" ", stop - 1)`, where the difference wraps around at 0.
abbrev pub last_space : Bytes → ℕ → Option ℕ
last_space input stop = if stop == 0 then rfind b' ' input else rfind b' ' (take stop input)

abbrev pub width_at : Bytes → ℕ → ℕ → ℕ → ℕ
width_at input start target_width stop =
    if leb (length input) stop
    then length input - start
    else if starts_by b' ' (drop stop input)
    then target_width
    else search_space input start stop (last_space input stop)

-- The width of the line that starts at a position within the text.
unfoldable pub line_width : Bytes → ℕ → ℕ → ℕ
unfolding find_from rfind
line_width input start target_width =
    width_at input start target_width (add_size start target_width)

-- The loop of `refill`; `none` is a failed INV, or out of fuel.
unfoldable pub refill_loop : ℕ → Bytes → ℕ → ℕ → List Bytes → Option (List Bytes)
unfolding line_width
refill_loop zero input target_width start output = none
refill_loop (suc fuel) input target_width start output =
    let width = line_width input start target_width in
    let rest =
      refill_loop fuel input target_width (start + width + 1)
        (output ++ (substr input start width ∷ [])) in
    if ltb start (length input)
    then (if leb (start + width) (length input)
          && (((start + width) == length input) || starts_by b' ' (drop (start + width) input))
        then rest
        else none)
    else some output

abbrev filled : Option (List Bytes) → Option (List Bytes)
filled none = none
filled (some output) = some (output ++ ([] ∷ []))

-- `text::refill`. Each round moves past a byte.
unfoldable pub refill : Bytes → ℕ → Option (List Bytes)
unfolding refill_loop
refill input target_width =
    let lines = refill_loop (suc (length input)) input target_width 0 [] in
    if is_empty input then filled lines else lines

-- `text::refill_as_string`.
unfoldable pub refill_as_string : Bytes → ℕ → Option Bytes
unfolding refill join
refill_as_string input target_width = elim (refill input target_width) [
  | none ↦ none
  | some lines ↦ some (join lines (b'\n' ∷ []))
]
