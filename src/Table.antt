-- ===== src/Table.antt =====
-- utils/text/table.cpp: tables of text, and their columns.
use kyua.Prelude.{
  ℕ, zero, suc, ◌+◌, ◌-◌, ◌*◌, ◌%◌, max, Bool, true, false, not, ◌&&◌, ◌||◌, Option, none, some,
  List, [], ◌∷◌, ◌++◌, ◌==◌, ltb, leb, if◌then◌else◌, length, is_empty, map,
}
use kyua.Prelude.Bytes.{Bytes}
use kyua.Text.{join}
use kyua.Text.Refill.{refill}
pub mod Widths

pub record Table : Type 0 where
  pub column_widths : List ℕ
  pub rows : List (List Bytes)

abbrev pub copies {ℓ} : {A : Type ℓ} → ℕ → A → List A
copies zero a = []
copies (suc n) a = a ∷ copies n a

-- The constructor.
abbrev pub new_table : ℕ → Table
new_table ncolumns = record { column_widths = copies ncolumns 0; rows = [] }

abbrev pub ncolumns : Table → ℕ
ncolumns t = length t.column_widths

-- The loop of `add_row`.
unfoldable pub widen : List Bytes → List ℕ → List ℕ
widen (cell ∷ cells) (w ∷ ws) =
    let rest = widen cells ws in (if ltb w (length cell) then length cell else w) ∷ rest
widen cells ws = ws

-- `table::add_row`; `none` is a failed PRE.
unfoldable pub add_row : Table → List Bytes → Option Table
unfolding widen
add_row t row =
    if length row == ncolumns t
    then some (record { column_widths = widen row t.column_widths; rows = t.rows ++ (row ∷ []) })
    else none

abbrev pub width_auto : ℕ
width_auto = 0

-- The maximum of std::size_t.
abbrev pub width_refill : ℕ
width_refill = 18446744073709551615

pub record TableFormatter : Type 0 where
  pub separator : Bytes
  pub column_widths : List ℕ
  pub table_width : ℕ

abbrev pub table_formatter : TableFormatter
table_formatter = record { separator = []; column_widths = []; table_width = 0 }

-- A check of `set_column_width`: no column is filled but this one.
abbrev only_refill : List ℕ → Bool
only_refill [] = true
only_refill (w ∷ ws) = not (w == width_refill) && only_refill ws

abbrev lacks_other_refill : List ℕ → ℕ → Bool
lacks_other_refill [] column = true
lacks_other_refill (w ∷ ws) zero = only_refill ws
lacks_other_refill (w ∷ ws) (suc column) = not (w == width_refill) && lacks_other_refill ws column

-- The resize of the widths, and the width that is set.
unfoldable pub put_width : List ℕ → ℕ → ℕ → List ℕ
put_width [] zero width = width ∷ []
put_width (w ∷ ws) zero width = width ∷ ws
put_width [] (suc column) width = width_auto ∷ put_width [] column width
put_width (w ∷ ws) (suc column) width = w ∷ put_width ws column width

-- `set_column_width`; `none` is a failed PRE_MSG.
unfoldable pub set_column_width : TableFormatter → ℕ → ℕ → Option TableFormatter
unfolding put_width
set_column_width f column width =
    if not (width == width_refill) || lacks_other_refill f.column_widths column
    then some (record f { column_widths = put_width f.column_widths column width })
    else none

abbrev pub set_separator : TableFormatter → Bytes → TableFormatter
set_separator f separator = record f { separator = separator }

-- `set_table_width`; `none` is a failed PRE.
unfoldable pub set_table_width : TableFormatter → ℕ → Option TableFormatter
set_table_width f table_width =
    if ltb 0 table_width then some (record f { table_width = table_width }) else none

abbrev add_width : ℕ → Option (List ℕ) → Option (List ℕ)
add_width w none = none
add_width w (some ws) = some (w ∷ ws)

-- `override_column_widths`, of the widths of the table; `none` is a failed PRE.
unfoldable pub override_column_widths : List ℕ → List ℕ → Option (List ℕ)
override_column_widths ws [] = some ws
override_column_widths [] (u ∷ us) = none
override_column_widths (w ∷ ws) (u ∷ us) =
    let rest = override_column_widths ws us in
    if u == width_auto
    then add_width w rest
    else if (u == width_refill) || leb w u
    then add_width u rest
    else none

-- The loop of `find_refill_column`.
unfoldable pub find_refill_from : List ℕ → ℕ → Option ℕ
find_refill_from [] i = none
find_refill_from (w ∷ ws) i =
    let rest = find_refill_from ws (i + 1) in if w == width_refill then some i else rest

abbrev size_mod : ℕ → ℕ
size_mod n = n % 18446744073709551616

-- `a - b` of two std::size_t.
abbrev pub minus_size : ℕ → ℕ → ℕ
minus_size a b = size_mod (a + (18446744073709551616 - b))

unfoldable pub find_refill_column : List ℕ → ℕ
unfolding find_refill_from
find_refill_column widths = elim (find_refill_from widths 0) [
  | none ↦ minus_size (length widths) 1
  | some i ↦ i
]

-- The sum of the other widths.
abbrev other_widths : List ℕ → ℕ → ℕ → ℕ
other_widths [] i column = 0
other_widths (w ∷ ws) i column =
    let rest = other_widths ws (i + 1) column in
    if not (i == column) then size_mod (w + rest) else rest

-- `refill_widths`; `none` is a failed PRE or INV.
unfoldable pub refill_widths : List ℕ → ℕ → ℕ → Option (List ℕ)
unfolding find_refill_column put_width
refill_widths widths user_max_width column_padding =
    let total_padding = size_mod (column_padding * minus_size (length widths) 1) in
    let max_width = max user_max_width total_padding - total_padding in
    let column = find_refill_column widths in
    if not (user_max_width == 0) && ltb column (length widths)
    then some (put_width widths column (minus_size max_width (other_widths widths 0 column)))
    else none

-- `pad_cell`, where the memory is enough.
unfoldable pub pad_cell : Bytes → ℕ → Bool → Bytes
pad_cell input width true = input
pad_cell input width false = input ++ copies (width - length input) b' '

-- A textual row with one line of the cell of a column, and its empty cells padded; `j` is the column
-- of the first cell.
unfoldable pub fill_cells : ℕ → ℕ → Bytes → List ℕ → List Bytes → List Bytes
unfolding pad_cell
fill_cells column j text (w ∷ ws) (cell ∷ cells) =
    let rest = fill_cells column (j + 1) text ws cells in
    (if j == column
      then pad_cell text w (is_empty cells)
      else if is_empty cell
      then pad_cell [] w (is_empty cells)
      else cell)
    ∷ rest
fill_cells column j text ws cells = cells

-- The textual rows, which are as many as the lines or more; `blank` is a new one.
unfoldable pub fill_rows :
    ℕ → List ℕ → List Bytes → List Bytes → List (List Bytes) → List (List Bytes)
unfolding fill_cells
fill_rows column widths blank [] rows = rows
fill_rows column widths blank (text ∷ texts) [] =
    fill_cells column 0 text widths blank ∷ fill_rows column widths blank texts []
fill_rows column widths blank (text ∷ texts) (row ∷ rows) =
    fill_cells column 0 text widths row ∷ fill_rows column widths blank texts rows

-- `refill_cell`, of the cell of the column and its width.
unfoldable pub refill_cell :
    Bytes → ℕ → ℕ → List ℕ → List Bytes → List (List Bytes) → Option (List (List Bytes))
unfolding fill_rows refill
refill_cell cell width column widths blank rows = elim (refill cell width) [
  | none ↦ none
  | some texts ↦ some (fill_rows column widths blank texts rows)
]

-- `textual_rows[0][column] = text`.
abbrev put_cell : List Bytes → ℕ → Bytes → List Bytes
put_cell [] column text = []
put_cell (c ∷ cs) zero text = text ∷ cs
put_cell (c ∷ cs) (suc column) text = c ∷ put_cell cs column text

abbrev put_first : List (List Bytes) → ℕ → Bytes → List (List Bytes)
put_first [] column text = []
put_first (row ∷ rows) column text = put_cell row column text ∷ rows

-- The loop of `format_row` from a column on.
unfoldable pub format_cells :
    List Bytes → List ℕ → ℕ → List ℕ → List Bytes → List (List Bytes) → Option (List (List Bytes))
unfolding refill_cell pad_cell
format_cells (cell ∷ cells) (w ∷ ws) column widths blank rows =
    if ltb (length cell) w
    then format_cells cells ws (column + 1) widths blank
        (put_first rows column (pad_cell cell w (is_empty cells)))
    else elim (refill_cell cell w column widths blank rows) [
      | none ↦ none
      | some more ↦ format_cells cells ws (column + 1) widths blank more
    ]
format_cells cells ws column widths blank rows = some rows

abbrev join_all : Bytes → Option (List (List Bytes)) → Option (List Bytes)
join_all separator none = none
join_all separator (some rows) = some (map (λ row. join row separator) rows)

-- `format_row`; `none` is a failed PRE or INV.
unfoldable pub format_row : List Bytes → List ℕ → Bytes → Option (List Bytes)
unfolding format_cells join
format_row row widths separator =
    let blank = copies (length row) [] in
    if length row == length widths
    then join_all separator (format_cells row widths 0 widths blank (blank ∷ []))
    else none

abbrev append_lines : Option (List Bytes) → Option (List Bytes) → Option (List Bytes)
append_lines (some a) (some b) = some (a ++ b)
append_lines a b = none

-- The loop of `format`.
unfoldable pub format_rows : List (List Bytes) → List ℕ → Bytes → Option (List Bytes)
unfolding format_row
format_rows [] widths separator = some []
format_rows (row ∷ rows) widths separator =
    append_lines (format_row row widths separator) (format_rows rows widths separator)

abbrev filled_widths : TableFormatter → Option (List ℕ) → Option (List ℕ)
filled_widths f none = none
filled_widths f (some widths) =
    if not (f.table_width == 0)
    then refill_widths widths f.table_width (length f.separator)
    else some widths

-- `table_formatter::format`.
unfoldable pub format : TableFormatter → Table → Option (List Bytes)
unfolding override_column_widths refill_widths format_rows
format f t =
    if not (is_empty t.rows)
    then (elim (filled_widths f (override_column_widths t.column_widths f.column_widths)) [
      | none ↦ none
      | some widths ↦ format_rows t.rows widths f.separator
    ])
    else some []
