-- ===== src/Table/Widths.antt =====
-- The widths of the columns of a table are the least that its cells fit in.
use kyua.Prelude.{
  ℕ, zero, suc, ◌≤◌, ◌≡◌, ◌↔◌, refl, sym, subst, ◌∙◌, Option, none, some, List, [], ◌∷◌, ◌++◌,
  arith, ◌==◌, if_true, ==_iff, length, append_assoc, append-nil,
}
use kyua.Prelude.Bytes.{Bytes}
use kyua.Table.{Table, copies, new_table, ncolumns, widen, add_row}

-- The cells of a row fit in these widths.
abbrev pub RowFits : List ℕ → List Bytes → Type 0
RowFits [] [] = Unit {0}
RowFits (w ∷ ws) (cell ∷ cells) = (length cell ≤ w) × RowFits ws cells
RowFits ws cells = ⊥

abbrev pub CellsFit : List ℕ → List (List Bytes) → Type 0
CellsFit ws [] = Unit {0}
CellsFit ws (row ∷ rows) = RowFits ws row × CellsFit ws rows

-- Each width is no more than the other in its place.
abbrev pub Below : List ℕ → List ℕ → Type 0
Below [] [] = Unit {0}
Below (v ∷ vs) (w ∷ ws) = (v ≤ w) × Below vs ws
Below vs ws = ⊥

-- The table of some rows.
abbrev pub add_rows : Table → List (List Bytes) → Option Table
add_rows t [] = some t
add_rows t (row ∷ rows) = elim (add_row t row) [ none ↦ none | some next ↦ add_rows next rows ]

widen_iff :
    (row : List Bytes) (vs ws : List ℕ)
    → length row ≡ length vs
    → Below (widen row vs) ws ↔ (RowFits ws row × Below vs ws)
unfolding widen
widen_iff [] [] [] h = (λ h. (tt, tt), λ h. tt)
widen_iff [] [] (w ∷ ws) h = (λ h. absurd h, λ h. absurd h.0)
widen_iff [] (v ∷ vs) ws h = absurd (omega arith)
widen_iff (cell ∷ cells) [] ws h = absurd (omega arith)
widen_iff (cell ∷ cells) (v ∷ vs) [] h = (λ h. absurd h, λ h. absurd h.0)
widen_iff (cell ∷ cells) (v ∷ vs) (w ∷ ws) h = ground (arith, widen_iff cells vs ws)

length-widen : (row : List Bytes) (vs : List ℕ) → length (widen row vs) ≡ length vs
unfolding widen
length-widen [] vs = refl
length-widen (cell ∷ cells) [] = refl
length-widen (cell ∷ cells) (v ∷ vs) = omega (arith, length-widen cells vs)

abbrev pub HaveLength : ℕ → List (List Bytes) → Type 0
HaveLength n [] = Unit {0}
HaveLength n (row ∷ rows) = (length row ≡ n) × HaveLength n rows

-- What adding rows makes of a table.
abbrev Grown : Table → List (List Bytes) → Type 0
Grown t rows =
    (next : Table) × (add_rows t rows ≡ some next)
    × (next.rows ≡ t.rows ++ rows)
    × ((ws : List ℕ) → Below next.column_widths ws ↔ (CellsFit ws rows × Below t.column_widths ws))

add_rows-Grown :
    (t : Table) (rows : List (List Bytes)) → HaveLength (ncolumns t) rows → Grown t rows
unfolding add_row
add_rows-Grown t [] h = (t, refl, sym (append-nil t.rows), λ ws. (λ k. (tt, k), λ k. k.1))
add_rows-Grown t (row ∷ rows) (h, k) =
    let next : Table = record {
      column_widths = widen row t.column_widths;
      rows = t.rows ++ (row ∷ []);
    } in
    let added : add_row t row ≡ some next =
      if_true (length row == ncolumns t) _ _ ((==_iff _ _).1 h) in
    let (last, e, r, w) =
      add_rows-Grown next rows
        (subst (λ n. HaveLength n rows) (sym (length-widen row t.column_widths)) k) in
    (
      last,
      rw (added, add_rows) e,
      r ∙ append_assoc t.rows (row ∷ []) rows,
      λ ws. (
        λ b.
            let (f, c) = (w ws).0 b in
            let (g, d) = (widen_iff row t.column_widths ws h).0 c in ((g, f), d),
        λ ((g, f), d). (w ws).1 (f, (widen_iff row t.column_widths ws h).1 (g, d)),
      ),
    )

zeros-Below : (n : ℕ) (ws : List ℕ) → length ws ≡ n → Below (copies n 0) ws
zeros-Below zero [] h = tt
zeros-Below zero (w ∷ ws) h = absurd (omega arith)
zeros-Below (suc n) [] h = absurd (omega arith)
zeros-Below (suc n) (w ∷ ws) h = (omega arith, zeros-Below n ws (omega arith))

length-copies : (n : ℕ) → length {A = ℕ} (copies n 0) ≡ n
length-copies zero = refl
length-copies (suc n) = omega (arith, length-copies n)

-- Rows of n cells can be added to a new table of n columns, which keeps them in their order; and the
-- widths of its columns are the least that all cells fit in: the cells fit in some widths of n columns
-- if and only if no width of the table is greater than the one in its place.
pub add_rows-Widths :
    (n : ℕ) (rows : List (List Bytes))
    → HaveLength n rows
    → (t : Table) × (add_rows (new_table n) rows ≡ some t)
      × (t.rows ≡ rows)
      × ((ws : List ℕ) → length ws ≡ n → CellsFit ws rows ↔ Below t.column_widths ws)
add_rows-Widths n rows h =
    let (t, e, r, w) =
      add_rows-Grown (new_table n) rows
        (subst (λ m. HaveLength m rows) (sym (length-copies n)) h) in
    (t, e, r, λ ws k. (λ f. (w ws).1 (f, zeros-Below n ws k), λ b. ((w ws).0 b).0))
