-- ===== src/PrivateView/Rows.antt =====
-- A table that is changed in place against a table that is drawn anew.
use modbus_simulator_go.Base.{◌≡◌, refl, ℕ, zero, suc, ◌+◌, Option, List, [], ◌∷◌, set}
use modbus_simulator_go.Editor.{Row}
use modbus_simulator_go.PrivateView.{
  RowNode, update_row_dom, render_rows, apply_selected_row_state, change_at, update_table,
}

-- The same in every field, button and mark, but for the title of the name.
abbrev pub IsShownAs : RowNode → RowNode → Type 0
IsShownAs a b =
    (a.name.value ≡ b.name.value)
    × (a.name.classes ≡ b.name.classes)
    × (a.send_ascii ≡ b.send_ascii)
    × (a.send_hex ≡ b.send_hex)
    × (a.return_ascii ≡ b.return_ascii)
    × (a.return_hex ≡ b.return_hex)
    × (a.exact_active ≡ b.exact_active)
    × (a.contains_active ≡ b.contains_active)
    × (a.is_selected ≡ b.is_selected)

-- Row by row, and as many.
abbrev pub AreShownAs : List RowNode → List RowNode → Type 0
AreShownAs [] [] = Unit
AreShownAs (a ∷ nodes) (b ∷ others) = IsShownAs a b × AreShownAs nodes others
AreShownAs _ _ = ⊥

module _ (selected selected' : Option ℕ) where
  apply_selected_row_state-render_rows :
      (k : ℕ) (rows : List Row)
      → AreShownAs
          (apply_selected_row_state selected' k (render_rows selected k rows))
          (render_rows selected' k rows)
  unfolding apply_selected_row_state render_rows
  apply_selected_row_state-render_rows k [] = tt
  apply_selected_row_state-render_rows k (row ∷ rows) = (
    (refl, refl, refl, refl, refl, refl, refl, refl, refl),
    apply_selected_row_state-render_rows (k + 1) rows,
  )

  change_at-render_rows :
      (k i j : ℕ) (row : Row) (rows : List Row)
      → AreShownAs
          (apply_selected_row_state selected' k
            (change_at i (update_row_dom selected' row j) (render_rows selected k rows)))
          (render_rows selected' k (set rows i row))
  unfolding apply_selected_row_state render_rows update_row_dom
  change_at-render_rows k i j row [] = tt
  change_at-render_rows k zero j row (old ∷ rows) = (
    (refl, refl, refl, refl, refl, refl, refl, refl, refl),
    apply_selected_row_state-render_rows (k + 1) rows,
  )
  change_at-render_rows k (suc i) j row (old ∷ rows) = (
    (refl, refl, refl, refl, refl, refl, refl, refl, refl),
    change_at-render_rows (k + 1) i j row rows,
  )

-- The table that is shown, after one of its rules is changed in place and whatever row is selected
-- then, is what drawing the changed rules anew would show: as many rows, the same in every field,
-- button and mark, but for the title of a name.
pub update_table-render_rows :
    (selected selected' : Option ℕ) (i : ℕ) (row : Row) (rows : List Row)
    → AreShownAs
        (update_table selected' i row (render_rows selected 0 rows))
        (render_rows selected' 0 (set rows i row))
unfolding update_table
update_table-render_rows selected selected' i row rows =
    change_at-render_rows selected selected' 0 i i row rows
