-- ===== src/Editor/Rows.antt =====
-- The selected row always exists, and exactly an empty table has none.
use modbus_simulator_go.Base.{
  ℕ, zero, suc, ◌+◌, ◌-◌, ◌<◌, ◌≡◌, refl, ap, ◌∙◌, inl, inr, true, Option, none, some, List, [],
  ◌∷◌, ◌++◌, map, length, length-append, ltb, arith, Bool-cases,
}
use modbus_simulator_go.Naming.{next_rule_name}
use modbus_simulator_go.Editor.{
  or_empty, Row, Table, add_row, splice, clamp_selected, delete_at, delete_selected_row,
  create_empty_rule,
}

abbrev pub Selects : List Row → Option ℕ → Type 0
Selects rules none = rules ≡ []
Selects rules (some i) = i < length rules

abbrev pub IsSelected : Table → Type 0
IsSelected t = Selects t.rules t.selected_row_index

length-splice :
    (i : ℕ) (rules : List Row) → i < length rules → length (splice i rules) + 1 ≡ length rules
unfolding splice
length-splice i [] h = absurd (omega arith)
length-splice zero (r ∷ rules) h = omega arith
length-splice (suc i) (r ∷ rules) h = omega (arith, length-splice i rules (omega arith))

clamp_selected-Selects : (i : ℕ) (rules : List Row) → Selects rules (clamp_selected i rules)
clamp_selected-Selects i [] = refl
clamp_selected-Selects i (r ∷ rules) = ground arith

add_row-IsSelected : (t : Table) → IsSelected (add_row t)
unfolding add_row
add_row-IsSelected t = omega (
  arith,
  length-append t.rules
      (create_empty_rule (or_empty (next_rule_name (map (λ r. r.name) t.rules))) ∷ []),
)

delete_at-IsSelected : (o : Option ℕ) (t : Table) → IsSelected t → IsSelected (delete_at o t)
delete_at-IsSelected none t h = h
delete_at-IsSelected (some i) t h = elim (Bool-cases (ltb i (length t.rules))) [
  | inl inside ↦ rw inside (clamp_selected-Selects i (splice i t.rules))
  | inr outside ↦ rw outside h
]

length-add_row : (t : Table) → length (add_row t).rules ≡ length t.rules + 1
unfolding add_row
length-add_row t =
    length-append t.rules
      (create_empty_rule (or_empty (next_rule_name (map (λ r. r.name) t.rules))) ∷ [])

length-delete_at :
    (o : Option ℕ) (t : Table)
    → Selects t.rules o
    → length (delete_at o t).rules ≡ length t.rules - 1
length-delete_at none t h = omega (arith, ap length h)
length-delete_at (some i) t h =
    let inside : ltb i (length t.rules) ≡ true = ground arith in
    rw inside (omega (arith, length-splice i t.rules h))

-- Where the selected row exists, or the table is empty and none is selected, adding a row makes
-- one more and deleting the selected row one fewer, and the same holds of the selection again.
pub rows_lem :
    (t : Table)
    → IsSelected t
    → IsSelected (add_row t)
      × (length (add_row t).rules ≡ length t.rules + 1)
      × IsSelected (delete_selected_row t)
      × (length (delete_selected_row t).rules ≡ length t.rules - 1)
unfolding delete_selected_row
rows_lem t h = (
  add_row-IsSelected t,
  length-add_row t,
  delete_at-IsSelected t.selected_row_index t h,
  length-delete_at t.selected_row_index t h,
)

splice_last : (rules : List Row) (r : Row) → splice (length rules) (rules ++ r ∷ []) ≡ rules
unfolding splice
splice_last [] r = refl
splice_last (x ∷ rules) r = ap (◌∷◌ x) (splice_last rules r)

delete_last :
    (rules : List Row) (r : Row) (t : Table)
    → t.rules ≡ rules ++ r ∷ []
    → (delete_at (some (length rules)) t).rules ≡ rules
delete_last rules r t e =
    let inside : ltb (length rules) (length t.rules) ≡ true =
      ground (arith, ap length e, length-append rules (r ∷ [])) in
    rw inside (ap (splice (length rules)) e ∙ splice_last rules r)

last_index : (rules : List Row) (r : Row) → length (rules ++ r ∷ []) - 1 ≡ length rules
last_index rules r = omega (arith, length-append rules (r ∷ []))

-- Deleting the row that was just added gives the rows back.
pub delete_selected_row-add_row : (t : Table) → (delete_selected_row (add_row t)).rules ≡ t.rules
unfolding delete_selected_row add_row
delete_selected_row-add_row t =
    let fresh = create_empty_rule (or_empty (next_rule_name (map (λ r. r.name) t.rules))) in
    rw (last_index t.rules fresh) (delete_last t.rules fresh _ refl)
