-- ===== src/Drafts/Selection.antt =====
-- The selected row exists in the rules of the active connection: loading, asking and editing.
use modbus_simulator_go.Base.{
  if_both, ℕ, zero, suc, ◌≡◌, refl, ap, inl, inr, Bool, true, false, not, ◌&&◌, ◌||◌, Bool-cases,
  Option-cases, Option, none, some, List, [], ◌∷◌, Text, is_empty, text_eq, text_eq_iff, length,
  ltb, arith, subst,
}
use modbus_simulator_go.Base.Dict.{entry, put, entry-put, entry-remove}
use modbus_simulator_go.Editor.{Row, Table, MatchMode, adjust_selected}
use modbus_simulator_go.Editor.Rows.{Selects, IsSelected}
use modbus_simulator_go.Drafts.{
  Mode, modbus, private_protocol, Config, State, World, get_node_by_id, get_active_config, rules_of,
  refresh_with, refresh_private_data, reload_private_config, mark_dirty, has_draft,
  confirm_discard_active_private_draft, loaded, adjust_active,
}
use modbus_simulator_go.Drafts.Actions

-- The selected row is a row of the active connection; without rules, or without a connection, none
-- is selected.
abbrev pub IsValid : State → Type 0
IsValid s = Selects (rules_of (entry s.active_conn_id s.configs)) s.selected_row_index

adjust_selected-Selects :
    (rules : List Row) (o : Option ℕ) → Selects rules (adjust_selected rules o)
unfolding adjust_selected
adjust_selected-Selects [] o = refl
adjust_selected-Selects (r ∷ rules) none = omega arith
adjust_selected-Selects (r ∷ rules) (some i) = ground arith

pub refresh_private_data-IsValid :
    (w : World) (id : Text) (s : State) → IsValid s → IsValid (refresh_private_data w id s)
unfolding refresh_private_data refresh_with
refresh_private_data-IsValid w id s h =
    elim w.tree as (λ t. IsValid (elim t [ none ↦ s | some tree ↦ refresh_with w tree id s ])) [
      | none ↦ h
      | some tree ↦ adjust_selected-Selects _ s.selected_row_index
    ]

adjust_active-IsValid :
    (id : Text) (s : State)
    → (text_eq s.active_conn_id id ≡ false → IsValid s)
    → IsValid (adjust_active id s)
adjust_active-IsValid id s h = elim (Bool-cases (text_eq s.active_conn_id id)) [
  | inl same ↦ rw same (
      rw ((text_eq_iff s.active_conn_id id).0 same)
        (adjust_selected-Selects (rules_of (entry id s.configs)) s.selected_row_index))
  | inr other ↦ rw other (h other)
]

pub text_eq_comm : (a b : Text) → text_eq a b ≡ text_eq b a
text_eq_comm a b = ground (arith, text_eq_iff a b, text_eq_iff b a)

reload_private_config-IsValid :
    (w : World) (id : Text) (s : State) → IsValid s → IsValid (reload_private_config w id s)
unfolding reload_private_config
reload_private_config-IsValid w id s h = elim (Option-cases (get_node_by_id id s)) [
  | inl missing ↦ elim (Bool-cases (text_eq s.active_conn_id id)) [
    | inl same ↦
        rw (reload_private_config, missing, entry-remove, text_eq_comm id s.active_conn_id, same)
          refl
    | inr other ↦
        rw (reload_private_config, missing, entry-remove, text_eq_comm id s.active_conn_id, other) h
  ]
  | inr (node, e) ↦
      rw (reload_private_config, e)
        (adjust_active-IsValid id
          (record s { configs = put id (loaded node (w.get_config id)) s.configs })
          (λ other. rw (entry-put, text_eq_comm id s.active_conn_id, other) h))
]

pub confirm-IsValid :
    (w : World) (s : State) → IsValid s → IsValid (confirm_discard_active_private_draft w s).1
unfolding confirm_discard_active_private_draft
confirm-IsValid w s h =
    if_both (λ (r : Bool × State). IsValid r.1) (has_draft s) _ _
      (if_both (λ (r : Bool × State). IsValid r.1) w.confirmed _ _
        (reload_private_config-IsValid w s.active_conn_id s h) h)
      h

mark_dirty-IsValid : (s : State) → IsValid s → IsValid (mark_dirty s)
unfolding mark_dirty
mark_dirty-IsValid s h = if_both IsValid (is_empty s.active_conn_id) _ _ h h

entered-IsValid :
    (w : World) (next : Mode) (s : State) → IsValid s → IsValid (Actions.entered w next s)
entered-IsValid w modbus s h = h
entered-IsValid w private_protocol s h =
    refresh_private_data-IsValid w [] (record s { mode = private_protocol }) h

pub set_mode-IsValid :
    (w : World) (next : Mode) (s : State) → IsValid s → IsValid (Actions.set_mode w next s)
unfolding Actions.set_mode
set_mode-IsValid w next s h =
    let asked = confirm-IsValid w s h in
    if_both IsValid (Actions.leaves_private s.mode next) _ _
      (if_both IsValid (confirm_discard_active_private_draft w s).0 _ _
        (entered-IsValid w next _ asked) asked)
      (entered-IsValid w next s h)

first_row-Selects :
    (rules : List Row) → Selects rules (elim rules [ [] ↦ none | r ∷ rest ↦ some 0 ])
first_row-Selects [] = refl
first_row-Selects (r ∷ rules) = omega arith

pub attempt_switch-IsValid :
    (w : World) (id : Text) (s : State)
    → IsValid s
    → IsValid (Actions.attempt_switch_connection w id s)
unfolding Actions.attempt_switch_connection get_active_config
attempt_switch-IsValid w id s h =
    if_both IsValid (is_empty id || text_eq id s.active_conn_id) _ _ h (
      if_both IsValid (has_draft s && not (confirm_discard_active_private_draft w s).0) _ _
        (if_both IsValid (has_draft s) _ _ (confirm-IsValid w s h) h) (first_row-Selects _))

with_table-IsValid :
    (s : State) (config : Config) (t : Table)
    → IsSelected t
    → IsValid (Actions.with_table s config t)
with_table-IsValid s config t h =
    let written = record s {
      configs = put s.active_conn_id (record config { rules = t.rules }) s.configs;
      selected_row_index = t.selected_row_index;
    } in
    let fine : IsValid written =
      rw (entry-put, (text_eq_iff s.active_conn_id s.active_conn_id).1 refl) h in
    if_both IsValid t.dirty _ _ (mark_dirty-IsValid written fine) fine

edited-IsValid :
    (edit : Table → Table) (s : State) (o : Option Config)
    → ((t : Table) → IsSelected t → IsSelected (edit t))
    → entry s.active_conn_id s.configs ≡ o
    → IsValid s
    → IsValid (Actions.edited edit s o)
edited-IsValid edit s none keeps e h = h
edited-IsValid edit s (some config) keeps e h =
    with_table-IsValid s config (edit (Actions.table_of s config)) (
      keeps (Actions.table_of s config)
        (subst (λ o. Selects (rules_of o) s.selected_row_index) e h))

-- An operation of the editor that keeps its selection keeps that of the state.
pub edit_table-IsValid :
    (edit : Table → Table) (s : State)
    → ((t : Table) → IsSelected t → IsSelected (edit t))
    → IsValid s
    → IsValid (Actions.edit_table edit s)
unfolding Actions.edit_table get_active_config
edit_table-IsValid edit s keeps h = edited-IsValid edit s _ keeps refl h

length-change_at :
    (change : Row → Row) (i : ℕ) (rules : List Row)
    → length (Actions.change_at change i rules) ≡ length rules
length-change_at change i [] = refl
length-change_at change zero (r ∷ rules) = refl
length-change_at change (suc i) (r ∷ rules) = ap suc (length-change_at change i rules)

same_length-Selects :
    (rules changed : List Row) (o : Option ℕ)
    → length changed ≡ length rules
    → Selects rules o
    → Selects changed o
same_length-Selects rules [] none e h = refl
same_length-Selects rules (r ∷ changed) none e h = absurd (omega (arith, e, ap length h))
same_length-Selects rules changed (some i) e h = omega (arith, e)

pub change_row-IsSelected :
    (change : Row → Row) (i : ℕ) (t : Table)
    → IsSelected t
    → IsSelected (Actions.change_row change i t)
unfolding Actions.change_row
change_row-IsSelected change i t h =
    if_both IsSelected (ltb i (length t.rules)) _ _
      (same_length-Selects t.rules _ t.selected_row_index (length-change_at change i t.rules) h) h

pub click_match_mode-IsSelected :
    (value : MatchMode) (i : ℕ) (t : Table)
    → IsSelected t
    → IsSelected (Actions.click_match_mode value i t)
unfolding Actions.click_match_mode Actions.change_row
click_match_mode-IsSelected value i t h = elim (Bool-cases (ltb i (length t.rules))) [
  | inl inside ↦
      let kept =
        length-change_at (λ row. record row { match_mode = value; dirty = true }) i t.rules in
      rw inside (ground (arith, kept))
  | inr outside ↦ rw outside h
]
