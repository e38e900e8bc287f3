-- ===== src/Drafts/Steps.antt =====
-- The selected row against the rules of the active connection, over any operations of the page.
use modbus_simulator_go.Base.{
  trim, if_both, ℕ, ◌≤◌, ◌⊎◌, arith, ◌≡◌, refl, inl, inr, not, Bool-cases, Option, none, some, List,
  [], Text, is_empty, text_eq, length,
}
use modbus_simulator_go.Base.Dict.{entry, entry-remove}
use modbus_simulator_go.Tree.{Connection}
use modbus_simulator_go.Editor.{Saved, SavedRule, payload, thrown, Field}
use modbus_simulator_go.Editor.Rows.{Selects, rows_lem}
use modbus_simulator_go.Drafts.{
  Mode, modbus, private_protocol, State, World, get_active_config, rules_of,
}
use modbus_simulator_go.Drafts.Actions
use modbus_simulator_go.Drafts.Forms
use modbus_simulator_go.Drafts.Selection.{
  IsValid, refresh_private_data-IsValid, text_eq_comm, confirm-IsValid, set_mode-IsValid,
  attempt_switch-IsValid, edit_table-IsValid, change_row-IsSelected, click_match_mode-IsSelected,
}

-- A click on a row that the active connection does not have. The table is not drawn again when an
-- import discards the draft, so that it can still show such a row.
abbrev pub Misses : Actions.Click → State → Type 0
Misses (Actions.row i) s = length (rules_of (get_active_config s)) ≤ i
Misses click s = ⊥

abbrev Fine : Actions.Ended → Type 0
Fine e = IsValid e.state

refreshed-Fine :
    (w : World) (id : Text) (calls : List Actions.Call) (shown : List Actions.Toast)
    (failed : Actions.Toast) (s : State)
    → IsValid s
    → Fine (Actions.refreshed w id calls shown failed s)
refreshed-Fine w id calls shown failed s h = refresh_private_data-IsValid w id s h

save_payload-Fine :
    (w : World) (s : State) (p : Saved (Text × List SavedRule))
    → IsValid s
    → Fine (Actions.save_payload w s p)
save_payload-Fine w s (thrown e) h = h
save_payload-Fine w s (payload (name, rules)) h =
    if_both Fine w.save_config _ _
      (refresh_private_data-IsValid w s.active_conn_id (Actions.undirty s.active_conn_id s) h) h

save_active_connection-Fine :
    (w : World) (s : State) → IsValid s → Fine (Actions.save_active_connection w s)
unfolding Actions.save_active_connection
save_active_connection-Fine w s h =
    if_both Fine (is_empty s.active_conn_id) _ _ h (save_payload-Fine w s _ h)

clicked-Fine :
    (w : World) (click : Actions.Click) (s : State)
    → IsValid s
    → Fine (Actions.clicked w click s) ⊎ Misses click s
unfolding get_active_config
clicked-Fine w (Actions.match_button value i) s h =
    inl (edit_table-IsValid _ s (click_match_mode-IsSelected value i) h)
clicked-Fine w Actions.save_button s h = inl (save_active_connection-Fine w s h)
clicked-Fine w Actions.import_button s h = inl (confirm-IsValid w s h)
clicked-Fine w Actions.add_button s h = inl (edit_table-IsValid _ s (λ t p. (rows_lem t p).0) h)
clicked-Fine w Actions.delete_button s h = inl (edit_table-IsValid _ s (λ t p. (rows_lem t p).2) h)
clicked-Fine w (Actions.row i) s h = ground arith
clicked-Fine w Actions.elsewhere s h = inl h

clicked_in-Fine :
    (mode : Mode) (w : World) (click : Actions.Click) (s : State)
    → IsValid s
    → Fine (Actions.clicked_in mode w click s) ⊎ Misses click s
clicked_in-Fine modbus w click s h = inl h
clicked_in-Fine private_protocol w click s h = clicked-Fine w click s h

updated-Fine :
    (w : World) (id name : Text) (first : Actions.Call) (s : State)
    (p : Saved (Text × List SavedRule))
    → IsValid s
    → Fine (Forms.updated w id name first s p)
updated-Fine w id name first s (thrown e) h = h
updated-Fine w id name first s (payload (old, rules)) h =
    if_both Fine w.save_config _ _ (refresh_private_data-IsValid w id (Actions.undirty id s) h) h

created-Fine :
    (w : World) (name : Text) (first : Actions.Call) (s : State) (o : Option Text)
    → IsValid s
    → Fine (Forms.created w name first s o)
created-Fine w name first s none h = h
created-Fine w name first s (some id) h =
    if_both Fine w.save_config _ _ (refresh_private_data-IsValid w id s h) h

checked-Fine :
    (w : World) (form : Forms.Settings) (s : State) (o : Option Actions.Toast)
    → IsValid s
    → Fine (Forms.checked w form s o)
checked-Fine w form s (some fault) h = h
checked-Fine w form s none h =
    if_both Fine (is_empty (trim form.conn_id)) _ _ (created-Fine w _ _ s w.create_connection h)
      (if_both Fine w.update_connection _ _ (updated-Fine w _ _ _ s _ h) h)

without-IsValid :
    (id : Text) (s : State) → entry [] s.configs ≡ none → IsValid s → IsValid (Forms.without id s)
without-IsValid id s free h = elim (Bool-cases (text_eq s.active_conn_id id)) [
  | inl same ↦
      rw (same, entry-remove, free)
        (if_both (λ o. Selects (rules_of o) none) (text_eq id []) _ _ refl refl)
  | inr other ↦ rw (other, entry-remove, text_eq_comm id s.active_conn_id, other) h
]

delete_node-Fine :
    (w : World) (id : Text) (s : State) (o : Option Connection)
    → entry [] s.configs ≡ none
    → IsValid s
    → Fine (Forms.delete_node w id s o)
delete_node-Fine w id s none free h = h
delete_node-Fine w id s (some node) free h = if_both Fine (not w.confirmed) _ _ h (
    if_both Fine w.delete_connection _ _
      (refresh_private_data-IsValid w [] (Forms.without id s) (without-IsValid id s free h)) h)

in_private-IsValid :
    (mode : Mode) (s t : State) → IsValid s → IsValid t → IsValid (Actions.in_private mode s t)
in_private-IsValid modbus s t h k = h
in_private-IsValid private_protocol s t h k = k

-- The operations of the page, in any order, with any answers of the server and the user. A click
-- may hit any row; a connection is deleted while no configuration has the empty id.
pub data Step : State → State → Type 0 where
  sets_mode : (w : World) (next : Mode) (s : State) → Step s (Actions.set_mode w next s)
  switches : (w : World) (id : Text) (s : State) → Step s (Actions.attempt_switch_connection w id s)
  clicks :
      (w : World) (click : Actions.Click) (s : State)
      → Step s (Actions.on_content_click w click s).state
  types :
      (field : Field) (value : Text) (i : ℕ) (s : State)
      → Step s (Actions.on_content_input field value i s)
  changes :
      (field : Field) (value : Text) (i : ℕ) (s : State)
      → Step s (Actions.on_content_change field value i s)
  submits :
      (w : World) (form : Forms.Settings) (s : State)
      → Step s (Forms.submit_connection_settings w form s).state
  deletes :
      (w : World) (id : Text) (s : State)
      → entry [] s.configs ≡ none
      → Step s (Forms.delete_connection w id s).state

pub data Reach (s : State) : State → Type 0 where
  here : Reach s s
  next : {t u : State} → Reach s t → Step t u → Reach s u

-- Whether a step is a click on a row that is not there, and whether some step was.
abbrev pub IsMiss : {s t : State} → Step s t → Type 0
IsMiss (clicks w click s) = Misses click s
IsMiss _ = ⊥

abbrev pub SomeMiss : {s t : State} → Reach s t → Type 0
SomeMiss here = ⊥
SomeMiss (next r step) = SomeMiss r ⊎ IsMiss step

Step-IsValid : {s t : State} (step : Step s t) → IsValid s → IsValid t ⊎ IsMiss step
unfolding Actions.on_content_click Actions.on_content_input Actions.on_content_change
    Forms.submit_connection_settings Forms.delete_connection
Step-IsValid (sets_mode w m s) h = inl (set_mode-IsValid w m s h)
Step-IsValid (switches w id s) h = inl (attempt_switch-IsValid w id s h)
Step-IsValid (clicks w click s) h = clicked_in-Fine s.mode w click s h
Step-IsValid (types field value i s) h =
    inl (in_private-IsValid s.mode s _ h (edit_table-IsValid _ s (change_row-IsSelected _ i) h))
Step-IsValid (changes field value i s) h =
    inl (in_private-IsValid s.mode s _ h (edit_table-IsValid _ s (change_row-IsSelected _ i) h))
Step-IsValid (submits w form s) h = inl (checked-Fine w form s _ h)
Step-IsValid (deletes w id s free) h = inl (delete_node-Fine w id s _ free h)

-- Whatever is clicked, typed, saved and deleted, in any order and with any answers of the server
-- and the user, the selected row is a row of the active connection, and without rows none is
-- selected, if that holds at the start; or else one of the clicks was on a row that the active
-- connection did not have at that moment, which `onContentClick` selects without a check. No
-- connection is deleted while a configuration has the empty id.
pub Reach-IsValid : {s t : State} → IsValid s → (r : Reach s t) → IsValid t ⊎ SomeMiss r
Reach-IsValid h here = inl h
Reach-IsValid h (next r step) = elim (Reach-IsValid h r) [
  | inr missed ↦ inr (inl missed)
  | inl valid ↦ elim (Step-IsValid step valid) [ inl still ↦ inl still | inr miss ↦ inr (inr miss) ]
]
