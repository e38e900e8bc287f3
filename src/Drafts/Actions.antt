-- ===== src/Drafts/Actions.antt =====
-- The operations of private_protocol.js on its state: `setMode`, `attemptSwitchConnection`,
-- `onTreeClick` on a connection, `onContentClick`, `onContentInput`, `onContentChange`,
-- `saveActiveConnection`, `updatePrivateActionState`. The requests that change the server are returned
-- in the order in which they are made, and so are the messages that are shown. The forms are in Forms.
use modbus_simulator_go.Base.{
  ℕ, zero, suc, Bool, true, false, not, ◌&&◌, ◌||◌, Option, none, some, List, [], ◌∷◌, ◌++◌, Text,
  is_empty, text_eq, length, ltb, if◌then◌else◌,
}
use modbus_simulator_go.Base.Dict.{entry, put, erase}
use modbus_simulator_go.Editor.{
  Row, Table, MatchMode, Field, name_field, send_ascii_field, send_hex_field, return_ascii_field,
  return_hex_field, SavedRule, no_connection, Saved, payload, thrown, sync_rule_field, add_row,
  delete_selected_row, save_rules,
}
use modbus_simulator_go.Drafts.{
  Mode, modbus, private_protocol, Config, State, World, get_node_by_id, get_active_config, rules_of,
  refresh_private_data, mark_dirty, has_draft, confirm_discard_active_private_draft,
}

-- `enterModbusMode` changes nothing of the state, and an error of `enterPrivateMode` is shown.
abbrev pub entered : World → Mode → State → State
entered w modbus s = record s { mode = modbus }
entered w private_protocol s = refresh_private_data w [] (record s { mode = private_protocol })

-- Whether a mode is left for the other one, so that a draft has to be given up.
abbrev pub leaves_private : Mode → Mode → Bool
leaves_private private_protocol modbus = true
leaves_private _ _ = false

unfoldable pub set_mode : World → Mode → State → State
unfolding entered leaves_private
set_mode w next s =
    let (discard, s') = confirm_discard_active_private_draft w s in
    if leaves_private s.mode next
    then (if discard then entered w next s' else s')
    else entered w next s

unfoldable pub attempt_switch_connection : World → Text → State → State
attempt_switch_connection w next_conn_id s =
    let (discard, asked) = confirm_discard_active_private_draft w s in
    let s' = if has_draft s then asked else s in
    let active = record s' { active_conn_id = next_conn_id } in
    let switched = record active {
      selected_row_index = elim (rules_of (get_active_config active)) [
        | [] ↦ none
        | r ∷ rules ↦ some 0
      ];
    } in
    if is_empty next_conn_id || text_eq next_conn_id s.active_conn_id
    then s
    else if has_draft s && not discard
    then s'
    else switched

-- The table of the active connection, for the operations of the editor.
abbrev pub table_of : State → Config → Table
table_of s config = record {
  rules = config.rules;
  selected_row_index = s.selected_row_index;
  dirty = false;
}

-- What an operation of the editor left is written to the shared state.
abbrev pub with_table : State → Config → Table → State
with_table s config t =
    let s' = record s {
      configs = put s.active_conn_id (record config { rules = t.rules }) s.configs;
      selected_row_index = t.selected_row_index;
    } in
    if t.dirty then mark_dirty s' else s'

abbrev pub edited : (Table → Table) → State → Option Config → State
edited edit s none = s
edited edit s (some config) = with_table s config (edit (table_of s config))

unfoldable pub edit_table : (Table → Table) → State → State
edit_table edit s = edited edit s (get_active_config s)

-- `rules[i] = change(rules[i])`
abbrev pub change_at : (Row → Row) → ℕ → List Row → List Row
change_at change i [] = []
change_at change zero (r ∷ rules) = change r ∷ rules
change_at change (suc i) (r ∷ rules) = r ∷ change_at change i rules

-- A change of one row, which has to exist: `getRuleByIndex` and the writes to what it returns.
unfoldable pub change_row : (Row → Row) → ℕ → Table → Table
change_row change i t =
    if ltb i (length t.rules)
    then record t { rules = change_at change i t.rules; dirty = true }
    else t

-- `row[field] = value`
abbrev pub typed : Row → Field → Text → Row
typed row name_field value = record row { name = value }
typed row send_ascii_field value = record row { send_ascii = value }
typed row send_hex_field value = record row { send_hex = value }
typed row return_ascii_field value = record row { return_ascii = value }
typed row return_hex_field value = record row { return_hex = value }

abbrev pub in_private : Mode → State → State → State
in_private modbus s s' = s
in_private private_protocol s s' = s'

unfoldable pub on_content_input : Field → Text → ℕ → State → State
unfolding change_row
on_content_input field value i s =
    in_private s.mode s
      (edit_table (change_row (λ row. record (typed row field value) { dirty = true }) i) s)

unfoldable pub on_content_change : Field → Text → ℕ → State → State
unfolding change_row
on_content_change field value i s =
    in_private s.mode s (
      edit_table (change_row (λ row. record (sync_rule_field row field value) { dirty = true }) i)
        s)

-- The button of a match mode also selects its row.
unfoldable pub click_match_mode : MatchMode → ℕ → Table → Table
unfolding change_row
click_match_mode value i t =
    let t' = change_row (λ row. record row { match_mode = value; dirty = true }) i t in
    if ltb i (length t.rules) then record t' { selected_row_index = some i } else t

-- What `onContentClick` finds under the pointer.
pub data Click : Type 0 where
  match_button : MatchMode → ℕ → Click
  save_button import_button add_button delete_button elsewhere : Click
  row : ℕ → Click

-- The messages of the forms.
pub data Toast : Type 0 where
  saved save_failed name_missing name_taken bad_port port_missing settings_updated : Toast
  connection_created connection_deleted delete_failed : Toast

-- The requests that change what the server holds.
pub data Call : Type 0 where
  puts_config : Text → Text → List SavedRule → Call
  puts_connection : Text → Text → ℕ → Call
  posts_connection : Text → Option ℕ → Call
  deletes : Text → Call

pub record Ended : Type 0 where
  pub calls : List Call
  pub shown : List Toast
  pub state : State

-- An operation that asks nothing of the server.
abbrev pub local : State → Ended
local s = record { calls = []; shown = []; state = s }

-- `await refreshPrivateData(id)` at the end of a `try`, whose `catch` shows a message.
abbrev pub refreshed : World → Text → List Call → List Toast → Toast → State → Ended
refreshed w conn_id calls shown failed s = record {
  calls = calls;
  shown = shown ++ (elim w.tree [ none ↦ failed ∷ [] | some tree ↦ [] ]);
  state = refresh_private_data w conn_id s;
}

-- The name of the connection, and the rules.
unfoldable pub build_save_payload : Text → State → Saved (Text × List SavedRule)
build_save_payload conn_id s = elim (get_node_by_id conn_id s) [
  | none ↦ thrown no_connection
  | some node ↦ elim (entry conn_id s.configs) [
    | none ↦ thrown no_connection
    | some config ↦ elim (save_rules 0 config.rules) [
      | thrown e ↦ thrown e
      | payload rules ↦ payload (node.name, rules)
    ]
  ]
]

abbrev pub undirty : Text → State → State
undirty conn_id s = record s { dirty_connections = erase conn_id s.dirty_connections }

-- The `try` of `saveActiveConnection`, on what `buildSavePayload` returns or throws.
abbrev pub save_payload : World → State → Saved (Text × List SavedRule) → Ended
save_payload w s (thrown e) = record { calls = []; shown = save_failed ∷ []; state = s }
save_payload w s (payload (name, rules)) =
    let id = s.active_conn_id in
    if w.save_config
    then refreshed w id (puts_config id name rules ∷ []) (saved ∷ []) save_failed (undirty id s)
    else record { calls = puts_config id name rules ∷ []; shown = save_failed ∷ []; state = s }

unfoldable pub save_active_connection : World → State → Ended
save_active_connection w s =
    if is_empty s.active_conn_id
    then local s
    else save_payload w s (build_save_payload s.active_conn_id s)

-- A click while the private protocol is shown.
abbrev pub clicked : World → Click → State → Ended
clicked w (match_button value i) s = local (edit_table (click_match_mode value i) s)
clicked w save_button s = save_active_connection w s
clicked w import_button s = local (confirm_discard_active_private_draft w s).1
clicked w add_button s = local (edit_table add_row s)
clicked w delete_button s = local (edit_table delete_selected_row s)
clicked w (row i) s = local (record s { selected_row_index = some i })
clicked w elsewhere s = local s

abbrev pub clicked_in : Mode → World → Click → State → Ended
clicked_in modbus w click s = local s
clicked_in private_protocol w click s = clicked w click s

unfoldable pub on_content_click : World → Click → State → Ended
on_content_click w click s = clicked_in s.mode w click s

-- Which of the buttons are disabled.
pub data Button : Type 0 where
  save import add_row_button delete_row settings delete_active create : Button

unfoldable pub update_private_action_state : Button → State → Bool
update_private_action_state button s =
    let has_conn : Bool = elim (get_active_config s) [ none ↦ false | some config ↦ true ] in
    let has_row : Bool = elim s.selected_row_index [
      | none ↦ false
      | some i ↦ ltb i (length (rules_of (get_active_config s)))
    ] in
    elim button [ delete_row ↦ not (has_conn && has_row) | create ↦ false | _ ↦ not has_conn ]
