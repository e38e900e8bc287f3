-- ===== src/Drafts/Forms.antt =====
-- The forms of private_protocol.js: `isDuplicatePrivateConnectionName`, `submitConnectionSettings` and
-- `deleteConnection`.
use modbus_simulator_go.Base.{
  ℕ, Bool, false, not, ◌&&◌, Option, none, some, List, [], ◌∷◌, Text, is_empty, trim, to_lower,
  text_eq, any, ltb, if◌then◌else◌,
}
use modbus_simulator_go.Base.Dict.{remove, erase}
use modbus_simulator_go.Tree.{Connection}
use modbus_simulator_go.Editor.{SavedRule, Saved, payload, thrown}
use modbus_simulator_go.Drafts.{State, World, get_node_by_id}
use modbus_simulator_go.Drafts.Actions.{
  local, Call, Ended, Toast, bad_port, build_save_payload, connection_created, connection_deleted,
  delete_failed, deletes, name_missing, name_taken, port_missing, posts_connection, puts_config,
  puts_connection, refreshed, save_failed, settings_updated, undirty,
}

unfoldable pub is_duplicate_private_connection_name : Text → Text → State → Bool
is_duplicate_private_connection_name name exclude_conn_id s =
    let normalized = to_lower (trim name) in
    not (is_empty normalized)
    && any (λ c. not (text_eq c.id exclude_conn_id) && text_eq (to_lower (trim c.name)) normalized)
        s.private_tree

-- The fields of the form; `port` is the number that the text `port_raw` converts to.
pub record Settings : Type 0 where
  pub conn_id : Text
  pub name : Text
  pub port_raw : Text
  pub port : Option ℕ

abbrev pub in_range : Option ℕ → Bool
in_range none = false
in_range (some port) = ltb 0 port && ltb port 65536

-- The first message of the four checks.
unfoldable pub settings_fault : Settings → State → Option Toast
settings_fault form s =
    if is_empty (trim form.name)
    then some name_missing
    else if is_duplicate_private_connection_name (trim form.name) (trim form.conn_id) s
    then some name_taken
    else if not (is_empty (trim form.port_raw)) && not (in_range form.port)
    then some bad_port
    else if not (is_empty (trim form.conn_id)) && is_empty (trim form.port_raw)
    then some port_missing
    else none

abbrev pub port_number : Option ℕ → ℕ
port_number none = 0
port_number (some port) = port

-- The request `api.updateConnection` has been answered.
abbrev pub updated : World → Text → Text → Call → State → Saved (Text × List SavedRule) → Ended
updated w id name first s (thrown e) = record {
  calls = first ∷ [];
  shown = save_failed ∷ [];
  state = s;
}
updated w id name first s (payload (old_name, rules)) =
    let calls = first ∷ puts_config id name rules ∷ [] in
    if w.save_config
    then refreshed w id calls (settings_updated ∷ []) save_failed (undirty id s)
    else record { calls = calls; shown = save_failed ∷ []; state = s }

abbrev pub failed_save : Call → State → Ended
failed_save call s = record { calls = call ∷ []; shown = save_failed ∷ []; state = s }

-- The request `api.createConnection` has been answered.
abbrev pub created : World → Text → Call → State → Option Text → Ended
created w name first s none = failed_save first s
created w name first s (some id) =
    let calls = first ∷ puts_config id name [] ∷ [] in
    if w.save_config
    then refreshed w id calls (connection_created ∷ []) save_failed s
    else record { calls = calls; shown = save_failed ∷ []; state = s }

-- The `try` of the form.
abbrev pub submitted : World → Settings → State → Ended
submitted w form s =
    let id = trim form.conn_id in
    let name = trim form.name in
    let puts = puts_connection id name (port_number form.port) in
    let posts = posts_connection name (if is_empty (trim form.port_raw) then none else form.port) in
    if is_empty id
    then created w name posts s w.create_connection
    else if w.update_connection
    then updated w id name puts s (build_save_payload id s)
    else failed_save puts s

-- The checks come first.
abbrev pub checked : World → Settings → State → Option Toast → Ended
checked w form s (some fault) = record { calls = []; shown = fault ∷ []; state = s }
checked w form s none = submitted w form s

unfoldable pub submit_connection_settings : World → Settings → State → Ended
submit_connection_settings w form s = checked w form s (settings_fault form s)

-- The state after the server has deleted the connection.
abbrev pub without : Text → State → State
without conn_id s =
    let gone = record s {
      configs = remove conn_id s.configs;
      dirty_connections = erase conn_id s.dirty_connections;
    } in
    if text_eq s.active_conn_id conn_id
    then record gone { active_conn_id = []; selected_row_index = none }
    else gone

abbrev pub delete_node : World → Text → State → Option Connection → Ended
delete_node w conn_id s none = local s
delete_node w conn_id s (some node) =
    if not w.confirmed
    then local s
    else if w.delete_connection
    then refreshed w [] (deletes conn_id ∷ []) (connection_deleted ∷ []) delete_failed
        (without conn_id s)
    else record { calls = deletes conn_id ∷ []; shown = delete_failed ∷ []; state = s }

unfoldable pub delete_connection : World → Text → State → Ended
delete_connection w conn_id s = delete_node w conn_id s (get_node_by_id conn_id s)
