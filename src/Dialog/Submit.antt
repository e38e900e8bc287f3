-- ===== src/Dialog/Submit.antt =====
-- The submission of the import dialog of app.js, `importForm.onsubmit`, with
-- `ensurePrivateProtocolConfig`. What the server answers is a record; the actions are returned in
-- their order. What the tab and the tree fetch anew when they are drawn again is left out.
use modbus_simulator_go.Base.{
  ℕ, Bool, true, false, not, ◌&&◌, ◌⊎◌, inl, inr, Option, none, some, List, [], ◌∷◌, ◌++◌, Text,
  codes, is_empty, trim, text_eq, find, ◌==◌, if◌then◌else◌,
}
use modbus_simulator_go.Report.{PrivateReport}
use modbus_simulator_go.Naming.{get_next_port}
use modbus_simulator_go.Tree.{Node, node_with_id}
use modbus_simulator_go.Drafts.{Served, or_else}
use modbus_simulator_go.Registers.Cells.{Cache}
use modbus_simulator_go.Import.Frames.{Server, Imported, going, broken_off, import_frames}
use modbus_simulator_go.Import.Private.{import_private_frames}
use modbus_simulator_go.Import.Slaves.{ensure_default_slave}
use modbus_simulator_go.Devices.{parse_int, within, or_kept, ports_of}
use modbus_simulator_go.Dialog.{
  Modal, new_conn, is_private, service_type_of, get_locked_import_conn_id,
}
use modbus_simulator_go.Dialog.Texts.{
  Summary, ok, warn, Thrown, failure_of, render_import_summary, render_private_summary,
  format_import_error,
}

pub data Action : Type 0 where
  -- the name, the port and the service type
  posts_connection : Text → ℕ → ℕ → Action
  -- `importFrames`: the connection and the log
  imports_frames : Text → Text → Action
  -- the connection, and what is saved
  puts_private : Text → Served → Action
  -- `ensureDefaultSlave`: the connection and the name for its device
  ensures_slave : Text → Text → Action
  -- `privateProtocolUI.refreshData`
  refreshes : Text → Action

pub record Backend : Type 0 where
  pub create_connection : Text → ℕ → ℕ → Thrown ⊎ Text
  pub server : Server
  -- the error of `api.updateRegister` that ends an import
  pub update_error : Thrown
  pub get_private_protocol : Text → Option Served
  -- the reason of a refusal
  pub save_private_protocol : Text → Served → Option Thrown
  pub refresh_data : Text → Option Thrown
  pub encode : Text → List ℕ
  -- after the actions so far
  pub get_tree : List Action → Option (List Node)

pub record ImportPage : Type 0 where
  pub modal : Modal
  pub device_tree : List Node
  pub register_cache : Cache
  pub import_in_progress : Bool
  pub actions : List Action

abbrev pub set_import_summary : Summary → ImportPage → ImportPage
set_import_summary s p = record p { modal = record p.modal { summary = s } }

abbrev pub acting : Action → ImportPage → ImportPage
acting a p = record p { actions = p.actions ++ a ∷ [] }

-- How a part of the `try` block ends.
pub data Ended : Type 0 where
  through : ImportPage → Ended
  threw : Thrown → ImportPage → Ended

abbrev pub then_run : (ImportPage → Ended) → Ended → Ended
then_run next (through p) = next p
then_run next (threw e p) = threw e p

-- `const connId = …`
unfoldable pub target_conn : Modal → Text
unfolding get_locked_import_conn_id
target_conn m =
    if is_private m.import_mode
    then m.import_conn_id
    else or_else (get_locked_import_conn_id m) m.chosen

unfoldable pub is_creating_new : Modal → Bool
unfolding get_locked_import_conn_id target_conn
is_creating_new m =
    not (is_private m.import_mode)
    && (is_empty (get_locked_import_conn_id m) && text_eq (target_conn m) new_conn)

-- A connection that is to be created: its name and its port.
pub record Pending : Type 0 where
  pub name : Text
  pub port : ℕ

-- What the checks before the `try` block decide.
pub data Checked : Type 0 where
  stopped : Text → Checked
  -- the connection, or the one that is pending
  existing : Text → Checked
  pending : Pending → Checked

unfoldable pub new_port : List Node → Text → Option ℕ
new_port tree input =
    within 65535 (if is_empty input then some (get_next_port (ports_of tree)) else parse_int input)

abbrev pub check_port : List Node → Text → Option ℕ → Checked
check_port tree name none = stopped (codes "请输入有效的端口号 (1-65535)。")
check_port tree name (some port) = elim (find (λ (n : Node). n.connection.port == port) tree) [
  | some node ↦ stopped (codes "该端口已存在，请从下拉选择。")
  | none ↦ pending (record { name = name; port = port })
]

unfoldable pub check_form : List Node → Modal → Checked
unfolding target_conn is_creating_new new_port
check_form tree m =
    if is_empty (target_conn m)
    then stopped (if is_private m.import_mode then codes "请先选择一个私有协议连接。" else codes "请选择连接。")
    else if not (is_creating_new m)
    then existing (target_conn m)
    else if is_empty (trim m.conn_name)
    then stopped (codes "请输入名称。")
    else check_port tree (trim m.conn_name) (new_port tree m.conn_port)

-- The name for the default device: that of the connection that was created.
abbrev pub name_hint : Option Pending → Text
name_hint none = []
name_hint (some p) = p.name

module _ (b : Backend) where
  -- `loadTree`
  abbrev pub load_tree : ImportPage → ImportPage
  load_tree p = record p { device_tree = or_kept p.device_tree (b.get_tree p.actions) }

  -- `importFrames` and the summary of its report; the tree is loaded before and after it.
  abbrev pub after_import : ImportPage → Imported → Ended
  after_import p (broken_off st) =
      threw b.update_error
        (record p { device_tree = st.device_tree; register_cache = st.register_cache })
  after_import p (going st) = through (
      set_import_summary (render_import_summary st.report)
        (load_tree (record p { device_tree = st.device_tree; register_cache = st.register_cache })))

  unfoldable pub run_import_frames : Text → ImportPage → Ended
  run_import_frames conn_id p =
      let p' = load_tree (acting (imports_frames conn_id p.modal.frames) p) in
      after_import p'
        (import_frames b.server conn_id p'.modal.frames p'.device_tree p'.register_cache)

  abbrev pub name_of : Option Node → Text
  name_of none = []
  name_of (some node) = node.connection.name

  abbrev pub saved : PrivateReport → ImportPage → Option Thrown → Ended
  saved report p (some e) = threw e p
  saved report p none = through (set_import_summary (render_private_summary report) p)

  -- `importPrivateFrames` and the summary of its report.
  unfoldable pub run_import_private : Text → ImportPage → Ended
  run_import_private conn_id p =
      let p' = load_tree p in
      let (served, report) =
        import_private_frames b.encode (name_of (node_with_id conn_id p'.device_tree))
          (b.get_private_protocol conn_id) p'.modal.frames in
      saved report (acting (puts_private conn_id served) p')
        (b.save_private_protocol conn_id served)

  unfoldable pub ensure_private_protocol_config : Text → Text → ImportPage → Ended
  ensure_private_protocol_config conn_id hint p =
      let served : Served = record { name = trim hint; rules = [] } in
      let p' = acting (puts_private conn_id served) p in
      elim (b.save_private_protocol conn_id served) [
        | some e ↦ threw e p'
        | none ↦ through (set_import_summary (ok (codes "已新增私有协议连接")) p')
      ]

  -- The first half of the `try` block: the import, or what is shown without a log.
  unfoldable pub import_or_warn : Option Pending → Text → ImportPage → Ended
  unfolding run_import_frames run_import_private ensure_private_protocol_config
  import_or_warn pend conn_id p =
      if not (is_empty (trim p.modal.frames))
      then (if is_private p.modal.import_mode
          then run_import_private conn_id p
          else run_import_frames conn_id p)
      else if not (is_private p.modal.import_mode)
      then through (set_import_summary (warn (codes "未导入报文")) p)
      else elim pend [
        | some new ↦ ensure_private_protocol_config conn_id (name_hint (some new)) p
        | none ↦ through (set_import_summary (warn (codes "请粘贴需要导入的报文")) p)
      ]

  abbrev pub after_default : Bool → ImportPage → Text ⊎ (Bool × List Node) → Ended
  after_default blank p (inl reason) = threw (failure_of reason []) p
  after_default blank p (inr (created, tree)) =
      let p' = record p { device_tree = tree } in
      through (if created && blank then set_import_summary (ok (codes "已新增设备")) p' else p')

  -- The second half: the default device, or the private view.
  unfoldable pub finish_import : Option Pending → Text → ImportPage → Ended
  unfolding ensure_default_slave
  finish_import pend conn_id p =
      let blank = is_empty (trim p.modal.frames) in
      let p' = load_tree (acting (ensures_slave conn_id (name_hint pend)) p) in
      if not (is_private p.modal.import_mode)
      then after_default blank p'
          (ensure_default_slave b.server.create_slave conn_id (name_hint pend) p'.device_tree)
      else if blank
      then through p
      else elim (b.refresh_data conn_id) [
        | some e ↦ threw e (acting (refreshes conn_id) p)
        | none ↦ through (acting (refreshes conn_id) p)
      ]

  unfoldable pub run_on : Option Pending → Text → ImportPage → Ended
  unfolding import_or_warn finish_import
  run_on pend conn_id p = then_run (finish_import pend conn_id) (import_or_warn pend conn_id p)

  abbrev pub created : Pending → ImportPage → Thrown ⊎ Text → Ended
  created pend p (inl e) = threw e p
  created pend p (inr conn_id) = run_on (some pend) conn_id p

  -- The `try` block, on what the checks decided.
  unfoldable pub try_import : Checked → ImportPage → Ended
  unfolding run_on
  try_import (stopped message) p = through (set_import_summary (warn message) p)
  try_import (existing conn_id) p = run_on none conn_id p
  try_import (pending pend) p =
      let service_type = service_type_of p.modal.import_mode in
      created pend (acting (posts_connection pend.name pend.port service_type) p)
        (b.create_connection pend.name pend.port service_type)

  -- The `catch` and what follows it.
  abbrev pub settled : Ended → ImportPage
  settled (through p) = record p { import_in_progress = false }
  settled (threw e p) = record (set_import_summary (warn (format_import_error e)) p) {
    import_in_progress = false;
  }

  unfoldable pub submit_import_form : ImportPage → ImportPage
  unfolding check_form try_import
  submit_import_form p =
      if p.import_in_progress
      then p
      else settled
          (try_import (check_form p.device_tree p.modal) (record p { import_in_progress = true }))
