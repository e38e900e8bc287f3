-- ===== src/Devices/Edit.antt =====
-- The form for devices when it is opened: `openAddDeviceModal` and `editDevice`.
use modbus_simulator_go.Base.{
  ap, ◌∙◌, ℕ, ◌≤◌, ◌<◌, ◌≡◌, refl, false, Option, none, some, List, [], ◌∷◌, Text, codes, is_empty,
  trim, arith, Option-cases, inl, inr,
}
use modbus_simulator_go.Base.Digits.{to_decimal, is_empty-to_decimal}
use modbus_simulator_go.Tree.{Node, Slave, node_with_id, slave_with_id}
use modbus_simulator_go.Devices.{
  Form, Api, puts_slave, is_duplicate_device_name, within, chosen_port, chosen_addr, slave_name,
  moves_port, load_tree, update_device, save_device, submit_connection_form,
}
use modbus_simulator_go.Devices.Unchanged.{parse_int-to_decimal}

unfoldable pub open_add_device_modal : Form
open_add_device_modal = record {
  conn_id = [];
  slave_id = [];
  conn_name = [];
  conn_port = [];
  slave_addr = codes "1";
}

-- The values that the fields get; without the device nothing happens.
unfoldable pub edit_device : List Node → Text → Text → Option Form
unfolding node_with_id slave_with_id to_decimal
edit_device tree conn_id slave_id = elim (node_with_id conn_id tree) [
  | none ↦ none
  | some node ↦ elim (slave_with_id slave_id node) [
    | none ↦ none
    | some slave ↦ some (record {
      conn_id = conn_id;
      slave_id = slave_id;
      conn_name = slave.name;
      conn_port = to_decimal node.connection.port;
      slave_addr = to_decimal slave.slave_addr;
    })
  ]
]

within-some : (highest n : ℕ) → 0 < n → n ≤ highest → within highest (some n) ≡ some n
within-some highest n lo hi = ground arith

update_device-sent :
    (api : Api) (tree : List Node) (form : Form) (node : Node) (name : Text) (port addr : ℕ)
    → node_with_id form.conn_id tree ≡ some node
    → moves_port (some node) port ≡ false
    → (update_device api tree form name port addr).sent
      ≡ puts_slave form.conn_id form.slave_id name addr ∷ []
unfolding update_device load_tree
update_device-sent api tree form node name port addr n same =
    elim (Option-cases (api.update_slave form.conn_id form.slave_id name addr)) [
      | inl done ↦ rw (update_device, n, same, done) refl
      | inr (reason, failed) ↦ rw (update_device, n, same, failed) refl
    ]

save_device-sent :
    (api : Api) (tree : List Node) (form : Form) (node : Node) (name : Text) (port addr : ℕ)
    → node_with_id form.conn_id tree ≡ some node
    → moves_port (some node) port ≡ false
    → slave_name form addr ≡ name
    → is_duplicate_device_name tree name (some form.slave_id) ≡ false
    → is_empty form.slave_id ≡ false
    → (save_device api tree form port addr).sent
      ≡ puts_slave form.conn_id form.slave_id name addr ∷ []
unfolding save_device
save_device-sent api tree form node name port addr n same named free full =
    let free' : is_duplicate_device_name tree (slave_name form addr) (some form.slave_id) ≡ false =
      rw named free in
    rw (save_device, free', full)
      (update_device-sent api tree form node (slave_name form addr) port addr n same
        ∙ ap (λ m. puts_slave form.conn_id form.slave_id m addr ∷ []) named)

-- A device that is edited and saved unchanged: the server is sent, once, the name and the address
-- that the device has. This holds for a device with valid numbers and a name without blanks at its
-- ends that no other device has.
pub submit_connection_form-edit_device :
    (api : Api) (tree : List Node) (conn_id slave_id : Text) (node : Node) (slave : Slave)
    → node_with_id conn_id tree ≡ some node
    → slave_with_id slave_id node ≡ some slave
    → is_empty slave_id ≡ false
    → 0 < node.connection.port
    → node.connection.port ≤ 65535
    → 0 < slave.slave_addr
    → slave.slave_addr ≤ 247
    → trim slave.name ≡ slave.name
    → is_empty slave.name ≡ false
    → is_duplicate_device_name tree slave.name (some slave_id) ≡ false
    → (form : Form) × (edit_device tree conn_id slave_id ≡ some form)
      × ((submit_connection_form api tree form).sent
          ≡ puts_slave conn_id slave_id slave.name slave.slave_addr ∷ [])
unfolding edit_device submit_connection_form
submit_connection_form-edit_device api tree conn_id slave_id node slave n s full p p' a a' trimmed
      named free =
    let form : Form = record {
      conn_id = conn_id;
      slave_id = slave_id;
      conn_name = slave.name;
      conn_port = to_decimal node.connection.port;
      slave_addr = to_decimal slave.slave_addr;
    } in
    let port : chosen_port tree form ≡ some node.connection.port =
      rw (is_empty-to_decimal node.connection.port) (parse_int-to_decimal node.connection.port) in
    let addr : chosen_addr form ≡ some slave.slave_addr =
      rw (is_empty-to_decimal slave.slave_addr) (parse_int-to_decimal slave.slave_addr) in
    let name : slave_name form slave.slave_addr ≡ slave.name = rw (trimmed, named) refl in
    let same : moves_port (some node) node.connection.port ≡ false = ground arith in
    let saved : (save_device api tree form node.connection.port slave.slave_addr).sent
        ≡ puts_slave conn_id slave_id slave.name slave.slave_addr ∷ [] =
      save_device-sent api tree form node slave.name node.connection.port slave.slave_addr n same
        name free full in
    (
      form,
      rw (edit_device, n, s) refl,
      rw
          (
            submit_connection_form,
            port,
            within-some 65535 node.connection.port p p',
            addr,
            within-some 247 slave.slave_addr a a',
          )
          saved,
    )
