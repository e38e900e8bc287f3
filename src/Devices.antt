-- ===== src/Devices.antt =====
-- The forms for devices of app.js: `normalizeDeviceName`, `isDuplicateDeviceName`,
-- `buildCopyDeviceName`, the submission of `connectionForm` and `copyDevice`. What the server answers
-- is the parameter `Api`. The requests that change the server are returned in their order, with the
-- message that `alert` shows and the tree that is kept.
pub mod Fresh
pub mod Sound
pub mod Copy
pub mod Page
pub mod Entry
pub mod Blocks
pub mod Unchanged
pub mod Edit
mod Tests
use modbus_simulator_go.Base.{
  ℕ, ◌+◌, Bool, true, false, not, ◌&&◌, ◌⊎◌, inl, inr, Option, none, some, List, [], ◌∷◌, ◌++◌, map,
  Text, codes, is_empty, trim, trim_start, to_lower, text_eq, find, any, length, ltb, leb, ◌==◌,
  if◌then◌else◌,
}
use modbus_simulator_go.Base.Digits.{is_digit, to_decimal, value}
use modbus_simulator_go.Naming.{search_free, named, get_next_port}
use modbus_simulator_go.Tree.{Slave, Node, node_with_id}

abbrev pub normalize_device_name : Text → Text
normalize_device_name name = to_lower (trim name)

-- `slave.id !== excludeSlaveId`, where no id is given in `buildCopyDeviceName`.
abbrev pub is_other : Option Text → Slave → Bool
is_other none slave = true
is_other (some id) slave = not (text_eq slave.id id)

abbrev pub is_namesake : Option Text → Text → Slave → Bool
is_namesake exclude normalized slave =
    is_other exclude slave && text_eq (normalize_device_name slave.name) normalized

unfoldable pub is_duplicate_device_name : List Node → Text → Option Text → Bool
is_duplicate_device_name tree name exclude =
    not (is_empty (normalize_device_name name))
    && any (λ n. any (is_namesake exclude (normalize_device_name name)) n.slaves) tree

-- `(baseName || '').trim() || '设备'`
abbrev pub base_name : Text → Text
base_name name = if is_empty (trim name) then codes "设备" else trim name

abbrev pub copy_prefix : Text → Text
copy_prefix name = base_name name ++ codes "_副本"

abbrev pub slaves_of : List Node → List Slave
slaves_of [] = []
slaves_of (n ∷ tree) = n.slaves ++ slaves_of tree

-- The loop has fuel, one more than the number of devices.
unfoldable pub build_copy_device_name : List Node → Text → Option Text
build_copy_device_name tree name =
    let prefix = copy_prefix name in
    let index =
      search_free (length (slaves_of tree) + 1)
        (λ i. is_duplicate_device_name tree (prefix ++ to_decimal i) none) 2 in
    if is_duplicate_device_name tree prefix none then named prefix index else some prefix

-- A register block as the server has it; a text that is missing is empty.
pub record Block : Type 0 where
  pub start_addr : ℕ
  pub hex_data : Text
  pub names : Text
  pub coefficients : Text
  pub jitter_amp : ℕ

pub data Request : Type 0 where
  -- the name and the port
  posts_connection : Text → ℕ → Request
  -- the connection, the name and the address
  posts_slave : Text → Text → ℕ → Request
  -- the connection, the device, the name and the address
  puts_slave : Text → Text → Text → ℕ → Request
  -- the connection and the device
  posts_register : Text → Text → Block → Request

-- The answers: the id of what was created, or the reason of a refusal.
pub record Api : Type 0 where
  pub create_connection : Text → ℕ → Text ⊎ Text
  pub create_slave : Text → Text → ℕ → Text ⊎ Text
  pub update_slave : Text → Text → Text → ℕ → Option Text
  pub create_register : Text → Text → Block → Option Text
  pub get_registers : Text → Text → Option (List Block)
  -- after the requests of the operation
  pub get_tree : List Request → Option (List Node)

pub record Outcome : Type 0 where
  pub sent : List Request
  pub shown : Option Text
  pub tree : List Node

abbrev pub refused : List Request → Text → List Node → Outcome
refused sent message tree = record { sent = sent; shown = some message; tree = tree }

abbrev pub or_kept : List Node → Option (List Node) → List Node
or_kept tree none = tree
or_kept tree (some loaded) = loaded

-- The end of an operation that goes through: `loadTree`, which keeps the tree when it fails.
unfoldable pub load_tree : Api → List Request → List Node → Outcome
load_tree api sent tree = record {
  sent = sent;
  shown = none;
  tree = or_kept tree (api.get_tree sent);
}

abbrev pub ports_of : List Node → List ℕ
ports_of tree = map (λ n. n.connection.port) tree

abbrev pub leading_digits : Text → Text
leading_digits [] = []
leading_digits (c ∷ s) = if is_digit c then c ∷ leading_digits s else []

abbrev pub decimal : Text → Option ℕ
decimal [] = none
decimal (c ∷ s) = some (value 10 0 (c ∷ s))

-- `parseInt(s)` on what a number field holds; a negative number, which the tests refuse like NaN, is
-- none.
unfoldable pub parse_int : Text → Option ℕ
parse_int s = decimal (leading_digits (trim_start s))

pub record Form : Type 0 where
  pub conn_id : Text
  pub slave_id : Text
  pub conn_name : Text
  pub conn_port : Text
  pub slave_addr : Text

-- `!n || n < 1 || n > highest` refuses.
abbrev pub within : ℕ → Option ℕ → Option ℕ
within highest none = none
within highest (some n) = if ltb 0 n && leb n highest then some n else none

abbrev pub chosen_port : List Node → Form → Option ℕ
chosen_port tree form =
    if is_empty form.conn_port
    then some (get_next_port (ports_of tree))
    else parse_int form.conn_port

abbrev pub chosen_addr : Form → Option ℕ
chosen_addr form = if is_empty form.slave_addr then some 1 else parse_int form.slave_addr

-- `name || `从站${slaveAddr}``
abbrev pub slave_name : Form → ℕ → Text
slave_name form addr =
    if is_empty (trim form.conn_name) then codes "从站" ++ to_decimal addr else trim form.conn_name

abbrev pub bad_port : Text
bad_port = codes "请输入有效的端口号 (1-65535)"

abbrev pub bad_addr : Text
bad_addr = codes "请输入有效的从机地址 (1-247)"

abbrev pub duplicate : Text
duplicate = codes "设备名称不能重复"

abbrev pub port_fixed : Text
port_fixed = codes "暂不支持修改端口，请删除后重新添加。"

abbrev pub save_failed : Text → Text
save_failed reason = codes "保存失败: " ++ reason

-- `node && node.connection.port !== port`
abbrev pub moves_port : Option Node → ℕ → Bool
moves_port none port = false
moves_port (some node) port = not (node.connection.port == port)

module _ (api : Api) (tree : List Node) where
  -- `await api.createSlave(…)` on the form, and what follows.
  unfoldable pub add_slave : List Request → Text → Text → ℕ → Outcome
  add_slave sent conn_id name addr =
      let sent' = sent ++ posts_slave conn_id name addr ∷ [] in
      elim (api.create_slave conn_id name addr) [
        | inl reason ↦ refused sent' (save_failed reason) tree
        | inr id ↦ load_tree api sent' tree
      ]

  unfoldable pub add_connection : Text → ℕ → ℕ → Outcome
  unfolding add_slave
  add_connection name port addr =
      let conn_name = codes "端口" ++ to_decimal port in
      let sent = posts_connection conn_name port ∷ [] in
      elim (api.create_connection conn_name port) [
        | inl reason ↦ refused sent (save_failed reason) tree
        | inr conn_id ↦ add_slave sent conn_id name addr
      ]

  -- A new device goes to the connection with its port, or to a new one.
  unfoldable pub add_device : Text → ℕ → ℕ → Outcome
  unfolding add_connection
  add_device name port addr = elim (find (λ n. n.connection.port == port) tree) [
    | none ↦ add_connection name port addr
    | some node ↦
        if is_empty node.connection.id
        then add_connection name port addr
        else add_slave [] node.connection.id name addr
  ]

  unfoldable pub update_device : Form → Text → ℕ → ℕ → Outcome
  unfolding load_tree
  update_device form name port addr =
      let sent = puts_slave form.conn_id form.slave_id name addr ∷ [] in
      if moves_port (node_with_id form.conn_id tree) port
      then refused [] port_fixed tree
      else elim (api.update_slave form.conn_id form.slave_id name addr) [
        | some reason ↦ refused sent (save_failed reason) tree
        | none ↦ load_tree api sent tree
      ]

  unfoldable pub save_device : Form → ℕ → ℕ → Outcome
  unfolding add_device update_device is_duplicate_device_name
  save_device form port addr =
      let name = slave_name form addr in
      if is_duplicate_device_name tree name (some form.slave_id)
      then refused [] duplicate tree
      else if is_empty form.slave_id
      then add_device name port addr
      else update_device form name port addr

  -- `connectionForm.onsubmit`
  unfoldable pub submit_connection_form : Form → Outcome
  unfolding save_device
  submit_connection_form form = elim (within 65535 (chosen_port tree form)) [
    | none ↦ refused [] bad_port tree
    | some port ↦ elim (within 247 (chosen_addr form)) [
      | none ↦ refused [] bad_addr tree
      | some addr ↦ save_device form port addr
    ]
  ]
