-- ===== src/Import/Slaves.antt =====
-- The device that an import writes to, from app.js: `findOrCreateSlave`, `ensureDefaultSlave`,
-- `ensurePrivateProtocolConfig`. What `api.createSlave` answers is a parameter: a reason for a
-- refusal, or the tree that `loadTree` leaves afterwards.
use modbus_simulator_go.Base.{
  ◌+◌, ℕ, Bool, true, false, ◌⊎◌, inl, inr, Option, none, some, List, [], ◌∷◌, ◌++◌, Text, codes,
  is_empty, trim, to_lower, text_eq, find, any, ◌==◌, if◌then◌else◌,
}
use modbus_simulator_go.Base.Digits.{to_decimal}
use modbus_simulator_go.Report.{Report}
use modbus_simulator_go.Tree.{Node, Slave, node_with_id}

-- The tree before the call, the connection, the name and the address of the device.
abbrev pub CreateSlave : Type 0
CreateSlave = List Node → Text → Text → ℕ → Text ⊎ List Node

abbrev pub with_error : Text → Report → Report
with_error message report = record report { errors = report.errors ++ message ∷ [] }

abbrev pub slave_at : ℕ → Node → Option Slave
slave_at slave_addr node = find (λ s. s.slave_addr == slave_addr) node.slaves

-- `(deviceName || '').trim().toLowerCase()`
abbrev pub normal_name : Text → Text
normal_name name = to_lower (trim name)

abbrev pub named_like : Text → Slave → Bool
named_like normalized s = text_eq (normal_name s.name) normalized

-- `deviceName || `从站 ${slaveAddr}``
abbrev pub name_or_default : Text → ℕ → Text
name_or_default [] slave_addr = codes "从站 " ++ to_decimal slave_addr
name_or_default (c ∷ name) slave_addr = c ∷ name

-- The result of the search: the device or null, the tree, the report.
abbrev pub Found : Type 0
Found = Option Slave × List Node × Report

-- `node?.slaves.find(…)` in the tree that was loaded again.
abbrev pub slave_of : ℕ → Option Node → Option Slave
slave_of slave_addr none = none
slave_of slave_addr (some node) = slave_at slave_addr node

abbrev pub after_creation : Text → ℕ → List Node → Report → Text ⊎ List Node → Found
after_creation conn_id slave_addr tree report (inl reason) =
    (none, tree, with_error (codes "创建设备失败：" ++ reason) report)
after_creation conn_id slave_addr tree report (inr tree') = (
  slave_of slave_addr (node_with_id conn_id tree'),
  tree',
  record report { created_slaves = report.created_slaves + 1 },
)

-- The message on a name that is taken at another port.
abbrev pub name_taken : ℕ → Text
name_taken port = codes "设备名称已存在（端口" ++ (to_decimal port ++ codes "），请选择对应设备")

module _ (create_slave : CreateSlave) (conn_id : Text) (slave_addr : ℕ) (device_name : Text)
    (tree : List Node) (report : Report) where
  abbrev pub created_slave : Found
  created_slave =
      after_creation conn_id slave_addr tree report
        (create_slave tree conn_id (name_or_default device_name slave_addr) slave_addr)

  -- `sameNameNode`
  abbrev pub other_node : Option Node → Found
  other_node none = created_slave
  other_node (some node) = (none, tree, with_error (name_taken node.connection.port) report)

  -- `sameNameInConn`
  abbrev pub same_name : Option Slave → Found
  same_name none = other_node (find (λ n. any (named_like (normal_name device_name)) n.slaves) tree)
  same_name (some slave) = (some slave, tree, report)

  -- The device with the address, or the search by name.
  abbrev pub in_node : Node → Option Slave → Found
  in_node node (some slave) = (some slave, tree, report)
  in_node node none =
      if is_empty (normal_name device_name)
      then created_slave
      else same_name (find (named_like (normal_name device_name)) node.slaves)

  abbrev pub in_tree : Option Node → Found
  in_tree none = (none, tree, with_error (codes "连接不存在") report)
  in_tree (some node) = in_node node (slave_at slave_addr node)

  unfoldable pub find_or_create_slave : Found
  find_or_create_slave = in_tree (node_with_id conn_id tree)

-- `(nameHint || node.connection.name || '从站 1').trim() || '从站 1'`
abbrev pub default_name : Text → Text → Text
default_name [] [] = codes "从站 1"
default_name [] (c ∷ name) = if is_empty (trim (c ∷ name)) then codes "从站 1" else trim (c ∷ name)
default_name (c ∷ hint) name = if is_empty (trim (c ∷ hint)) then codes "从站 1" else trim (c ∷ hint)

-- The tree after it, and whether a device was created; a refusal is thrown.
abbrev pub default_in :
    CreateSlave → Text → Text → List Node → Option Node → Text ⊎ (Bool × List Node)
default_in create_slave conn_id name_hint tree none = inr (false, tree)
default_in create_slave conn_id name_hint tree (some node) = elim node.slaves [
  | s ∷ slaves ↦ inr (false, tree)
  | [] ↦ elim (create_slave tree conn_id (default_name name_hint node.connection.name) 1) [
    | inl reason ↦ inl reason
    | inr tree' ↦ inr (true, tree')
  ]
]

unfoldable pub ensure_default_slave :
    CreateSlave → Text → Text → List Node → Text ⊎ (Bool × List Node)
ensure_default_slave create_slave conn_id name_hint tree =
    default_in create_slave conn_id name_hint tree (node_with_id conn_id tree)
