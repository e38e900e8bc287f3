-- ===== src/Devices/Copy.antt =====
-- `copyDevice` of app.js.
use modbus_simulator_go.Base.{
  ℕ, ◌≤◌, ◌<◌, ◌≡◌, sym, ap, ◌∙◌, inl, inr, true, false, ◌&&◌, Option, none, some, List, [], ◌∷◌,
  ◌++◌, append-nil, append_assoc, map, Text, codes, to_upper, All, arith, if◌then◌else◌, ltb, leb,
}
use modbus_simulator_go.Tree.{Node, Slave, node_with_id, slave_with_id}
use modbus_simulator_go.Naming.{get_next_port}
use modbus_simulator_go.Naming.Fresh.{get_next_port_fresh}
use modbus_simulator_go.Devices.{
  build_copy_device_name, is_duplicate_device_name, Block, Request, posts_connection, posts_slave,
  posts_register, Api, Outcome, refused, load_tree, ports_of,
}
use modbus_simulator_go.Devices.Fresh.{build_copy_device_name_fresh}

abbrev pub not_found : Text
not_found = codes "复制失败：未找到设备"

abbrev pub no_port : Text
no_port = codes "复制失败：无法分配有效端口"

abbrev pub copy_failed : Text → Text
copy_failed reason = codes "复制失败：" ++ reason

-- The body that is sent for a block.
unfoldable pub copied_block : Block → Block
copied_block block = record block { hex_data = to_upper block.hex_data }

abbrev pub slave_in_node : Text → Option Node → Option Slave
slave_in_node slave_id none = none
slave_in_node slave_id (some node) = slave_with_id slave_id node

-- A failure is answered with no blocks.
abbrev pub or_no_blocks : Option (List Block) → List Block
or_no_blocks none = []
or_no_blocks (some blocks) = blocks

module _ (api : Api) (tree : List Node) where
  -- `for (const reg of regs)`: the requests so far, up to the first one that is refused.
  unfoldable pub copy_blocks : Text → Text → List Block → List Request → Outcome
  unfolding copied_block
  copy_blocks conn_id slave_id [] sent = load_tree api sent tree
  copy_blocks conn_id slave_id (block ∷ blocks) sent =
      let sent' = sent ++ posts_register conn_id slave_id (copied_block block) ∷ [] in
      let rest = copy_blocks conn_id slave_id blocks sent' in
      elim (api.create_register conn_id slave_id (copied_block block)) [
        | some reason ↦ refused sent' (copy_failed reason) tree
        | none ↦ rest
      ]

  unfoldable pub copy_to : Text → Text → Slave → Text → ℕ → Outcome
  unfolding copy_blocks
  copy_to conn_id slave_id slave name port =
      let first = posts_connection name port in
      elim (api.create_connection name port) [
        | inl reason ↦ refused (first ∷ []) (copy_failed reason) tree
        | inr new_conn ↦
            let second = posts_slave new_conn name slave.slave_addr in
            elim (api.create_slave new_conn name slave.slave_addr) [
              | inl reason ↦ refused (first ∷ second ∷ []) (copy_failed reason) tree
              | inr new_slave ↦
                  copy_blocks new_conn new_slave (or_no_blocks (api.get_registers conn_id slave_id))
                    (first ∷ second ∷ [])
            ]
      ]

  abbrev pub copy_named : Text → Text → Slave → Option Text → Option Outcome
  copy_named conn_id slave_id slave none = none
  copy_named conn_id slave_id slave (some name) =
      let port = get_next_port (ports_of tree) in
      if ltb 0 port && leb port 65535
      then some (copy_to conn_id slave_id slave name port)
      else some (refused [] no_port tree)

  -- None where the search for a name does not end.
  unfoldable pub copy_device : Text → Text → Option Outcome
  unfolding copy_to
  copy_device conn_id slave_id = elim (slave_in_node slave_id (node_with_id conn_id tree)) [
    | none ↦ some (refused [] not_found tree)
    | some slave ↦ copy_named conn_id slave_id slave (build_copy_device_name tree slave.name)
  ]

  -- The requests for the blocks, where the server accepts every one.
  abbrev posted : Text → Text → List Block → List Request
  posted conn_id slave_id blocks =
      map (λ block. posts_register conn_id slave_id (copied_block block)) blocks

  copy_blocks-sent :
      (conn_id slave_id : Text) (blocks : List Block) (sent : List Request)
      → ((block : Block) → api.create_register conn_id slave_id block ≡ none)
      → copy_blocks conn_id slave_id blocks sent
        ≡ load_tree api (sent ++ posted conn_id slave_id blocks) tree
  unfolding copy_blocks
  copy_blocks-sent conn_id slave_id [] sent h =
      ap (λ l. load_tree api l tree) (sym (append-nil sent))
  copy_blocks-sent conn_id slave_id (block ∷ blocks) sent h =
      rw (copy_blocks, h (copied_block block))
        (copy_blocks-sent conn_id slave_id blocks
            (sent ++ posts_register conn_id slave_id (copied_block block) ∷ []) h
          ∙ ap (λ l. load_tree api l tree)
              (append_assoc sent (posts_register conn_id slave_id (copied_block block) ∷ [])
                (posted conn_id slave_id blocks)))

get_next_port_positive : (ports : List ℕ) → 0 < get_next_port ports
unfolding get_next_port
get_next_port_positive [] = omega arith
get_next_port_positive (p ∷ ports) = omega arith

-- What a copy sends: the connection and the device under the new name, and the blocks.
abbrev pub copy_requests : Slave → List Block → Text → Text → Text → ℕ → List Request
copy_requests slave blocks new_conn new_slave name port =
    posts_connection name port
    ∷ posts_slave new_conn name slave.slave_addr
    ∷ map (λ block. posts_register new_conn new_slave (copied_block block)) blocks

copy_to-accepted :
    (api : Api) (tree : List Node) (conn_id slave_id new_conn new_slave name : Text) (slave : Slave)
    (blocks : List Block) (port : ℕ)
    → api.create_connection name port ≡ inr new_conn
    → api.create_slave new_conn name slave.slave_addr ≡ inr new_slave
    → api.get_registers conn_id slave_id ≡ some blocks
    → ((block : Block) → api.create_register new_conn new_slave block ≡ none)
    → copy_to api tree conn_id slave_id slave name port
      ≡ load_tree api (copy_requests slave blocks new_conn new_slave name port) tree
unfolding copy_to
copy_to-accepted api tree conn_id slave_id new_conn new_slave name slave blocks port c d regs r =
    rw (copy_to, c, d, regs)
      (copy_blocks-sent api tree new_conn new_slave blocks
        (posts_connection name port ∷ posts_slave new_conn name slave.slave_addr ∷ []) r)

-- Where the device is found, the next port is a valid one and the server accepts every request, a
-- copy is sent as a connection on a port above all ports in use, a device of the same address, both
-- under a name that no device has, and every register block of the device in order, in upper case;
-- then the tree is loaded and no message is shown.
pub copy_device_lem :
    (api : Api) (tree : List Node) (conn_id slave_id new_conn new_slave : Text) (slave : Slave)
    (blocks : List Block)
    → slave_in_node slave_id (node_with_id conn_id tree) ≡ some slave
    → get_next_port (ports_of tree) ≤ 65535
    → ((name : Text) (port : ℕ) → api.create_connection name port ≡ inr new_conn)
    → ((name : Text) (addr : ℕ) → api.create_slave new_conn name addr ≡ inr new_slave)
    → api.get_registers conn_id slave_id ≡ some blocks
    → ((block : Block) → api.create_register new_conn new_slave block ≡ none)
    → (name : Text) × (is_duplicate_device_name tree name none ≡ false)
      × All (λ p. p < get_next_port (ports_of tree)) (ports_of tree)
      × (copy_device api tree conn_id slave_id
          ≡ some (
              load_tree api
                (copy_requests slave blocks new_conn new_slave name (get_next_port (ports_of tree)))
                tree))
unfolding copy_device
copy_device_lem api tree conn_id slave_id new_conn new_slave slave blocks found low c d regs r =
    let port = get_next_port (ports_of tree) in
    let (name, built, free) = build_copy_device_name_fresh tree slave.name in
    let valid : (ltb 0 port && leb port 65535) ≡ true =
      ground (arith, get_next_port_positive (ports_of tree)) in
    (
      name,
      free,
      get_next_port_fresh (ports_of tree),
      rw (copy_device, found, built, valid)
          (ap some (
            copy_to-accepted api tree conn_id slave_id new_conn new_slave name slave blocks port
              (c name port) (d name slave.slave_addr) regs r)),
    )
