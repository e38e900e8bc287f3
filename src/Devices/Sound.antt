-- ===== src/Devices/Sound.antt =====
-- What the form for devices sends.
use mathlib.Core.Option.{some-injective}
use modbus_simulator_go.Base.{
  subst, ℕ, ◌≤◌, ◌<◌, ◌≡◌, refl, sym, ◌∙◌, inl, inr, Bool, false, Bool-cases, Option-cases,
  Sum-cases, Option, none, some, List, [], ◌∷◌, ◌++◌, Text, codes, is_empty, find, All, All-append,
  arith, ◌==◌,
}
use modbus_simulator_go.Base.Digits.{to_decimal}
use modbus_simulator_go.Tree.{Node, node_with_id}
use modbus_simulator_go.Devices.{
  is_duplicate_device_name, Request, posts_connection, posts_slave, puts_slave, posts_register, Api,
  load_tree, Form, within, chosen_port, chosen_addr, slave_name, add_slave, add_connection,
  add_device, moves_port, update_device, save_device, submit_connection_form,
}

-- A number from 1 on.
abbrev pub Within : ℕ → ℕ → Type 0
Within highest n = (0 < n) × (n ≤ highest)

module _ (tree : List Node) (form : Form) where
  -- A connection is created on the chosen port, which no connection has; a device is saved under
  -- the chosen address and a name that no other device has, and is changed only where the chosen
  -- port is the one that it has.
  abbrev pub IsSound : Request → Type 0
  IsSound (posts_connection name port) =
      (chosen_port tree form ≡ some port)
      × Within 65535 port
      × (find (λ (n : Node). n.connection.port == port) tree ≡ none)
  IsSound (posts_slave conn_id name addr) =
      (chosen_addr form ≡ some addr)
      × Within 247 addr
      × (is_duplicate_device_name tree name (some form.slave_id) ≡ false)
  IsSound (puts_slave conn_id slave_id name addr) =
      (chosen_addr form ≡ some addr)
      × Within 247 addr
      × (is_duplicate_device_name tree name (some form.slave_id) ≡ false)
      × ((port : ℕ) × (chosen_port tree form ≡ some port)
          × (moves_port (node_with_id conn_id tree) port ≡ false))
  IsSound (posts_register conn_id slave_id block) = Unit

pub within-Within :
    (highest : ℕ) (o : Option ℕ) (n : ℕ)
    → within highest o ≡ some n
    → (o ≡ some n) × Within highest n
within-Within highest none n e = cc
within-Within highest (some m) n e = ground arith

-- The nodes have ids.
abbrev pub HaveIds : List Node → Type 0
HaveIds tree = All (λ (n : Node). is_empty n.connection.id ≡ false) tree

find-All :
    (p : Node → Bool) (tree : List Node) {node : Node}
    → HaveIds tree
    → find p tree ≡ some node
    → is_empty node.connection.id ≡ false
find-All p [] ids e = cc
find-All p (n ∷ tree) {node} ids e = elim (Bool-cases (p n)) [
  | inl this ↦
      subst (λ (m : Node). is_empty m.connection.id ≡ false)
        (some-injective n node (sym (rw this refl) ∙ e)) ids.0
  | inr other ↦ find-All p tree ids.1 (sym (rw other refl) ∙ e)
]

module _ (api : Api) (tree : List Node) (form : Form) (name : Text) (port addr : ℕ)
    (p : (chosen_port tree form ≡ some port) × Within 65535 port)
    (a : (chosen_addr form ≡ some addr) × Within 247 addr)
    (free : is_duplicate_device_name tree name (some form.slave_id) ≡ false) where
  add_slave-All :
      (sent : List Request) (conn_id : Text)
      → All (IsSound tree form) sent
      → All (IsSound tree form) (add_slave api tree sent conn_id name addr).sent
  unfolding add_slave load_tree
  add_slave-All sent conn_id h =
      let whole : All (IsSound tree form) (sent ++ posts_slave conn_id name addr ∷ []) =
        All-append (IsSound tree form) sent (posts_slave conn_id name addr ∷ []) h
          ((a.0, a.1, free), tt) in
      elim (Sum-cases (api.create_slave conn_id name addr)) [
        | inl (reason, e) ↦ rw (All, e) whole
        | inr (id, e) ↦ rw (All, e) whole
      ]

  add_connection-All :
      find (λ (n : Node). n.connection.port == port) tree ≡ none
      → All (IsSound tree form) (add_connection api tree name port addr).sent
  unfolding add_connection
  add_connection-All unused =
      let first : IsSound tree form (posts_connection (codes "端口" ++ to_decimal port) port) =
        (p.0, p.1, unused) in
      elim (Sum-cases (api.create_connection (codes "端口" ++ to_decimal port) port)) [
        | inl (reason, e) ↦ rw (All, e) (first, tt)
        | inr (id, e) ↦
            rw (All, e)
              (add_slave-All (posts_connection (codes "端口" ++ to_decimal port) port ∷ []) id
                (first, tt))
      ]

  add_device-All : HaveIds tree → All (IsSound tree form) (add_device api tree name port addr).sent
  unfolding add_device
  add_device-All ids = elim (Option-cases (find (λ (n : Node). n.connection.port == port) tree)) [
    | inl unused ↦ rw (All, unused) (add_connection-All unused)
    | inr (node, used) ↦
        rw (All, used, find-All (λ (n : Node). n.connection.port == port) tree ids used)
          (add_slave-All [] node.connection.id tt)
  ]

  update_device-All : All (IsSound tree form) (update_device api tree form name port addr).sent
  unfolding update_device load_tree
  update_device-All = elim (Bool-cases (moves_port (node_with_id form.conn_id tree) port)) [
    | inl moved ↦ rw (All, moved) tt
    | inr same ↦
        let sound : IsSound tree form (puts_slave form.conn_id form.slave_id name addr) =
          (a.0, a.1, free, (port, p.0, same)) in
        elim (Option-cases (api.update_slave form.conn_id form.slave_id name addr)) [
          | inl done ↦ rw (All, same, done) (sound, tt)
          | inr (reason, failed) ↦ rw (All, same, failed) (sound, tt)
        ]
  ]

save_device-All :
    (api : Api) (tree : List Node) (form : Form) (port addr : ℕ)
    → HaveIds tree
    → (chosen_port tree form ≡ some port) × Within 65535 port
    → (chosen_addr form ≡ some addr) × Within 247 addr
    → All (IsSound tree form) (save_device api tree form port addr).sent
unfolding save_device
save_device-All api tree form port addr ids p a =
    let name = slave_name form addr in
    elim (Bool-cases (is_duplicate_device_name tree name (some form.slave_id))) [
      | inl taken ↦ rw (All, taken) tt
      | inr free ↦ elim (Bool-cases (is_empty form.slave_id)) [
        | inl added ↦
            rw (All, free, added) (add_device-All api tree form name port addr p a free ids)
        | inr edited ↦
            rw (All, free, edited) (update_device-All api tree form name port addr p a free)
      ]
    ]

-- Where every connection has an id, every request that the form for devices sends is sound: a
-- connection is created only on a port from 1 to 65535 that the form chose and that no connection
-- has; a device is created or changed only under the chosen address, from 1 to 247, and a name that
-- no other device has; and a change leaves the port of the connection as it is.
pub submit_connection_form-AllSound :
    (api : Api) (tree : List Node) (form : Form)
    → HaveIds tree
    → All (IsSound tree form) (submit_connection_form api tree form).sent
unfolding submit_connection_form
submit_connection_form-AllSound api tree form ids =
    elim (Option-cases (within 65535 (chosen_port tree form))) [
      | inl bad ↦ rw (All, bad) tt
      | inr (port, good) ↦ elim (Option-cases (within 247 (chosen_addr form))) [
        | inl bad ↦ rw (All, good, bad) tt
        | inr (addr, fine) ↦
            rw (All, good, fine)
              (save_device-All api tree form port addr ids
                (within-Within 65535 (chosen_port tree form) port good)
                (within-Within 247 (chosen_addr form) addr fine))
      ]
    ]
