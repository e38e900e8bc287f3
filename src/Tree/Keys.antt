-- ===== src/Tree/Keys.antt =====
-- The keys of the tree's nodes, written and read.
use modbus_simulator_go.Base.{
  Bool, ◌||◌, ◌⊎◌, ℕ, ◌≡◌, refl, inl, inr, true, false, not, Bool-cases, Option, some, List, [],
  ◌∷◌, ◌++◌, Text, codes, text_eq, every, is_empty, arith, ◌==◌,
}
use modbus_simulator_go.Tree.{
  Node, Slave, split_key, fc_text, build_tree_key, node_with_id, slave_with_id,
  get_selected_modbus_target, slave_in,
}

-- A text without `|`.
abbrev pub no_bar : Text → Bool
no_bar s = every (λ c. not (c == b'|')) s

split_key-cons : (s : Text) → (part : Text) × (parts : List Text) × (split_key s ≡ part ∷ parts)
unfolding split_key
split_key-cons [] = ([], [], refl)
split_key-cons (c ∷ s) =
    let (part, parts, e) = split_key-cons s in
    elim (Bool-cases (c == b'|')) [
      | inl bar ↦ ([], part ∷ parts, rw (e, bar) refl)
      | inr other ↦ (c ∷ part, parts, rw (e, other) refl)
    ]

split_key_bar : (s : Text) → split_key (b'|' ∷ s) ≡ [] ∷ split_key s
unfolding split_key
split_key_bar s = let (part, parts, e) = split_key-cons s in rw e refl

split_key_other :
    (c : ℕ) (s part : Text) (parts : List Text)
    → (c == b'|') ≡ false
    → split_key s ≡ part ∷ parts
    → split_key (c ∷ s) ≡ (c ∷ part) ∷ parts
unfolding split_key
split_key_other c s part parts other e = rw (e, other) refl

split_key-append : (a s : Text) → no_bar a ≡ true → split_key (a ++ b'|' ∷ s) ≡ a ∷ split_key s
split_key-append [] s h = split_key_bar s
split_key-append (c ∷ a) s h =
    split_key_other c (a ++ b'|' ∷ s) a (split_key s) (ground arith)
      (split_key-append a s (ground arith))

-- A node of the tree that is selected is found again by its key: the connection and the device, by
-- their ids, where the ids are not empty and hold no `|`.
pub get_selected_modbus_target-build_tree_key :
    (tree : List Node) (type conn_id slave_id : Text) (fc : Option ℕ) (node : Node) (slave : Slave)
    → (type ≡ codes "slave") ⊎ (type ≡ codes "regtype")
    → no_bar conn_id ≡ true
    → no_bar slave_id ≡ true
    → is_empty conn_id ≡ false
    → is_empty slave_id ≡ false
    → node_with_id conn_id tree ≡ some node
    → slave_with_id slave_id node ≡ some slave
    → get_selected_modbus_target tree (build_tree_key type conn_id slave_id fc)
      ≡ some (record { type = type; node = node; slave = slave })
unfolding get_selected_modbus_target build_tree_key text_eq
get_selected_modbus_target-build_tree_key tree type conn_id slave_id fc node slave kind c s ce se n
      m =
    let plain : no_bar type ≡ true = elim kind [ inl e ↦ rw e refl | inr e ↦ rw e refl ] in
    let known : (text_eq type (codes "slave") || text_eq type (codes "regtype")) ≡ true =
      elim kind [ inl e ↦ rw (e, text_eq) refl | inr e ↦ rw (e, text_eq) refl ] in
    rw
      (
        split_key-append type (conn_id ++ b'|' ∷ (slave_id ++ b'|' ∷ fc_text fc)) plain,
        split_key-append conn_id (slave_id ++ b'|' ∷ fc_text fc) c,
        split_key-append slave_id (fc_text fc) s,
        known,
        ce,
        se,
        n,
        slave_in,
        m,
      )
      refl
