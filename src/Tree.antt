-- ===== src/Tree.antt =====
-- The device tree of app.js and the tree of private connections: `getDeviceCategoryName`,
-- `getFlattenedEndpoints`, `compareTreeDisplayNames`, `getGroupedEndpoints`, `buildTreeKey`,
-- `getSelectedModbusTarget`; `getPrivateCategoryName`, `comparePrivateConnectionNodes` and
-- `groupPrivateConnections`. `Intl.Collator` and `localeCompare` are parameters. `sort` is the stable
-- sort by insertion.
pub mod Groups
pub mod Sort
pub mod Keys
mod Tests
use Prim.Native.Nat.{compare, Ordering}
use modbus_simulator_go.Base.{
  ℕ, zero, suc, ◌+◌, Bool, true, false, not, ◌&&◌, ◌||◌, Option, none, some, List, [], ◌∷◌, ◌++◌,
  map, Text, codes, is_empty, trim, is_space, text_eq, find, ◌==◌, if◌then◌else◌,
}
use modbus_simulator_go.Base.Digits.{to_decimal}

pub record Connection : Type 0 where
  pub id : Text
  pub name : Text
  pub port : ℕ
  pub service_type : ℕ

pub record Slave : Type 0 where
  pub id : Text
  pub name : Text
  pub slave_addr : ℕ

pub record Node : Type 0 where
  pub connection : Connection
  pub slaves : List Slave

-- The complement of `[^_\-\s—]`.
abbrev pub is_separator : ℕ → Bool
is_separator c = c == b'_' || (c == b'-' || (is_space c || c == 0x2014))

-- The longest start without a separator.
unfoldable pub first_part : Text → Text
unfolding is_space
first_part [] = []
first_part (c ∷ s) = if is_separator c then [] else c ∷ first_part s

-- The name of the group of the devices without a name.
abbrev pub uncategorized : Text
uncategorized = codes "未分类"

-- `match ? match[0] : raw`
abbrev pub or_whole : Text → Text → Text
or_whole raw part = if is_empty part then raw else part

unfoldable pub get_device_category_name : Text → Text
unfolding first_part trim
get_device_category_name name =
    let raw = trim name in if is_empty raw then uncategorized else or_whole raw (first_part raw)

unfoldable pub get_private_category_name : Text → Text
unfolding first_part trim
get_private_category_name name =
    let raw = trim name in if is_empty raw then uncategorized else or_whole raw (first_part raw)

-- `if (c !== 0) return c;` and what follows.
abbrev pub then_by : Ordering → Ordering → Ordering
then_by Ordering.lt later = Ordering.lt
then_by Ordering.gt later = Ordering.gt
then_by Ordering.eq later = later

-- Whether an item may stand before another.
abbrev pub not_after : Ordering → Bool
not_after Ordering.gt = false
not_after _ = true

module _ {A : Type 0} (order : A → A → Ordering) where
  unfoldable pub insert_sorted : A → List A → List A
  insert_sorted a [] = a ∷ []
  insert_sorted a (b ∷ sorted) =
      if not_after (order a b) then a ∷ b ∷ sorted else b ∷ insert_sorted a sorted

  -- `list.sort(order)`
  unfoldable pub sort_by : List A → List A
  unfolding insert_sorted
  sort_by [] = []
  sort_by (a ∷ list) = insert_sorted a (sort_by list)

pub record Endpoint : Type 0 where
  pub connection : Connection
  pub slave : Slave
  pub category : Text

unfoldable pub endpoints_of : Node → List Endpoint
endpoints_of node =
    map
      (λ slave. record {
        connection = node.connection;
        slave = slave;
        category = get_device_category_name slave.name;
      })
      node.slaves

-- The two `forEach` loops.
unfoldable pub flatten : List Node → List Endpoint
flatten [] = []
flatten (node ∷ tree) = endpoints_of node ++ flatten tree

-- A group of the tree, in the order in which its items are found.
pub record Group (A : Type 0) : Type 0 where
  pub category : Text
  pub items : List A

module _ {A : Type 0} where
  -- `groups.find(…)`, and the push of a new group or of an item.
  unfoldable pub add_to_group : Text → A → List (Group A) → List (Group A)
  add_to_group category item [] = record { category = category; items = item ∷ [] } ∷ []
  add_to_group category item (g ∷ groups) =
      if text_eq g.category category
      then record g { items = g.items ++ item ∷ [] } ∷ groups
      else g ∷ add_to_group category item groups

  -- The loop, on the groups so far.
  unfoldable pub group_from : (A → Text) → List A → List (Group A) → List (Group A)
  unfolding add_to_group
  group_from category_of [] groups = groups
  group_from category_of (item ∷ items) groups =
      group_from category_of items (add_to_group (category_of item) item groups)

unfoldable pub get_grouped_endpoints : List Endpoint → List (Group Endpoint)
get_grouped_endpoints endpoints = group_from (λ e. e.category) endpoints []

-- The part of `groupPrivateConnections` that groups.
unfoldable pub group_private_connections : List Connection → List (Group Connection)
group_private_connections nodes = group_from (λ c. get_private_category_name c.name) nodes []

-- `collate` is the comparison of `Intl.Collator`, `locale_compare` that of `localeCompare`.
module _ (collate locale_compare : Text → Text → Ordering) where
  unfoldable pub compare_endpoints : Endpoint → Endpoint → Ordering
  compare_endpoints a b = then_by (collate a.slave.name b.slave.name) (
      then_by (compare a.connection.port b.connection.port) (
        then_by (compare a.slave.slave_addr b.slave.slave_addr)
          (locale_compare a.slave.id b.slave.id)))

  unfoldable pub get_flattened_endpoints : List Node → List Endpoint
  get_flattened_endpoints tree = sort_by compare_endpoints (flatten tree)

  unfoldable pub compare_tree_display_names : Text → Text → Ordering
  compare_tree_display_names a_name b_name =
      then_by (collate (get_device_category_name a_name) (get_device_category_name b_name))
        (collate a_name b_name)

  unfoldable pub compare_private_connection_nodes : Connection → Connection → Ordering
  compare_private_connection_nodes a b =
      then_by (collate (get_private_category_name a.name) (get_private_category_name b.name)) (
        then_by (collate a.name b.name)
          (then_by (compare a.port b.port) (locale_compare a.id b.id)))

-- `tree.find(n => n.connection.id === id)`
unfoldable pub node_with_id : Text → List Node → Option Node
node_with_id id tree = find (λ n. text_eq n.connection.id id) tree

-- `node.slaves.find(s => s.id === id)`
unfoldable pub slave_with_id : Text → Node → Option Slave
slave_with_id id node = find (λ s. text_eq s.id id) node.slaves

abbrev pub fc_text : Option ℕ → Text
fc_text none = []
fc_text (some fc) = to_decimal fc

-- `fc || ''` of a missing function code is `none`.
unfoldable pub build_tree_key : Text → Text → Text → Option ℕ → Text
unfolding to_decimal
build_tree_key type conn_id slave_id fc =
    type ++ b'|' ∷ (conn_id ++ b'|' ∷ (slave_id ++ b'|' ∷ fc_text fc))

-- A character before parts that are split already.
abbrev pub cons_part : ℕ → List Text → List Text
cons_part c [] = []
cons_part c (part ∷ parts) = if c == b'|' then [] ∷ part ∷ parts else (c ∷ part) ∷ parts

-- `key.split('|')`
unfoldable pub split_key : Text → List Text
split_key [] = [] ∷ []
split_key (c ∷ s) = cons_part c (split_key s)

pub record Target : Type 0 where
  pub type : Text
  pub node : Node
  pub slave : Slave

abbrev pub slave_in : Text → Option Node → Text → Option Target
slave_in type none slave_id = none
slave_in type (some node) slave_id = elim (slave_with_id slave_id node) [
  | none ↦ none
  | some slave ↦ some (record { type = type; node = node; slave = slave })
]

-- The parts of the key; a missing part is undefined, which is no text.
abbrev pub target_of : List Node → List Text → Option Target
target_of tree (type ∷ conn_id ∷ slave_id ∷ rest) =
    if (text_eq type (codes "slave") || text_eq type (codes "regtype"))
      && (not (is_empty conn_id) && not (is_empty slave_id))
    then slave_in type (node_with_id conn_id tree) slave_id
    else none
target_of tree parts = none

-- No selected key is the empty text.
unfoldable pub get_selected_modbus_target : List Node → Text → Option Target
unfolding split_key node_with_id slave_with_id
get_selected_modbus_target tree key = target_of tree (split_key key)
