-- ===== src/Browser/Steps.antt =====
-- What happens to the tree, in any order, and what stays true of it.
use Prim.Native.Nat.{Ordering}
use modbus_simulator_go.Base.{
  ℕ, ◌≡◌, refl, inl, inr, Bool-cases, Option-cases, Option, none, some, List, [], ◌∷◌, Text,
  get_elem?, All, All-append,
}
use modbus_simulator_go.Address.{Register, RegType, first_reg_type}
use modbus_simulator_go.Tree.{Node, Endpoint, Group, get_flattened_endpoints, get_grouped_endpoints}
use modbus_simulator_go.Registers.Cells.{Cache}
use modbus_simulator_go.Browser.{
  TypeNode, Kind, category_node, endpoint_node, Element, Browser, slave_key,
  create_category_group_node, create_endpoint_node, load_registers, endpoint_elements,
  group_elements, render_tree, toggle_at, open_type, open_first_reg_type_if_any, click_node, click,
  click_shown_type, click_type, load_tree,
}
use modbus_simulator_go.Browser.Faithful.{
  IsFaithful, AreDistinct, update_reg_type_counts-IsFaithful, set-AreDistinct, set-AllFaithful,
}

module _ (host : Text) (get_registers : Text → Text → Option (List Register))
    (collate locale_compare : Text → Text → Ordering) where
  -- A tree that is loaded or drawn has no two nodes with one id.
  pub data Step : Browser → Browser → Type 0 where
    loads :
        (tree : List Node) (v : Browser)
        → AreDistinct (load_tree host get_registers collate locale_compare tree v).elements
        → Step v (load_tree host get_registers collate locale_compare tree v)
    draws :
        (v : Browser)
        → AreDistinct (render_tree host get_registers collate locale_compare v).elements
        → Step v (render_tree host get_registers collate locale_compare v)
    clicks : (i : ℕ) (v : Browser) → Step v (click host get_registers i v)
    clicks_type : (i j : ℕ) (v : Browser) → Step v (click_type i j v)

  pub data Reach (s : Browser) : Browser → Type 0 where
    here : Reach s s
    next : {t u : Browser} → Reach s t → Step t u → Reach s u

endpoint_elements-AllFaithful :
    (host : Text) (get_registers : Text → Text → Option (List Register)) (expanded : List Text)
    (items : List Endpoint) (cache : Cache)
    → All (IsFaithful expanded) (endpoint_elements host get_registers expanded items cache).0
unfolding endpoint_elements create_endpoint_node
endpoint_elements-AllFaithful host get_registers expanded [] cache = tt
endpoint_elements-AllFaithful host get_registers expanded (e ∷ items) cache =
    let loaded : List Register × Cache =
      load_registers (get_registers e.connection.id e.slave.id) e.slave.id cache in
    (
      update_reg_type_counts-IsFaithful expanded loaded.0 (create_endpoint_node host expanded e)
          (refl, refl, refl),
      endpoint_elements-AllFaithful host get_registers expanded items loaded.1,
    )

group_elements-AllFaithful :
    (host : Text) (get_registers : Text → Text → Option (List Register)) (expanded : List Text)
    (groups : List (Group Endpoint)) (cache : Cache)
    → All (IsFaithful expanded) (group_elements host get_registers expanded groups cache).0
unfolding group_elements create_category_group_node
group_elements-AllFaithful host get_registers expanded [] cache = tt
group_elements-AllFaithful host get_registers expanded (group ∷ groups) cache =
    let items : List Element × Cache =
      endpoint_elements host get_registers expanded group.items cache in
    (
      (refl, refl, refl),
      All-append (IsFaithful expanded) items.0 _
          (endpoint_elements-AllFaithful host get_registers expanded group.items cache)
          (group_elements-AllFaithful host get_registers expanded groups items.1),
    )

record IsSound (v : Browser) : Type 0 where
  distinct : AreDistinct v.elements
  faithful : All (IsFaithful v.expanded_nodes) v.elements

toggle_at-IsSound :
    (i : ℕ) (e : Element) (v : Browser)
    → get_elem? v.elements i ≡ some e
    → IsSound v
    → IsSound (toggle_at i e v)
toggle_at-IsSound i e v at h = record {
  distinct = set-AreDistinct v.expanded_nodes v.elements i e at h.distinct;
  faithful = set-AllFaithful v.expanded_nodes v.elements i e at h.distinct h.faithful;
}

-- What changes only the selection, the cache and the tabs.
open_type-IsSound :
    (e : Endpoint) (o : Option RegType) (v : Browser) → IsSound v → IsSound (open_type e o v)
open_type-IsSound e none v h = h
open_type-IsSound e (some rt) v h = record { distinct = h.distinct; faithful = h.faithful }

module _ (host : Text) (get_registers : Text → Text → Option (List Register)) where
  click_node-IsSound :
      (i : ℕ) (e : Element) (kind : Kind) (v : Browser)
      → get_elem? v.elements i ≡ some e
      → IsSound v
      → IsSound (click_node host get_registers i e kind v)
  unfolding open_first_reg_type_if_any
  click_node-IsSound i e (category_node category count) v at h =
      toggle_at-IsSound i e (record v { selected_tree_key = [] }) at
        (record { distinct = h.distinct; faithful = h.faithful })
  click_node-IsSound i e (endpoint_node endpoint) v at h =
      let toggled : Browser = toggle_at i e (record v { selected_tree_key = slave_key endpoint }) in
      let sound : IsSound toggled =
        toggle_at-IsSound i e (record v { selected_tree_key = slave_key endpoint }) at
          (record { distinct = h.distinct; faithful = h.faithful }) in
      let loaded : List Register × Cache =
        load_registers (get_registers endpoint.connection.id endpoint.slave.id) endpoint.slave.id
          toggled.register_cache in
      open_type-IsSound endpoint (first_reg_type loaded.0)
        (record toggled { register_cache = loaded.1 })
        (record { distinct = sound.distinct; faithful = sound.faithful })

  click_shown_type-IsSound :
      (o : Option TypeNode) (kind : Kind) (v : Browser)
      → IsSound v
      → IsSound (click_shown_type o kind v)
  click_shown_type-IsSound none kind v h = h
  click_shown_type-IsSound (some t) (category_node category count) v h = h
  click_shown_type-IsSound (some t) (endpoint_node endpoint) v h = elim (Bool-cases t.shown) [
    | inl shown ↦ rw (IsSound, shown) (record { distinct = h.distinct; faithful = h.faithful })
    | inr hidden ↦ rw (IsSound, hidden) h
  ]

  module _ (collate locale_compare : Text → Text → Ordering) where
    render_tree-AllFaithful :
        (v : Browser)
        → All
            (IsFaithful v.expanded_nodes)
            (render_tree host get_registers collate locale_compare v).elements
    unfolding render_tree
    render_tree-AllFaithful v =
        group_elements-AllFaithful host get_registers v.expanded_nodes
          (get_grouped_endpoints (get_flattened_endpoints collate locale_compare v.device_tree))
          v.register_cache

    Step-IsSound :
        {v u : Browser} → Step host get_registers collate locale_compare v u → IsSound v → IsSound u
    unfolding load_tree render_tree click click_type
    Step-IsSound (loads tree v d) h = record {
      distinct = d;
      faithful = render_tree-AllFaithful (record v { device_tree = tree });
    }
    Step-IsSound (draws v d) h = record { distinct = d; faithful = render_tree-AllFaithful v }
    Step-IsSound (clicks i v) h = elim (Option-cases (get_elem? v.elements i)) [
      | inl out ↦ rw (click, out) h
      | inr (e, at) ↦ rw (click, at) (click_node-IsSound i e e.kind v at h)
    ]
    Step-IsSound (clicks_type i j v) h = elim (Option-cases (get_elem? v.elements i)) [
      | inl out ↦ rw (click_type, out) h
      | inr (e, at) ↦
          rw (click_type, at) (click_shown_type-IsSound (get_elem? e.type_nodes j) e.kind v h)
    ]

    Reach-IsSound :
        {v u : Browser}
        → v.elements ≡ []
        → Reach host get_registers collate locale_compare v u
        → IsSound u
    Reach-IsSound empty here = record {
      distinct = rw (AreDistinct, empty) tt;
      faithful = rw (All, empty) tt;
    }
    Reach-IsSound empty (next r st) = Step-IsSound st (Reach-IsSound empty r)

    -- However the tree is loaded, drawn and clicked, starting from a page without nodes: a node that
    -- has children is open exactly where `expandedNodes` has its id, its sign says so, and a device
    -- without registers is closed and has no sign, where no two nodes of a tree have one id.
    pub Reach-AllFaithful :
        {v u : Browser}
        → v.elements ≡ []
        → Reach host get_registers collate locale_compare v u
        → All (IsFaithful u.expanded_nodes) u.elements
    Reach-AllFaithful {u = u} empty r =
        let sound : IsSound u = Reach-IsSound empty r in sound.faithful
