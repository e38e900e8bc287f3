-- ===== src/Dialog/Choices.antt =====
-- The list of connections in the import dialog, `populateImportConnections`.
use Prim.Native.Nat.{Ordering}
use mathlib.Core.List.{Perm}
use modbus_simulator_go.Base.{
  ◌&&◌, ◌≡◌, refl, ap, ◌∙◌, Bool, true, false, List, [], ◌∷◌, map, Text, text_eq, keep, ◌==◌,
}
use modbus_simulator_go.Tree.{get_device_category_name, Node, compare_tree_display_names}
use modbus_simulator_go.Tree.Sort.{
  flip, sort_by-perm, sort_by-IsOrdered, IsOrdered, compare-flip, then_by-flip, not_after-flip,
}
use modbus_simulator_go.Tree.{not_after}
use modbus_simulator_go.Drafts.{modbus}
use modbus_simulator_go.Dialog.{
  Choice, new_choice, choice_of, compare_choices, listed, service_type_of, Modal, Opening, opened,
  alerted, open_import_modal, populate_import_connections, show_dialog, configure_import_modal,
  toggle_import_new_conn_fields, display_name,
}

abbrev pub choices_of : Opening → List Choice
choices_of (opened m) = m.choices
choices_of (alerted message) = []

abbrev pub asks_name : Opening → Bool
asks_name (opened m) = m.new_shown && m.name_required
asks_name (alerted message) = false

module _ (collate locale_compare : Text → Text → Ordering)
    (collate_flip : (a b : Text) → collate b a ≡ flip (collate a b)) where
  compare_choices-flip :
      (a b : Node)
      → compare_choices collate locale_compare b a
        ≡ flip (compare_choices collate locale_compare a b)
  unfolding compare_choices compare_tree_display_names
  compare_choices-flip a b = rw (
    collate_flip (get_device_category_name (display_name a))
        (get_device_category_name (display_name b)),
    collate_flip (display_name a) (display_name b),
    compare-flip a.connection.port b.connection.port,
    then_by-flip,
    then_by-flip,
  )

  -- Where the comparison of texts changes sign with its arguments: a dialog that is opened for no
  -- fixed connection in Modbus mode lists the entry for a new connection, which is chosen and for
  -- which a name is asked, and then the Modbus connections of the tree, each as often as there, none
  -- directly before one that the order by category, name and port puts first.
  pub open_import_modal-choices :
      (tree : List Node) (private_target conn_id : Text) (m : Modal)
      → let opening : Opening =
          open_import_modal collate locale_compare tree private_target modbus
            (record { conn_id = conn_id; lock_conn = false })
            m in
        let nodes : List Node = listed collate locale_compare modbus tree in
        (choices_of opening ≡ new_choice modbus ∷ map choice_of nodes)
        × (asks_name opening ≡ true)
        × Perm nodes (keep (λ n. n.connection.service_type == 0) tree)
        × IsOrdered (compare_choices collate locale_compare) nodes
  unfolding open_import_modal show_dialog populate_import_connections configure_import_modal
      toggle_import_new_conn_fields listed service_type_of text_eq
  open_import_modal-choices tree private_target conn_id m = (
    refl,
    refl,
    sort_by-perm (compare_choices collate locale_compare)
        (keep (λ n. n.connection.service_type == 0) tree),
    sort_by-IsOrdered (compare_choices collate locale_compare)
        (λ a b h. ap not_after (compare_choices-flip a b) ∙ not_after-flip _ h)
        (keep (λ n. n.connection.service_type == 0) tree),
  )
