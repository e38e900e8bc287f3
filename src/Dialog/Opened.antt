-- ===== src/Dialog/Opened.antt =====
-- The import dialog from its opening to its submission.
use Prim.Native.Nat.{Ordering}
use modbus_simulator_go.Base.{
  ◌≡◌, refl, ap, inl, inr, true, false, ◌||◌, Bool-cases, Option, none, some, List, [], ◌∷◌, ◌++◌,
  append_assoc, Text, is_empty, trim,
}
use modbus_simulator_go.Tree.{Node, node_with_id}
use modbus_simulator_go.Drafts.{Mode, modbus, private_protocol, State, Served}
use modbus_simulator_go.Import.Private.{import_private_frames}
use modbus_simulator_go.Dialog.{
  Modal, is_private, get_locked_import_conn_id, get_active_connection, configure_import_modal,
  Opening, opened, alerted, OpenOptions, show_dialog, open_import_modal,
}
use modbus_simulator_go.Dialog.Texts.{render_private_summary}
use modbus_simulator_go.Dialog.Submit.{
  Action, puts_private, refreshes, Backend, ImportPage, through, acting, set_import_summary,
  load_tree, name_of, target_conn, is_creating_new, check_form, run_import_private, import_or_warn,
  finish_import, run_on, try_import, submit_import_form, existing,
}

-- What is typed and chosen in the dialog.
pub record Typed : Type 0 where
  pub chosen : Text
  pub conn_name : Text
  pub conn_port : Text
  pub frames : Text

abbrev pub filled : Typed → Modal → Modal
filled e m = record m {
  chosen = e.chosen;
  conn_name = e.conn_name;
  conn_port = e.conn_port;
  frames = e.frames;
}

-- The connection that the dialog is opened for.
abbrev pub opened_for : Text → Mode → OpenOptions → Text
opened_for private_target modbus options = trim options.conn_id
opened_for private_target private_protocol options = private_target

-- What a dialog for a fixed connection holds.
pub record Fixed (mode : Mode) (conn_id : Text) (m : Modal) : Type 0 where
  pub mode_lem : m.import_mode ≡ mode
  pub id_lem : m.import_conn_id ≡ conn_id
  pub locked_lem : m.import_conn_locked ≡ true

target_conn-Fixed :
    (mode : Mode) (conn_id : Text) (m : Modal)
    → Fixed mode conn_id m
    → is_empty conn_id ≡ false
    → (target_conn m ≡ conn_id) × (is_creating_new m ≡ false)
unfolding target_conn is_creating_new get_locked_import_conn_id
target_conn-Fixed modbus [] m h full = cc
target_conn-Fixed modbus (c ∷ id) m h full =
    (rw (h.mode_lem, h.locked_lem, h.id_lem) refl, rw (h.mode_lem, h.locked_lem, h.id_lem) refl)
target_conn-Fixed private_protocol id m h full =
    (rw (h.mode_lem, h.id_lem) refl, rw h.mode_lem refl)

-- The dialog is open, and whatever is filled in, it is that connection it imports to, and none is
-- created; or it is refused, and there is no connection.
abbrev pub IsOpenedFor : Text → Typed → Opening → Type 0
IsOpenedFor conn_id e (opened m) =
    (target_conn (filled e m) ≡ conn_id)
    × (is_creating_new (filled e m) ≡ false)
    × (is_empty conn_id ≡ false)
IsOpenedFor conn_id e (alerted message) = is_empty conn_id ≡ true

filled-Fixed :
    (mode : Mode) (conn_id : Text) (m : Modal) (e : Typed)
    → Fixed mode conn_id m
    → Fixed mode conn_id (filled e m)
filled-Fixed mode conn_id m e h = record {
  mode_lem = h.mode_lem;
  id_lem = h.id_lem;
  locked_lem = h.locked_lem;
}

module _ (collate locale_compare : Text → Text → Ordering) where
  show_dialog-Fixed :
      (tree : List Node) (mode : Mode) (conn_id : Text) (m : Modal)
      → Fixed mode conn_id (show_dialog collate locale_compare tree mode true conn_id m)
  unfolding show_dialog configure_import_modal
  show_dialog-Fixed tree modbus conn_id m = record {
    mode_lem = refl;
    id_lem = refl;
    locked_lem = refl;
  }
  show_dialog-Fixed tree private_protocol conn_id m = record {
    mode_lem = refl;
    id_lem = refl;
    locked_lem = refl;
  }

  module _ (tree : List Node) (mode : Mode) (conn_id : Text) (m : Modal) (e : Typed) where
    show_dialog-IsOpenedFor :
        is_empty conn_id ≡ false
        → IsOpenedFor conn_id e
            (opened (show_dialog collate locale_compare tree mode true conn_id m))
    show_dialog-IsOpenedFor full =
        let shown : Modal = show_dialog collate locale_compare tree mode true conn_id m in
        let (target, old) =
          target_conn-Fixed mode conn_id (filled e shown)
            (filled-Fixed mode conn_id shown e (show_dialog-Fixed tree mode conn_id m)) full in
        (target, old, full)

  -- In private mode, or where the caller locks the connection, the dialog that opens imports to the
  -- connection it was opened for, whatever is then typed or chosen in it, and creates none; it opens
  -- exactly where there is such a connection. In private mode that is the active connection, else
  -- the one of the caller.
  pub open_import_modal-IsOpenedFor :
      (tree : List Node) (private_target : Text) (mode : Mode) (options : OpenOptions) (m : Modal)
      (e : Typed)
      → is_private mode || options.lock_conn ≡ true
      → IsOpenedFor
          (opened_for private_target mode options)
          e
          (open_import_modal collate locale_compare tree private_target mode options m)
  unfolding open_import_modal
  open_import_modal-IsOpenedFor tree private_target modbus options m e lock =
      elim (Bool-cases (is_empty (trim options.conn_id))) [
        | inl blank ↦ rw (IsOpenedFor, lock, blank) blank
        | inr full ↦
            rw (IsOpenedFor, lock, full)
              (show_dialog-IsOpenedFor tree modbus (trim options.conn_id) m e full)
      ]
  open_import_modal-IsOpenedFor tree private_target private_protocol options m e lock =
      elim (Bool-cases (is_empty private_target)) [
        | inl blank ↦ rw (IsOpenedFor, blank) blank
        | inr full ↦
            rw (IsOpenedFor, full)
              (show_dialog-IsOpenedFor tree private_protocol private_target m e full)
      ]

module _ (b : Backend) (p : ImportPage) (conn_id : Text)
    (h : Fixed private_protocol conn_id p.modal) (full : is_empty conn_id ≡ false)
    (text : is_empty (trim p.modal.frames) ≡ false) (idle : p.import_in_progress ≡ false)
    (saves : (served : Served) → b.save_private_protocol conn_id served ≡ none)
    (draws : b.refresh_data conn_id ≡ none) where
  -- What is saved.
  abbrev pub imported_for : Served
  imported_for =
      (import_private_frames b.encode (name_of b (node_with_id conn_id (load_tree b p).device_tree))
        (b.get_private_protocol conn_id) p.modal.frames).0

  check_form-existing : check_form p.device_tree p.modal ≡ existing conn_id
  unfolding check_form
  check_form-existing =
      let (target, old) = target_conn-Fixed private_protocol conn_id p.modal h full in
      rw (old, target, full) refl

  abbrev start : ImportPage
  start = record p { import_in_progress = true }

  abbrev saved_page : ImportPage
  saved_page =
      set_import_summary
        (render_private_summary
          (import_private_frames b.encode
            (name_of b (node_with_id conn_id (load_tree b start).device_tree))
            (b.get_private_protocol conn_id) p.modal.frames).1)
        (acting (puts_private conn_id imported_for) (load_tree b start))

  import_or_warn-saved : import_or_warn b none conn_id start ≡ through saved_page
  unfolding import_or_warn run_import_private
  import_or_warn-saved = rw (text, ap is_private h.mode_lem, saves imported_for) refl

  finish_import-drawn :
      finish_import b none conn_id saved_page ≡ through (acting (refreshes conn_id) saved_page)
  unfolding finish_import
  finish_import-drawn = rw (text, ap is_private h.mode_lem, draws) refl

  submit_import_form-private :
      (submit_import_form b p).actions
      ≡ p.actions ++ puts_private conn_id imported_for ∷ refreshes conn_id ∷ []
  unfolding submit_import_form try_import run_on
  submit_import_form-private =
      rw (idle, check_form-existing, import_or_warn-saved, finish_import-drawn)
        (append_assoc p.actions (puts_private conn_id imported_for ∷ []) (refreshes conn_id ∷ []))

-- The actions of a submission in the dialog that has opened, if one has.
abbrev pub submitted : Backend → ImportPage → Typed → Opening → Option (List Action)
submitted b p e (opened m) = some (submit_import_form b (record p { modal = filled e m })).actions
submitted b p e (alerted message) = none

-- From the opening of the dialog to the server, in private mode: where a private connection is
-- active, the log is not blank, no submission is in progress and the server accepts, opening the
-- dialog, filling it in and submitting it saves exactly once, for the active connection, what the
-- import of the log makes of its settings, and draws its view anew.
pub submit_import_form-open_import_modal :
    (collate locale_compare : Text → Text → Ordering) (b : Backend) (s : State)
    (options : OpenOptions) (p : ImportPage) (e : Typed)
    → is_empty (get_active_connection s) ≡ false
    → is_empty (trim e.frames) ≡ false
    → p.import_in_progress ≡ false
    → ((served : Served) → b.save_private_protocol (get_active_connection s) served ≡ none)
    → b.refresh_data (get_active_connection s) ≡ none
    → submitted b p e (
        open_import_modal collate locale_compare p.device_tree
          (get_active_connection s)
          private_protocol
          options
          p.modal)
      ≡ some (
          p.actions
          ++ puts_private
              (get_active_connection s)
              (import_private_frames b.encode
                (name_of b (node_with_id (get_active_connection s) (load_tree b p).device_tree))
                (b.get_private_protocol (get_active_connection s))
                e.frames).0
            ∷ refreshes (get_active_connection s)
            ∷ [])
unfolding open_import_modal
submit_import_form-open_import_modal collate locale_compare b s options p e active text idle saves
      draws =
    let shown : Modal =
      show_dialog collate locale_compare p.device_tree private_protocol true
        (get_active_connection s) p.modal in
    rw active (
      ap some (
        submit_import_form-private b (record p { modal = filled e shown }) (get_active_connection s)
          (filled-Fixed private_protocol (get_active_connection s) shown e (
            show_dialog-Fixed collate locale_compare p.device_tree private_protocol
              (get_active_connection s) p.modal))
          active text idle saves draws))
