-- ===== src/Dialog/Requests.antt =====
-- What the import dialog does to the server, and to which connection.
use modbus_simulator_go.Base.{
  ℕ, ◌≡◌, refl, sym, ap, ◌∙◌, inl, inr, true, false, not, ◌&&◌, Bool-cases, Option-cases, Option,
  none, some, List, [], ◌∷◌, Text, is_empty, trim, text_eq, find, All, ◌==◌, arith, if◌then◌else◌,
}
use modbus_simulator_go.Tree.{Node}
use modbus_simulator_go.Drafts.{or_else}
use modbus_simulator_go.Naming.{get_next_port}
use modbus_simulator_go.Devices.{parse_int, within, ports_of}
use modbus_simulator_go.Devices.Sound.{Within, within-Within}
use modbus_simulator_go.Dialog.{Modal, new_conn, is_private, get_locked_import_conn_id}
use modbus_simulator_go.Dialog.Submit.{
  Backend, ImportPage, target_conn, is_creating_new, new_port, check_port, check_form, try_import,
  submit_import_form,
}
use modbus_simulator_go.Dialog.Sound.{IsConnId, IsSound, IsTarget, IsChecked}
use modbus_simulator_go.Dialog.Kept.{settled-AllSound, try_import-Kept}

or_else-is_new :
    (locked chosen : Text)
    → text_eq locked new_conn ≡ false
    → is_empty locked && text_eq (or_else locked chosen) new_conn ≡ false
    → text_eq (or_else locked chosen) new_conn ≡ false
or_else-is_new [] chosen id old = old
or_else-is_new (c ∷ locked) chosen id old = id

target_conn-IsTarget :
    (tree : List Node) (m : Modal)
    → text_eq m.import_conn_id new_conn ≡ false
    → is_empty (target_conn m) ≡ false
    → is_creating_new m ≡ false
    → IsTarget m tree none (target_conn m)
unfolding target_conn is_creating_new get_locked_import_conn_id text_eq
target_conn-IsTarget tree m id full old = elim (Bool-cases (is_private m.import_mode)) [
  | inl mo ↦ inl (mo, rw mo refl, refl)
  | inr mo ↦
      let locked : text_eq (get_locked_import_conn_id m) new_conn ≡ false =
        elim (Bool-cases m.import_conn_locked) [
          | inl lock ↦ rw lock id
          | inr free ↦ rw free refl
        ] in
      inr (
        mo,
        (
          full,
          rw mo (
              or_else-is_new (get_locked_import_conn_id m) m.chosen locked (
                ap
                  (λ b.
                    not b
                    && (is_empty (get_locked_import_conn_id m)
                        && text_eq
                            (if b
                              then m.import_conn_id
                              else or_else (get_locked_import_conn_id m) m.chosen)
                            new_conn))
                  (sym mo)
                ∙ old)),
        ),
      )
]

is_creating_new-modbus : (m : Modal) → is_creating_new m ≡ true → is_private m.import_mode ≡ false
unfolding is_creating_new
is_creating_new-modbus m new = ground arith

check_port-IsChecked :
    (tree : List Node) (m : Modal) (name : Text) (o : Option ℕ)
    → is_private m.import_mode ≡ false
    → is_creating_new m ≡ true
    → is_empty (trim m.conn_name) ≡ false
    → IsChecked m tree (check_port tree (trim m.conn_name) (within 65535 o))
check_port-IsChecked tree m name o mo new full = elim (Option-cases (within 65535 o)) [
  | inl bad ↦ rw (IsChecked, bad) tt
  | inr (port, good) ↦
      let bounds : Within 65535 port = (within-Within 65535 o port good).1 in
      elim (Option-cases (find (λ (n : Node). n.connection.port == port) tree)) [
        | inl free ↦
            rw (IsChecked, good, free) (mo, new, refl, full, bounds.0, bounds.1, free, refl)
        | inr (node, taken) ↦ rw (IsChecked, good, taken) tt
      ]
]

-- The connection that the dialog is opened for is not the entry for a new one.
check_form-IsChecked :
    (tree : List Node) (m : Modal)
    → text_eq m.import_conn_id new_conn ≡ false
    → IsChecked m tree (check_form tree m)
unfolding check_form new_port
check_form-IsChecked tree m id = elim (Bool-cases (is_empty (target_conn m))) [
  | inl stop ↦ rw (IsChecked, stop) tt
  | inr full ↦ elim (Bool-cases (is_creating_new m)) [
    | inl new ↦ elim (Bool-cases (is_empty (trim m.conn_name))) [
      | inl nameless ↦ rw (IsChecked, full, new, nameless) tt
      | inr named ↦
          rw (IsChecked, full, new, named)
            (check_port-IsChecked tree m (trim m.conn_name)
              (if is_empty m.conn_port
                then some (get_next_port (ports_of tree))
                else parse_int m.conn_port)
              (is_creating_new-modbus m new) new named)
    ]
    | inr old ↦ rw (IsChecked, full, old) (target_conn-IsTarget tree m id full old)
  ]
]

-- Over the whole of a submission of the import dialog, whatever the server answers, every action
-- is sound: a connection is created only from the entry for a new one, with a name, on a valid
-- port that no connection has and never of the private kind; frames are imported and the default
-- device is made only for a connection in Modbus mode; in private mode the settings that are
-- saved and the view that is drawn anew are those of the connection the dialog was opened for,
-- and only with a log that is not blank. This holds where the ids that the server makes and the
-- one the dialog was opened for are not the value of the entry for a new connection.
pub submit_import_form-AllSound :
    (b : Backend) (p : ImportPage)
    → ((name : Text) (port service_type : ℕ) (conn_id : Text)
        → b.create_connection name port service_type ≡ inr conn_id
        → IsConnId conn_id)
    → text_eq p.modal.import_conn_id new_conn ≡ false
    → p.actions ≡ []
    → All (IsSound p.modal p.device_tree) (submit_import_form b p).actions
unfolding submit_import_form
submit_import_form-AllSound b p ids id fresh =
    let start : ImportPage = record p { import_in_progress = true } in
    elim (Bool-cases p.import_in_progress) [
      | inl busy ↦ rw (All, busy, fresh) tt
      | inr idle ↦
          rw (All, idle)
            (settled-AllSound p.modal p.device_tree b
              (try_import b (check_form p.device_tree p.modal) start)
              (try_import-Kept p.modal p.device_tree b ids (check_form p.device_tree p.modal) start
                (record { sound = rw (All, fresh) tt; mode = refl; frames = refl })
                (check_form-IsChecked p.device_tree p.modal id)))
    ]
