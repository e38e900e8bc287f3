-- ===== src/Dialog/Sound.antt =====
-- What is sound of the import dialog's actions, and what the parts of a submission keep.
use modbus_simulator_go.Base.{
  ◌≤◌, ◌<◌, ◌≡◌, ◌⊎◌, true, false, Option, none, List, Text, is_empty, trim, text_eq, find, All,
  ◌==◌,
}
use modbus_simulator_go.Tree.{Node}
use modbus_simulator_go.Dialog.{Modal, new_conn, is_private}
use modbus_simulator_go.Dialog.Submit.{
  Action, posts_connection, imports_frames, puts_private, ensures_slave, refreshes, ImportPage,
  Ended, through, threw, Pending, Checked, stopped, existing, pending, is_creating_new,
}

-- The id of a connection: not empty, and not the entry for a new one.
abbrev pub IsConnId : Text → Type 0
IsConnId id = (is_empty id ≡ false) × (text_eq id new_conn ≡ false)

module _ (m : Modal) (tree : List Node) where
  -- A connection is created where the entry for a new one is chosen and nothing is locked, under
  -- the name of the form and on a valid port that is free. Every other action is about a connection
  -- of the mode's kind, and imports happen only where the field of the log is not blank.
  abbrev pub IsSound : Action → Type 0
  IsSound (posts_connection name port service_type) =
      (is_private m.import_mode ≡ false)
      × (is_creating_new m ≡ true)
      × (name ≡ trim m.conn_name)
      × (is_empty name ≡ false)
      × (0 < port)
      × (port ≤ 65535)
      × (find (λ (n : Node). n.connection.port == port) tree ≡ none)
      × (service_type ≡ 0)
  IsSound (imports_frames conn_id frames) =
      (is_private m.import_mode ≡ false)
      × IsConnId conn_id
      × (frames ≡ m.frames)
      × (is_empty (trim m.frames) ≡ false)
  IsSound (puts_private conn_id served) =
      (is_private m.import_mode ≡ true)
      × (conn_id ≡ m.import_conn_id)
      × (is_empty (trim m.frames) ≡ false)
  IsSound (ensures_slave conn_id hint) = (is_private m.import_mode ≡ false) × IsConnId conn_id
  IsSound (refreshes conn_id) =
      (is_private m.import_mode ≡ true)
      × (conn_id ≡ m.import_conn_id)
      × (is_empty (trim m.frames) ≡ false)

  -- What the parts of the `try` block keep.
  pub record Kept (p : ImportPage) : Type 0 where
    pub sound : All IsSound p.actions
    pub mode : p.modal.import_mode ≡ m.import_mode
    pub frames : p.modal.frames ≡ m.frames

  abbrev pub EndsKept : Ended → Type 0
  EndsKept (through p) = Kept p
  EndsKept (threw e p) = Kept p

  -- The connection of the import: of the private view, or one with an id.
  abbrev pub IsTarget : Option Pending → Text → Type 0
  IsTarget pend conn_id =
      ((is_private m.import_mode ≡ true) × (conn_id ≡ m.import_conn_id) × (pend ≡ none))
      ⊎ ((is_private m.import_mode ≡ false) × IsConnId conn_id)

  -- What the checks let through.
  abbrev pub IsChecked : Checked → Type 0
  IsChecked (stopped message) = Unit
  IsChecked (existing conn_id) = IsTarget none conn_id
  IsChecked (pending new) = IsSound (posts_connection new.name new.port 0)
