-- ===== src/Dialog/Kept.antt =====
-- The parts of a submission of the import dialog keep its actions sound.
use modbus_simulator_go.Base.{
  ℕ, ◌≡◌, refl, sym, ap, ◌∙◌, inl, inr, ◌⊎◌, Bool, true, false, Bool-cases, Option-cases, Option,
  none, some, List, [], ◌∷◌, ◌++◌, Text, is_empty, trim, codes, All, All-append,
}
use modbus_simulator_go.Tree.{Node, node_with_id}
use modbus_simulator_go.Drafts.{Mode, modbus, private_protocol, Served}
use modbus_simulator_go.Report.{PrivateReport}
use modbus_simulator_go.Import.Private.{import_private_frames}
use modbus_simulator_go.Import.Slaves.{ensure_default_slave}
use modbus_simulator_go.Dialog.Texts.{Summary, warn, Thrown}
use modbus_simulator_go.Import.Frames.{import_frames, Imported, going, broken_off}
use modbus_simulator_go.Dialog.{Modal, is_private, service_type_of}
use modbus_simulator_go.Dialog.Submit.{
  Action, posts_connection, imports_frames, puts_private, ensures_slave, refreshes, Backend,
  ImportPage, set_import_summary, load_tree, acting, name_of, Ended, through, threw, then_run,
  Pending, Checked, stopped, existing, pending, name_hint, run_import_frames, run_import_private,
  import_or_warn, finish_import, run_on, created, try_import, after_import, saved, after_default,
  settled,
}
use modbus_simulator_go.Dialog.Sound.{IsConnId, IsSound, Kept, EndsKept, IsTarget, IsChecked}

service_type_of-modbus : (mode : Mode) → is_private mode ≡ false → service_type_of mode ≡ 0
unfolding service_type_of
service_type_of-modbus modbus h = refl
service_type_of-modbus private_protocol h = cc

module _ (m : Modal) (tree : List Node) where
  module _ (b : Backend) where
    acted :
        (p : ImportPage) (a : Action)
        → Kept m tree p
        → IsSound m tree a
        → All (IsSound m tree) (p.actions ++ a ∷ [])
    acted p a k s = All-append (IsSound m tree) p.actions (a ∷ []) (Kept.sound k) (s, tt)

    after_import-Kept :
        (p : ImportPage) (im : Imported) → Kept m tree p → EndsKept m tree (after_import b p im)
    after_import-Kept p (going st) k = record { sound = k.sound; mode = k.mode; frames = k.frames }
    after_import-Kept p (broken_off st) k = record {
      sound = k.sound;
      mode = k.mode;
      frames = k.frames;
    }

    saved-Kept :
        (report : PrivateReport) (p : ImportPage) (o : Option Thrown)
        → Kept m tree p
        → EndsKept m tree (saved b report p o)
    saved-Kept report p none k = record { sound = k.sound; mode = k.mode; frames = k.frames }
    saved-Kept report p (some e) k = k

    after_default-Kept :
        (blank : Bool) (p : ImportPage) (o : Text ⊎ (Bool × List Node))
        → Kept m tree p
        → EndsKept m tree (after_default b blank p o)
    after_default-Kept blank p (inl reason) k = k
    after_default-Kept true p (inr (true, tree)) k = record {
      sound = k.sound;
      mode = k.mode;
      frames = k.frames;
    }
    after_default-Kept true p (inr (false, tree)) k = record {
      sound = k.sound;
      mode = k.mode;
      frames = k.frames;
    }
    after_default-Kept false p (inr (true, tree)) k = record {
      sound = k.sound;
      mode = k.mode;
      frames = k.frames;
    }
    after_default-Kept false p (inr (false, tree)) k = record {
      sound = k.sound;
      mode = k.mode;
      frames = k.frames;
    }

    acting-Kept :
        (a : Action) (p : ImportPage) → Kept m tree p → IsSound m tree a → Kept m tree (acting a p)
    acting-Kept a p k s = record { sound = acted p a k s; mode = k.mode; frames = k.frames }

    load_tree-Kept : (p : ImportPage) → Kept m tree p → Kept m tree (load_tree b p)
    load_tree-Kept p k = record { sound = k.sound; mode = k.mode; frames = k.frames }

    run_import_frames-Kept :
        (conn_id : Text) (p : ImportPage)
        → Kept m tree p
        → is_private m.import_mode ≡ false
        → IsConnId conn_id
        → is_empty (trim m.frames) ≡ false
        → EndsKept m tree (run_import_frames b conn_id p)
    unfolding run_import_frames
    run_import_frames-Kept conn_id p k mo id text =
        let p' : ImportPage = load_tree b (acting (imports_frames conn_id p.modal.frames) p) in
        after_import-Kept p'
          (import_frames b.server conn_id p'.modal.frames p'.device_tree p'.register_cache)
          (load_tree-Kept (acting (imports_frames conn_id p.modal.frames) p)
            (acting-Kept (imports_frames conn_id p.modal.frames) p k (mo, id, k.frames, text)))

    run_import_private-Kept :
        (conn_id : Text) (p : ImportPage)
        → Kept m tree p
        → is_private m.import_mode ≡ true
        → conn_id ≡ m.import_conn_id
        → is_empty (trim m.frames) ≡ false
        → EndsKept m tree (run_import_private b conn_id p)
    unfolding run_import_private
    run_import_private-Kept conn_id p k mo id text =
        let p' : ImportPage = load_tree b p in
        let made : Served × PrivateReport =
          import_private_frames b.encode (name_of b (node_with_id conn_id p'.device_tree))
            (b.get_private_protocol conn_id) p'.modal.frames in
        saved-Kept made.1 (acting (puts_private conn_id made.0) p')
          (b.save_private_protocol conn_id made.0)
          (acting-Kept (puts_private conn_id made.0) p' (load_tree-Kept p k) (mo, id, text))

    import_or_warn-Kept :
        (pend : Option Pending) (conn_id : Text) (p : ImportPage)
        → Kept m tree p
        → IsTarget m tree pend conn_id
        → EndsKept m tree (import_or_warn b pend conn_id p)
    unfolding import_or_warn
    import_or_warn-Kept pend conn_id p k target =
        let plain : (s : Summary) → Kept m tree (set_import_summary s p) =
          λ s. record { sound = k.sound; mode = k.mode; frames = k.frames } in
        elim (Bool-cases (is_empty (trim p.modal.frames))) [
          | inl blank ↦ elim target [
            | inl (mo, id, none_pending) ↦
                rw (EndsKept, blank, ap is_private k.mode ∙ mo, none_pending)
                  (plain (warn (codes "请粘贴需要导入的报文")))
            | inr (mo, id) ↦
                rw (EndsKept, blank, ap is_private k.mode ∙ mo) (plain (warn (codes "未导入报文")))
          ]
          | inr text ↦
              let text' : is_empty (trim m.frames) ≡ false =
                ap (λ f. is_empty (trim f)) (sym k.frames) ∙ text in
              elim target [
                | inl (mo, id, none_pending) ↦
                    rw (EndsKept, text, ap is_private k.mode ∙ mo)
                      (run_import_private-Kept conn_id p k mo id text')
                | inr (mo, id) ↦
                    rw (EndsKept, text, ap is_private k.mode ∙ mo)
                      (run_import_frames-Kept conn_id p k mo id text')
              ]
        ]

    finish_import-Kept :
        (pend : Option Pending) (conn_id : Text) (p : ImportPage)
        → Kept m tree p
        → IsTarget m tree pend conn_id
        → EndsKept m tree (finish_import b pend conn_id p)
    unfolding finish_import
    finish_import-Kept pend conn_id p k (inr (mo, id)) =
        let p' : ImportPage = load_tree b (acting (ensures_slave conn_id (name_hint pend)) p) in
        rw (EndsKept, ap is_private k.mode ∙ mo)
          (after_default-Kept (is_empty (trim p.modal.frames)) p'
            (ensure_default_slave b.server.create_slave conn_id (name_hint pend) p'.device_tree)
            (load_tree-Kept (acting (ensures_slave conn_id (name_hint pend)) p)
              (acting-Kept (ensures_slave conn_id (name_hint pend)) p k (mo, id))))
    finish_import-Kept pend conn_id p k (inl (mo, id, none_pending)) =
        elim (Bool-cases (is_empty (trim p.modal.frames))) [
          | inl blank ↦ rw (EndsKept, ap is_private k.mode ∙ mo, blank) k
          | inr text ↦
              let text' : is_empty (trim m.frames) ≡ false =
                ap (λ f. is_empty (trim f)) (sym k.frames) ∙ text in
              let kept : Kept m tree (acting (refreshes conn_id) p) =
                acting-Kept (refreshes conn_id) p k (mo, id, text') in
              elim (Option-cases (b.refresh_data conn_id)) [
                | inl done ↦ rw (EndsKept, ap is_private k.mode ∙ mo, text, done) kept
                | inr (e, failed) ↦ rw (EndsKept, ap is_private k.mode ∙ mo, text, failed) kept
              ]
        ]

    then_run-Kept :
        (next : ImportPage → Ended) (e : Ended)
        → ((p : ImportPage) → Kept m tree p → EndsKept m tree (next p))
        → EndsKept m tree e
        → EndsKept m tree (then_run next e)
    then_run-Kept next (through p) h k = h p k
    then_run-Kept next (threw e p) h k = k

    run_on-Kept :
        (pend : Option Pending) (conn_id : Text) (p : ImportPage)
        → Kept m tree p
        → IsTarget m tree pend conn_id
        → EndsKept m tree (run_on b pend conn_id p)
    unfolding run_on
    run_on-Kept pend conn_id p k target =
        then_run-Kept (finish_import b pend conn_id) (import_or_warn b pend conn_id p)
          (λ p' k'. finish_import-Kept pend conn_id p' k' target)
          (import_or_warn-Kept pend conn_id p k target)

    pub settled-AllSound :
        (e : Ended) → EndsKept m tree e → All (IsSound m tree) (settled b e).actions
    settled-AllSound (through p) k = k.sound
    settled-AllSound (threw e p) k = k.sound

    created-Kept :
        (new : Pending) (p : ImportPage) (o : Thrown ⊎ Text)
        → Kept m tree p
        → is_private m.import_mode ≡ false
        → ((conn_id : Text) → o ≡ inr conn_id → IsConnId conn_id)
        → EndsKept m tree (created b new p o)
    created-Kept new p (inl e) k mo ids = k
    created-Kept new p (inr conn_id) k mo ids =
        run_on-Kept (some new) conn_id p k (inr (mo, ids conn_id refl))

    module _
        (ids : (name : Text) (port service_type : ℕ) (conn_id : Text)
          → b.create_connection name port service_type ≡ inr conn_id
          → IsConnId conn_id) where
      pub try_import-Kept :
          (c : Checked) (p : ImportPage)
          → Kept m tree p
          → IsChecked m tree c
          → EndsKept m tree (try_import b c p)
      unfolding try_import
      try_import-Kept (stopped message) p k h = record {
        sound = k.sound;
        mode = k.mode;
        frames = k.frames;
      }
      try_import-Kept (existing conn_id) p k h = run_on-Kept none conn_id p k h
      try_import-Kept (pending new) p k h =
          let service_type : ℕ = service_type_of p.modal.import_mode in
          created-Kept new (acting (posts_connection new.name new.port service_type) p)
            (b.create_connection new.name new.port service_type)
            (acting-Kept (posts_connection new.name new.port service_type) p k
              (rw (IsSound, ap service_type_of k.mode, service_type_of-modbus m.import_mode h.0) h))
            h.0 (λ id e. ids new.name new.port service_type id e)
