-- ===== src/Drafts/Discard.antt =====
-- When a draft is given up: `confirmDiscardActivePrivateDraft` and the operations that ask it, and
-- `refreshPrivateData`, which does not ask.
use modbus_simulator_go.Base.{
  subst, ◌⊎◌, ◌≡◌, refl, sym, ap, ◌∙◌, inl, inr, Bool, true, false, ◌||◌, Bool-cases, Option-cases,
  if_both, some, List, [], ◌∷◌, map, Text, is_empty, text_eq, text_eq_iff, any, keep, arith,
}
use modbus_simulator_go.Base.Dict.{entry, put, put_all, contains, entry-put}
use modbus_simulator_go.Tree.{Connection}
use modbus_simulator_go.Drafts.{
  modbus, private_protocol, Config, State, World, loaded, private_nodes, refresh_with,
  refresh_private_data, first_known, first_conn_id, has_draft, confirm_discard_active_private_draft,
}
use modbus_simulator_go.Drafts.Actions.{
  attempt_switch_connection, set_mode, on_content_click, clicked_in, import_button,
}

confirm_refused :
    (w : World) (s : State)
    → has_draft s ≡ true
    → w.confirmed ≡ false
    → confirm_discard_active_private_draft w s ≡ (false, s)
unfolding confirm_discard_active_private_draft
confirm_refused w s draft refused = rw (draft, refused) refl

-- While the private protocol is shown and the active connection has a draft, a user who does not
-- confirm keeps everything as it is: switching to another connection, leaving for Modbus and
-- importing change nothing.
pub refused_keeps :
    (w : World) (s : State) (id : Text)
    → s.mode ≡ private_protocol
    → has_draft s ≡ true
    → w.confirmed ≡ false
    → (attempt_switch_connection w id s ≡ s)
      × (set_mode w modbus s ≡ s)
      × ((on_content_click w import_button s).state ≡ s)
unfolding attempt_switch_connection set_mode on_content_click
refused_keeps w s id mode draft refused =
    let asked = confirm_refused w s draft refused in
    (
      if_both (λ t. t ≡ s) (is_empty id || text_eq id s.active_conn_id) _ _ refl
          (rw (asked, draft) refl),
      rw (asked, mode) refl,
      ap (λ m. (clicked_in m w import_button s).state) mode ∙ ap (λ (r : Bool × State). r.1) asked,
    )

-- The node of an id, and the configuration that the map holds for it.
entry-put_all :
    (f : Connection → Config) (id : Text) (nodes : List Connection) (m : List (Text × Config))
    → (any (λ node. text_eq node.id id) nodes ≡ true)
      ⊎ ((node : Connection) × (node.id ≡ id) × (entry id m ≡ some (f node)))
    → (node : Connection) × (node.id ≡ id)
      × (entry id (put_all (map (λ n. (n.id, f n)) nodes) m) ≡ some (f node))
unfolding put_all
entry-put_all f id [] m (inl h) = cc
entry-put_all f id [] m (inr found) = found
entry-put_all f id (n ∷ nodes) m h = elim (Bool-cases (text_eq n.id id)) [
  | inl same ↦
      entry-put_all f id nodes (put n.id (f n) m)
        (inr (n, (text_eq_iff n.id id).0 same, entry-put n.id id (f n) m ∙ rw same))
  | inr other ↦ entry-put_all f id nodes (put n.id (f n) m) (elim h [
    | inl there ↦ inl (ground arith)
    | inr (node, same, e) ↦ inr (node, same, entry-put n.id id (f n) m ∙ (rw other e))
  ])
]

first_known_active :
    (id : Text) (others : List Text) (configs : List (Text × Config)) (config : Config)
    → is_empty id ≡ false
    → entry id configs ≡ some config
    → first_known ([] ∷ id ∷ others) configs ≡ id
unfolding first_known
first_known_active id others configs config given e = elim (Option-cases (entry [] configs)) [
  | inl no_entry ↦ rw (first_known, no_entry, e, given) refl
  | inr (other, found) ↦ rw (first_known, found, e, given) refl
]

contains-keep :
    (test : Text → Bool) (id : Text) (s : List Text)
    → test id ≡ true
    → contains id s ≡ true
    → contains id (keep test s) ≡ true
unfolding contains
contains-keep test id [] t h = h
contains-keep test id (k ∷ s) t h = elim (Bool-cases (text_eq k id)) [
  | inl same ↦ rw (ap test ((text_eq_iff k id).0 same), t, same) refl
  | inr other ↦
      let later = contains-keep test id s t (ground arith) in
      if_both (λ l. any (λ j. text_eq j id) l ≡ true) (test k) _ _ (rw (other, later) refl) later
]

-- The same connection is active and is still marked as changed, but its configuration is the one
-- that the server sends.
abbrev pub LosesDraft : World → State → State → Type 0
LosesDraft w s s' =
    (s'.active_conn_id ≡ s.active_conn_id)
    × (has_draft s' ≡ true)
    × ((node : Connection) × (node.id ≡ s.active_conn_id)
        × (entry s'.active_conn_id s'.configs ≡ some (loaded node (w.get_config node.id))))

refresh_private_data_loses :
    (w : World) (s : State) (tree : List Connection)
    → has_draft s ≡ true
    → w.tree ≡ some tree
    → any (λ node. text_eq node.id s.active_conn_id) (private_nodes w tree) ≡ true
    → LosesDraft w s (refresh_private_data w [] s)
unfolding refresh_private_data refresh_with has_draft
refresh_private_data_loses w s tree draft answered there =
    let nodes = private_nodes w tree in
    let (node, same, found) =
      entry-put_all (λ n. loaded n (w.get_config n.id)) s.active_conn_id nodes [] (inl there) in
    let configs = put_all (map (λ n. (n.id, loaded n (w.get_config n.id))) nodes) [] in
    let given : is_empty s.active_conn_id ≡ false = ground arith in
    let active =
      first_known_active s.active_conn_id (first_conn_id nodes ∷ []) configs _ given found in
    let marked : contains s.active_conn_id s.dirty_connections ≡ true = ground arith in
    let kept =
      contains-keep (λ id. any (λ n. text_eq n.id id) nodes) s.active_conn_id s.dirty_connections
        there marked in
    rw (refresh_private_data, answered, active) (refl, rw (given, kept) refl, (node, same, found))

set_mode_again :
    (w : World) (s : State)
    → s.mode ≡ private_protocol
    → set_mode w private_protocol s ≡ refresh_private_data w [] s
unfolding set_mode
set_mode_again w s mode = rw mode refl

-- Pressing the button of the private protocol while it is shown asks nobody: a connection with a
-- draft that is still on the server stays active and stays marked as changed, but its configuration
-- is replaced by the one that the server sends. The draft is lost and the mark remains.
pub set_mode_loses :
    (w : World) (s : State) (tree : List Connection)
    → s.mode ≡ private_protocol
    → has_draft s ≡ true
    → w.tree ≡ some tree
    → any (λ node. text_eq node.id s.active_conn_id) (private_nodes w tree) ≡ true
    → LosesDraft w s (set_mode w private_protocol s)
set_mode_loses w s tree mode draft answered there =
    subst (LosesDraft w s) (sym (set_mode_again w s mode))
      (refresh_private_data_loses w s tree draft answered there)
