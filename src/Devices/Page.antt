-- ===== src/Devices/Page.antt =====
-- The page's variables that a deletion or the form for registers changes, and `deleteDevice` and
-- `deleteRegisterAddr` of app.js. Whether the user confirms and what the server answers, a reason
-- for a refusal or none, are parameters; `tree` is the answer to `api.getTree` afterwards.
use modbus_simulator_go.Base.{
  ◌≡◌, refl, inl, inr, Bool, true, false, not, ◌&&◌, Bool-cases, Option, none, some, List, [], ◌∷◌,
  Text, codes, ◌++◌, text_eq, text_eq_iff, any, keep, length, leb, arith, if◌then◌else◌,
}
use modbus_simulator_go.Base.Dict.{entry, remove, entry-remove}
use modbus_simulator_go.Address.{Register}
use modbus_simulator_go.Tree.{Node, node_with_id}
use modbus_simulator_go.Tabs.{
  Tab, View, close_where, close_tabs_by_slave, close_tabs_by_connection, refresh_tab,
}
use modbus_simulator_go.Tabs.Consistency.{
  IsConsistent, none_kept, open_kept, close_where-IsConsistent,
}
use modbus_simulator_go.Devices.{or_kept}

pub record Page : Type 0 where
  pub view : View
  pub register_cache : List (Text × List Register)
  pub device_tree : List Node

-- `node && node.slaves.length <= 1`
abbrev pub is_last : Option Node → Bool
is_last none = false
is_last (some node) = leb (length node.slaves) 1

abbrev pub delete_failed : Text → Text
delete_failed reason = codes "删除失败: " ++ reason

-- The page after a device is deleted.
unfoldable pub without_device : Text → Text → Option (List Node) → Page → Page
without_device conn_id slave_id tree page =
    let view = close_tabs_by_slave slave_id page.view in
    record {
      view =
          if is_last (node_with_id conn_id page.device_tree)
          then close_tabs_by_connection conn_id view
          else view;
      register_cache = remove slave_id page.register_cache;
      device_tree = or_kept page.device_tree tree;
    }

-- The page and the message that is shown.
unfoldable pub delete_device :
    Bool → Option Text → Option (List Node) → Text → Text → Page → Page × Option Text
unfolding without_device
delete_device confirmed refusal tree conn_id slave_id page =
    if not confirmed then (page, none) else elim refusal [
      | some reason ↦ (page, some (delete_failed reason))
      | none ↦ (without_device conn_id slave_id tree page, none)
    ]

-- `delete registerCache[slaveId]; refreshTab(); await loadTree();`
unfoldable pub after_register : Text → Option (List Node) → Page → Page
after_register slave_id tree page = record {
  view = refresh_tab page.view;
  register_cache = remove slave_id page.register_cache;
  device_tree = or_kept page.device_tree tree;
}

unfoldable pub delete_register_addr :
    Bool → Option Text → Option (List Node) → Text → Page → Page × Option Text
unfolding after_register
delete_register_addr confirmed refusal tree slave_id page =
    if not confirmed then (page, none) else elim refusal [
      | some reason ↦ (page, some (delete_failed reason))
      | none ↦ (after_register slave_id tree page, none)
    ]

-- No tab that passes the test is open.
abbrev pub NoTab : (Tab → Bool) → View → Type 0
NoTab test v = any test v.open_tabs ≡ false

any-keep : (p q : Tab → Bool) (tabs : List Tab) → any p tabs ≡ false → any p (keep q tabs) ≡ false
any-keep p q [] h = refl
any-keep p q (t ∷ tabs) h = ground (arith, any-keep p q tabs)

close_where-NoTab : (test : Tab → Bool) (v : View) → NoTab test (close_where test v)
close_where-NoTab test v = rw (open_kept test v) (none_kept test v.open_tabs)

close_where-keeps_NoTab :
    (test other : Tab → Bool) (v : View) → NoTab test v → NoTab test (close_where other v)
close_where-keeps_NoTab test other v h =
    rw (open_kept other v) (any-keep test (λ t. not (other t)) v.open_tabs h)

text_eq_self : (s : Text) → text_eq s s ≡ true
text_eq_self s = (text_eq_iff s s).1 refl

-- When a device was deleted its blocks are not cached and none of its tabs is open, nor a tab of its
-- connection if it was the only device there; and if the active tab was an open one it still is.
pub delete_device_lem :
    (tree : Option (List Node)) (conn_id slave_id : Text) (page : Page)
    → IsConsistent page.view
    → (let after = (delete_device true none tree conn_id slave_id page).0 in
        (entry slave_id after.register_cache ≡ none)
        × NoTab (λ t. text_eq t.slave_id slave_id) after.view
        × ((is_last (node_with_id conn_id page.device_tree)
              && any (λ t. text_eq t.conn_id conn_id) after.view.open_tabs)
            ≡ false)
        × IsConsistent after.view)
unfolding delete_device without_device close_tabs_by_slave close_tabs_by_connection
delete_device_lem tree conn_id slave_id page h =
    let by_slave = λ (t : Tab). text_eq t.slave_id slave_id in
    let by_conn = λ (t : Tab). text_eq t.conn_id conn_id in
    let view = close_where by_slave page.view in
    let uncached : entry slave_id (remove slave_id page.register_cache) ≡ none =
      rw (entry-remove slave_id slave_id page.register_cache, text_eq_self slave_id) refl in
    let closed = close_where-NoTab by_slave page.view in
    let consistent = close_where-IsConsistent by_slave page.view h in
    elim (Bool-cases (is_last (node_with_id conn_id page.device_tree))) [
      | inl last ↦ rw last (
        uncached,
        close_where-keeps_NoTab by_slave by_conn view closed,
        close_where-NoTab by_conn view,
        close_where-IsConsistent by_conn view consistent,
      )
      | inr more ↦ rw more (uncached, closed, refl, consistent)
    ]
