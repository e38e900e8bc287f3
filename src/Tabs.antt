-- ===== src/Tabs.antt =====
-- The register tabs of app.js: `openRegisterTab`, `selectTab`, `closeTab`, `closeTabsByConnection`,
-- `closeTabsBySlave` and `refreshTab` over `openTabs` and `activeTab`. What `loadTabContent` or the
-- empty message put into the content area is the field `panel`.
pub mod Consistency
mod Tests
use modbus_simulator_go.Base.{
  ◌≡◌, Bool, true, false, not, ◌&&◌, Option, none, some, List, [], ◌∷◌, ◌++◌, Text, codes, text_eq,
  any, keep, find, is_empty, if◌then◌else◌, ℕ,
}
use modbus_simulator_go.Base.Digits.{to_decimal}

pub record Tab : Type 0 where
  pub id : Text
  pub conn_id : Text
  pub slave_id : Text
  pub fc : ℕ

pub data Panel : Type 0 where
  -- the page as it was loaded, and the message that nothing is selected
  initial empty_state : Panel
  content : Tab → Panel

pub record View : Type 0 where
  pub open_tabs : List Tab
  pub active_tab : Option Text
  pub panel : Panel

-- `tabs.find(t => t.id === id)`
abbrev pub find_tab : Text → List Tab → Option Tab
find_tab id tabs = find (λ t. text_eq t.id id) tabs

abbrev pub shown_tab : Option Tab → Panel → Panel
shown_tab none panel = panel
shown_tab (some tab) panel = content tab

-- `if (activeTab) …` on the tabs and the active tab: null and the empty text are false.
unfoldable pub load_active : List Tab → Option Text → Panel → Panel
load_active tabs none panel = panel
load_active tabs (some id) panel = if is_empty id then panel else shown_tab (find_tab id tabs) panel

unfoldable pub open_register_tab : Text → Text → ℕ → View → View
open_register_tab conn_id slave_id fc v =
    let tab : Tab = record {
      id = slave_id ++ (codes "-" ++ to_decimal fc);
      conn_id = conn_id;
      slave_id = slave_id;
      fc = fc;
    } in
    record v { open_tabs = tab ∷ []; active_tab = some tab.id; panel = content tab }

unfoldable pub select_tab : Text → View → View
select_tab id v = record v {
  active_tab = some id;
  panel = shown_tab (find_tab id v.open_tabs) v.panel;
}

-- `openTabs.length ? openTabs[0].id : null`
abbrev pub first_id : List Tab → Option Text
first_id [] = none
first_id (t ∷ tabs) = some t.id

abbrev pub is_active : Option Text → Text → Bool
is_active none id = false
is_active (some a) id = text_eq a id

-- The end of the closing functions: the active tab is loaded, or the message is shown.
abbrev pub after_close : List Tab → Option Text → Panel → Panel
after_close tabs none panel = empty_state
after_close tabs (some id) panel =
    if is_empty id then empty_state else shown_tab (find_tab id tabs) panel

unfoldable pub close_tab : Text → View → View
close_tab id v =
    let tabs = keep (λ t. not (text_eq t.id id)) v.open_tabs in
    let active = if is_active v.active_tab id then first_id tabs else v.active_tab in
    record v { open_tabs = tabs; active_tab = active; panel = after_close tabs active v.panel }

-- The body that `closeTabsByConnection` and `closeTabsBySlave` share, on the test of a tab.
unfoldable pub close_where : (Tab → Bool) → View → View
close_where test v =
    let tabs = keep (λ t. not (test t)) v.open_tabs in
    let active =
      if any (λ t. is_active v.active_tab t.id) (keep test v.open_tabs)
      then first_id tabs
      else v.active_tab in
    if any test v.open_tabs
    then record v { open_tabs = tabs; active_tab = active; panel = after_close tabs active v.panel }
    else v

unfoldable pub close_tabs_by_connection : Text → View → View
close_tabs_by_connection conn_id v = close_where (λ t. text_eq t.conn_id conn_id) v

unfoldable pub close_tabs_by_slave : Text → View → View
close_tabs_by_slave slave_id v = close_where (λ t. text_eq t.slave_id slave_id) v

unfoldable pub refresh_tab : View → View
refresh_tab v = record v { panel = load_active v.open_tabs v.active_tab v.panel }

-- The calls of the page, in any order. Nothing calls `selectTab`, since `renderTabs` shows no tabs.
pub data Step : View → View → Type 0 where
  opens : (conn slave : Text) (fc : ℕ) (v : View) → Step v (open_register_tab conn slave fc v)
  closes : (id : Text) (v : View) → Step v (close_tab id v)
  closes_connection : (conn : Text) (v : View) → Step v (close_tabs_by_connection conn v)
  closes_slave : (slave : Text) (v : View) → Step v (close_tabs_by_slave slave v)
  refreshes : (v : View) → Step v (refresh_tab v)

pub data Reach (s : View) : View → Type 0 where
  here : Reach s s
  next : {t u : View} → Reach s t → Step t u → Reach s u
