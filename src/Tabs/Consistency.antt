-- ===== src/Tabs/Consistency.antt =====
-- The active tab against the open tabs.
use mathlib.Core.Bool.{false≢true}
use modbus_simulator_go.Base.{
  Bool, true, false, not, ◌≡◌, ◌≢◌, ◌⊎◌, inl, inr, refl, sym, ap, ◌∙◌, fun_ext, Option, none, some,
  List, [], ◌∷◌, ◌++◌, Text, codes, text_eq, text_eq_iff, any, keep, arith, Bool-cases,
}
use modbus_simulator_go.Base.Digits.{to_decimal}
use modbus_simulator_go.Tabs.{
  Tab, View, open_register_tab, first_id, is_active, close_tab, close_where,
  close_tabs_by_connection, close_tabs_by_slave, refresh_tab, Step, opens, closes,
  closes_connection, closes_slave, refreshes, Reach, here, next,
}

-- The active tab is open; with no active tab no tab is open.
abbrev Active : List Tab → Option Text → Type 0
Active tabs none = tabs ≡ []
Active tabs (some id) = any (λ t. text_eq t.id id) tabs ≡ true

abbrev pub IsConsistent : View → Type 0
IsConsistent v = Active v.open_tabs v.active_tab

text_eq_self : (s : Text) → text_eq s s ≡ true
text_eq_self s = (text_eq_iff s s).1 refl

text_eq_sym : (a b : Text) → text_eq a b ≡ text_eq b a
text_eq_sym a b = ground (arith, text_eq_iff a b, text_eq_iff b a)

first_id-Active : (tabs : List Tab) → Active tabs (first_id tabs)
first_id-Active [] = refl
first_id-Active (t ∷ tabs) = rw (text_eq_self t.id)

-- A tab with the id, among tabs that are either kept or closed.
any_split :
    (p test : Tab → Bool) (tabs : List Tab)
    → any p tabs ≡ true
    → (any p (keep test tabs) ≡ true) ⊎ (any p (keep (λ t. not (test t)) tabs) ≡ true)
any_split p test [] h = cc
any_split p test (t ∷ tabs) h = ground (arith, any_split p test tabs)

keep_nil : (test : Tab → Bool) (tabs : List Tab) → tabs ≡ [] → keep test tabs ≡ []
keep_nil test [] e = refl
keep_nil test (t ∷ tabs) e = cc

flip_test : (id : Text) → ◌≡◌ {A = Tab → Bool} (λ t. text_eq t.id id) (λ t. text_eq id t.id)
flip_test id = fun_ext (λ t. text_eq_sym t.id id)

-- Where no closed tab is the active one, the active tab stays open.
keeps_Active :
    (test : Tab → Bool) (tabs : List Tab) (active : Option Text)
    → Active tabs active
    → any (λ t. is_active active t.id) (keep test tabs) ≡ false
    → Active (keep (λ t. not (test t)) tabs) active
keeps_Active test tabs none h k = keep_nil (λ t. not (test t)) tabs h
keeps_Active test tabs (some id) h k = elim (any_split (λ t. text_eq t.id id) test tabs h) [
  | inr kept ↦ kept
  | inl closed ↦
      absurd (false≢true (sym k ∙ (ap (λ p. any p (keep test tabs)) (sym (flip_test id)) ∙ closed)))
]

pub close_where-IsConsistent :
    (test : Tab → Bool) (v : View) → IsConsistent v → IsConsistent (close_where test v)
unfolding close_where
close_where-IsConsistent test v h = elim (Bool-cases (any test v.open_tabs)) [
  | inr nothing ↦ rw nothing h
  | inl some_close ↦
      elim (Bool-cases (any (λ t. is_active v.active_tab t.id) (keep test v.open_tabs))) [
        | inl gone ↦ rw (some_close, gone) (first_id-Active (keep (λ t. not (test t)) v.open_tabs))
        | inr stays ↦ rw (some_close, stays) (keeps_Active test v.open_tabs v.active_tab h stays)
      ]
]

-- The tabs that `closeTab` closes have its id.
closed_id :
    (id : Text) (active : Option Text) (tabs : List Tab)
    → is_active active id ≡ false
    → any (λ t. is_active active t.id) (keep (λ t. text_eq t.id id) tabs) ≡ false
closed_id id active [] h = refl
closed_id id active (t ∷ tabs) h = elim (Bool-cases (text_eq t.id id)) [
  | inl same ↦
      rw (same, ap (is_active active) ((text_eq_iff t.id id).0 same), h)
        (closed_id id active tabs h)
  | inr other ↦ rw other (closed_id id active tabs h)
]

close_tab-IsConsistent : (id : Text) (v : View) → IsConsistent v → IsConsistent (close_tab id v)
unfolding close_tab
close_tab-IsConsistent id v h = elim (Bool-cases (is_active v.active_tab id)) [
  | inl gone ↦ rw gone (first_id-Active (keep (λ t. not (text_eq t.id id)) v.open_tabs))
  | inr stays ↦ rw stays (
      keeps_Active (λ t. text_eq t.id id) v.open_tabs v.active_tab h
        (closed_id id v.active_tab v.open_tabs stays))
]

Step-IsConsistent : {t u : View} → Step t u → IsConsistent t → IsConsistent u
unfolding open_register_tab refresh_tab close_tabs_by_connection close_tabs_by_slave
Step-IsConsistent (opens conn slave fc v) h =
    rw (text_eq_self (slave ++ (codes "-" ++ to_decimal fc)))
Step-IsConsistent (closes id v) h = close_tab-IsConsistent id v h
Step-IsConsistent (closes_connection conn v) h =
    close_where-IsConsistent (λ t. text_eq t.conn_id conn) v h
Step-IsConsistent (closes_slave slave v) h =
    close_where-IsConsistent (λ t. text_eq t.slave_id slave) v h
Step-IsConsistent (refreshes v) h = h

-- However tabs are opened, closed and refreshed, in any order, the active tab is one of the open
-- tabs, and without an active tab none is open, if that holds at the start. `selectTab`, which nothing
-- in the page calls and which makes any id active, is not among these calls.
pub Reach-IsConsistent : {s t : View} → IsConsistent s → Reach s t → IsConsistent t
Reach-IsConsistent h here = h
Reach-IsConsistent h (next r st) = Step-IsConsistent st (Reach-IsConsistent h r)

pub none_kept :
    (test : Tab → Bool) (tabs : List Tab) → any test (keep (λ t. not (test t)) tabs) ≡ false
none_kept test [] = refl
none_kept test (t ∷ tabs) = elim (Bool-cases (test t)) [
  | inl closed ↦ rw closed (none_kept test tabs)
  | inr kept ↦ rw (kept, kept) (none_kept test tabs)
]

all_kept :
    (test : Tab → Bool) (tabs : List Tab)
    → any test tabs ≡ false
    → keep (λ t. not (test t)) tabs ≡ tabs
all_kept test [] h = refl
all_kept test (t ∷ tabs) h =
    let p : test t ≡ false = ground arith in rw p (ap (◌∷◌ t) (all_kept test tabs (ground arith)))

pub open_kept :
    (test : Tab → Bool) (v : View)
    → (close_where test v).open_tabs ≡ keep (λ t. not (test t)) v.open_tabs
unfolding close_where
open_kept test v = elim (Bool-cases (any test v.open_tabs)) [
  | inl closing ↦ rw closing
  | inr nothing ↦ rw nothing (sym (all_kept test v.open_tabs nothing))
]

others_kept :
    (a b : Text) (tabs : List Tab)
    → a ≢ b
    → any (λ t. text_eq t.slave_id b) (keep (λ t. not (text_eq t.slave_id a)) tabs)
      ≡ any (λ t. text_eq t.slave_id b) tabs
others_kept a b [] ne = refl
others_kept a b (t ∷ tabs) ne = elim (Bool-cases (text_eq t.slave_id a)) [
  | inr kept ↦ rw (kept, others_kept a b tabs ne)
  | inl closed ↦ elim (Bool-cases (text_eq t.slave_id b)) [
    | inl both ↦
        absurd (ne (sym ((text_eq_iff t.slave_id a).0 closed) ∙ (text_eq_iff t.slave_id b).0 both))
    | inr other ↦ rw (closed, other) (others_kept a b tabs ne)
  ]
]

-- After the tabs of a slave are closed none of them is open, and another slave has an open tab
-- exactly if it had one before.
pub close_tabs_by_slave_lem :
    (slave other : Text) (v : View)
    → slave ≢ other
    → (any (λ t. text_eq t.slave_id slave) (close_tabs_by_slave slave v).open_tabs ≡ false)
      × (any (λ t. text_eq t.slave_id other) (close_tabs_by_slave slave v).open_tabs
          ≡ any (λ t. text_eq t.slave_id other) v.open_tabs)
unfolding close_tabs_by_slave
close_tabs_by_slave_lem slave other v ne =
    let kept = open_kept (λ t. text_eq t.slave_id slave) v in
    (
      rw kept (none_kept (λ t. text_eq t.slave_id slave) v.open_tabs),
      rw kept (others_kept slave other v.open_tabs ne),
    )
