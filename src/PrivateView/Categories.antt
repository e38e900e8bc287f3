-- ===== src/PrivateView/Categories.antt =====
-- Which categories of the private tree are open.
use modbus_simulator_go.Base.{
  ◌≡◌, refl, sym, ap, ◌∙◌, inl, inr, Bool, true, false, not, Bool-cases, List, [], ◌∷◌, Text,
  text_eq, text_eq_iff, any, if◌then◌else◌, Option,
}
use modbus_simulator_go.Base.Dict.{contains, add, contains-add, contains-erase}
use modbus_simulator_go.Tree.{Connection, Group, group_private_connections}
use modbus_simulator_go.Drafts.{State, Config}
use modbus_simulator_go.PrivateView.{Sets, note_groups, toggle_category, render_private_tree}

-- What the user does: the tree of a state is drawn, or a category is clicked.
pub data Event : Type 0 where
  draws : State → Event
  clicks : Text → Event

module _ (host : Text) (config_of : Text → Option Config) where
  -- A click draws the tree again.
  abbrev pub happen : State → Event → Sets → Sets
  happen s (draws t) v = (render_private_tree host config_of t v).1
  happen s (clicks category) v =
      (render_private_tree host config_of s (toggle_category category v)).1

  abbrev pub shown_state : State → Event → State
  shown_state s (draws t) = t
  shown_state s (clicks category) = s

  -- The sets after events, of which the first finds the tree of a state.
  abbrev pub all_happen : State → List Event → Sets → Sets
  all_happen s [] v = v
  all_happen s (e ∷ events) v = all_happen (shown_state s e) events (happen s e v)

-- One category on its own: whether it was seen, and whether it is open.
pub record Seen : Type 0 where
  pub known : Bool
  pub expanded : Bool

abbrev pub has_category : Text → State → Bool
has_category c s =
    any (λ (g : Group Connection). text_eq g.category c) (group_private_connections s.private_tree)

-- A category that is shown for the first time opens.
abbrev pub shown_once : Bool → Seen → Seen
shown_once true v = record { known = true; expanded = if v.known then v.expanded else true }
shown_once false v = v

abbrev pub flipped : Bool → Seen → Seen
flipped true v = record v { expanded = not v.expanded }
flipped false v = v

abbrev pub follow : Text → State → Event → Seen → Seen
follow c s (draws t) v = shown_once (has_category c t) v
follow c s (clicks d) v = shown_once (has_category c s) (flipped (text_eq d c) v)

abbrev pub follow_all : Text → State → List Event → Seen → Seen
follow_all c s [] v = v
follow_all c s (draws t ∷ events) v = follow_all c t events (follow c s (draws t) v)
follow_all c s (clicks d ∷ events) v = follow_all c s events (follow c s (clicks d) v)

abbrev pub seen : Text → Sets → Seen
seen c v = record {
  known = contains c v.known_categories;
  expanded = contains c v.expanded_categories;
}

abbrev has_group : Text → List (Group Connection) → Bool
has_group c groups = any (λ (g : Group Connection). text_eq g.category c) groups

-- The sets after one group.
abbrev note_one : Group Connection → Sets → Sets
note_one group v = if contains group.category v.known_categories then v else record {
  known_categories = add group.category v.known_categories;
  expanded_categories = add group.category v.expanded_categories;
}

seen-note_one :
    (c : Text) (g : Group Connection) (v : Sets)
    → seen c (note_one g v) ≡ shown_once (text_eq g.category c) (seen c v)
seen-note_one c g v = elim (Bool-cases (contains g.category v.known_categories)) [
  | inl old ↦ elim (Bool-cases (text_eq g.category c)) [
    | inl same ↦
        let there : contains c v.known_categories ≡ true =
          ap (λ t. contains t v.known_categories) (sym ((text_eq_iff g.category c).0 same)) ∙ old in
        rw (old, same, there) refl
    | inr other ↦ rw (old, other) refl
  ]
  | inr fresh ↦ elim (Bool-cases (text_eq g.category c)) [
    | inl same ↦
        let absent : contains c v.known_categories ≡ false =
          ap (λ t. contains t v.known_categories) (sym ((text_eq_iff g.category c).0 same))
          ∙ fresh in
        rw
          (
            fresh,
            contains-add g.category c v.known_categories,
            contains-add g.category c v.expanded_categories,
            same,
            absent,
          )
          refl
    | inr other ↦
        rw
          (
            fresh,
            contains-add g.category c v.known_categories,
            contains-add g.category c v.expanded_categories,
            other,
          )
          refl
  ]
]

shown_once-shown_once : (v : Seen) (b : Bool) → shown_once b (shown_once true v) ≡ shown_once true v
shown_once-shown_once v true = refl
shown_once-shown_once v false = refl

seen-note_groups :
    (c : Text) (groups : List (Group Connection)) (v : Sets)
    → seen c (note_groups groups v) ≡ shown_once (has_group c groups) (seen c v)
unfolding note_groups
seen-note_groups c [] v = refl
seen-note_groups c (g ∷ groups) v =
    let rest = seen-note_groups c groups (note_one g v) in
    let first = seen-note_one c g v in
    elim (Bool-cases (text_eq g.category c)) [
      | inl same ↦
          let first' : seen c (note_one g v) ≡ shown_once true (seen c v) =
            first ∙ ap (λ b. shown_once b (seen c v)) same in
          rw same (
            rest
            ∙ ap (shown_once (has_group c groups)) first'
            ∙ shown_once-shown_once (seen c v) (has_group c groups))
      | inr other ↦
          let first' : seen c (note_one g v) ≡ seen c v =
            first ∙ ap (λ b. shown_once b (seen c v)) other in
          rw other (rest ∙ ap (shown_once (has_group c groups)) first')
    ]

seen-toggle_category :
    (c d : Text) (v : Sets) → seen c (toggle_category d v) ≡ flipped (text_eq d c) (seen c v)
unfolding toggle_category
seen-toggle_category c d v = elim (Bool-cases (text_eq d c)) [
  | inl same ↦
      let eq : d ≡ c = (text_eq_iff d c).0 same in
      elim (Bool-cases (contains d v.expanded_categories)) [
        | inl opened ↦
            let opened' : contains c v.expanded_categories ≡ true =
              ap (λ t. contains t v.expanded_categories) (sym eq) ∙ opened in
            rw (opened, contains-erase d c v.expanded_categories, same, opened') refl
        | inr closed ↦
            let closed' : contains c v.expanded_categories ≡ false =
              ap (λ t. contains t v.expanded_categories) (sym eq) ∙ closed in
            rw (closed, contains-add d c v.expanded_categories, same, closed') refl
      ]
  | inr other ↦ elim (Bool-cases (contains d v.expanded_categories)) [
    | inl opened ↦ rw (opened, contains-erase d c v.expanded_categories, other) refl
    | inr closed ↦ rw (closed, contains-add d c v.expanded_categories, other) refl
  ]
]

-- The two sets of categories refine one switch for each category: over any drawings of the tree and
-- any clicks, a category opens when it is shown for the first time, turns over with each click on it,
-- and is otherwise kept, also while it is not shown.
pub seen-all_happen :
    (host : Text) (config_of : Text → Option Config) (c : Text) (s : State) (events : List Event)
    (v : Sets)
    → seen c (all_happen host config_of s events v) ≡ follow_all c s events (seen c v)
unfolding render_private_tree
seen-all_happen host config_of c s [] v = refl
seen-all_happen host config_of c s (draws t ∷ events) v =
    seen-all_happen host config_of c t events (happen host config_of s (draws t) v)
    ∙ ap (follow_all c t events) (seen-note_groups c (group_private_connections t.private_tree) v)
seen-all_happen host config_of c s (clicks d ∷ events) v =
    seen-all_happen host config_of c s events (happen host config_of s (clicks d) v)
    ∙ ap (follow_all c s events) (
        seen-note_groups c (group_private_connections s.private_tree) (toggle_category d v)
        ∙ ap (shown_once (has_category c s)) (seen-toggle_category c d v))
