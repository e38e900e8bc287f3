-- ===== src/Tree/Groups.antt =====
-- Grouping by category: `getGroupedEndpoints` and `groupPrivateConnections`.
use modbus_simulator_go.Base.{
  ◌≡◌, refl, ◌∙◌, inl, inr, Bool-cases, List, [], ◌∷◌, ◌++◌, append_assoc, append-nil, Text,
  text_eq, text_eq_iff, keep, arith, if◌then◌else◌,
}
use modbus_simulator_go.Tree.{
  Group, Endpoint, Connection, add_to_group, group_from, get_grouped_endpoints,
  group_private_connections, get_private_category_name,
}

module _ {A : Type 0} where
  abbrev pub in_category : Text → List (Group A) → List (Group A)
  in_category c groups = keep (λ g. text_eq g.category c) groups

  -- The groups of one category after one more item.
  abbrev pushed : Text → A → List (Group A) → List (Group A)
  pushed c x [] = record { category = c; items = x ∷ [] } ∷ []
  pushed c x (g ∷ groups) = record g { items = g.items ++ x ∷ [] } ∷ groups

  abbrev pushed_all : Text → List A → List (Group A) → List (Group A)
  pushed_all c [] groups = groups
  pushed_all c (x ∷ items) groups = pushed_all c items (pushed c x groups)

  -- No group without items, and one group with all of them otherwise.
  abbrev pub one_group : Text → List A → List (Group A)
  one_group c [] = []
  one_group c (x ∷ items) = record { category = c; items = x ∷ items } ∷ []

  in_category-add_to_group :
      (c k : Text) (x : A) (groups : List (Group A))
      → in_category c (add_to_group k x groups)
        ≡ (if text_eq k c then pushed c x (in_category c groups) else in_category c groups)
  unfolding add_to_group
  in_category-add_to_group c k x [] = ground (arith, text_eq_iff k c)
  in_category-add_to_group c k x (g ∷ groups) = ground (
    arith,
    text_eq_iff k c,
    text_eq_iff g.category k,
    text_eq_iff g.category c,
    in_category-add_to_group c k x groups,
  )

  in_category-group_from :
      (f : A → Text) (c : Text) (xs : List A) (groups : List (Group A))
      → in_category c (group_from f xs groups)
        ≡ pushed_all c (keep (λ x. text_eq (f x) c) xs) (in_category c groups)
  unfolding group_from
  in_category-group_from f c [] groups = refl
  in_category-group_from f c (x ∷ xs) groups = elim (Bool-cases (text_eq (f x) c)) [
    | inl same ↦
        in_category-group_from f c xs (add_to_group (f x) x groups)
        ∙ rw (in_category-add_to_group c (f x) x groups, same)
    | inr other ↦
        in_category-group_from f c xs (add_to_group (f x) x groups)
        ∙ rw (in_category-add_to_group c (f x) x groups, other)
  ]

  pushed_all_one :
      (c : Text) (before items : List A) (x : A)
      → pushed_all c items (one_group c (x ∷ before)) ≡ one_group c (x ∷ before ++ items)
  pushed_all_one c before [] x = rw (append-nil before)
  pushed_all_one c before (y ∷ items) x =
      pushed_all_one c (before ++ y ∷ []) items x ∙ rw (append_assoc before (y ∷ []) items)

  pushed_all_none : (c : Text) (items : List A) → pushed_all c items [] ≡ one_group c items
  pushed_all_none c [] = refl
  pushed_all_none c (x ∷ items) = pushed_all_one c [] items x

-- The groups of the device tree: for each category that some device has there is exactly one
-- group, which holds the devices of that category, all of them, in their order; and there is no
-- group of any other category.
pub get_grouped_endpoints_lem :
    (c : Text) (endpoints : List Endpoint)
    → in_category c (get_grouped_endpoints endpoints)
      ≡ one_group c (keep (λ e. text_eq e.category c) endpoints)
unfolding get_grouped_endpoints
get_grouped_endpoints_lem c endpoints =
    in_category-group_from (λ e. e.category) c endpoints [] ∙ pushed_all_none c _

-- The same for the groups of the private connections.
pub group_private_connections_lem :
    (c : Text) (nodes : List Connection)
    → in_category c (group_private_connections nodes)
      ≡ one_group c (keep (λ n. text_eq (get_private_category_name n.name) c) nodes)
unfolding group_private_connections
group_private_connections_lem c nodes =
    in_category-group_from (λ n. get_private_category_name n.name) c nodes [] ∙ pushed_all_none c _
