-- ===== src/Browser/Faithful.antt =====
-- The nodes of the tree that are open against the set `expandedNodes`.
use mathlib.Core.Bool.{not-not}
use mathlib.Core.Option.{some-injective}
use modbus_simulator_go.Base.{
  ℕ, zero, suc, ◌≡◌, refl, sym, ap, ◌∙◌, Bool, true, false, not, subst, Option, none, some, List,
  [], ◌∷◌, Text, text_eq, text_eq_iff, get_elem?, set, any, All, arith, map,
}
use modbus_simulator_go.Base.Dict.{contains, contains-add, contains-erase}
use modbus_simulator_go.Address.{Register}
use modbus_simulator_go.Browser.{
  TypeNode, Element, with_children, flip_node, toggle_as, count_type, update_reg_type_counts,
  toggle_node,
}

-- A node without children is closed and has no sign; every other node is open exactly where the set
-- has it, and its sign says so.
abbrev pub IsOpenAs : List Text → Element → Option Bool → Type 0
IsOpenAs expanded e (some false) =
    (e.collapsed ≡ true) × (e.glyph ≡ false) × (e.is_expanded ≡ false)
IsOpenAs expanded e _ =
    (e.collapsed ≡ not (contains e.node_id expanded))
    × (e.glyph ≡ true)
    × (e.is_expanded ≡ contains e.node_id expanded)

abbrev pub IsFaithful : List Text → Element → Type 0
IsFaithful expanded e = IsOpenAs expanded e e.has_children

-- No node has the id.
abbrev pub Differ : Text → List Element → Type 0
Differ id elements = All (λ (f : Element). text_eq id f.node_id ≡ false) elements

-- No two nodes have one id.
abbrev pub AreDistinct : List Element → Type 0
AreDistinct [] = Unit
AreDistinct (e ∷ elements) = Differ e.node_id elements × AreDistinct elements

with_children-IsFaithful :
    (expanded : List Text) (has : Bool) (e : Element)
    → IsOpenAs expanded e none
    → IsFaithful expanded (with_children has e)
with_children-IsFaithful expanded true e (c, g, x) = (c, refl, ap not c ∙ not-not _)
with_children-IsFaithful expanded false e h = (refl, refl, refl)

pub update_reg_type_counts-IsFaithful :
    (expanded : List Text) (regs : List Register) (e : Element)
    → IsOpenAs expanded e none
    → IsFaithful expanded (update_reg_type_counts regs e)
unfolding update_reg_type_counts
update_reg_type_counts-IsFaithful expanded regs e h =
    let nodes : List TypeNode = map (count_type regs) e.type_nodes in
    with_children-IsFaithful expanded (any (λ (t : TypeNode). t.shown) nodes)
      (record e { type_nodes = nodes }) h

self_eq : (t : Text) → text_eq t t ≡ true
self_eq t = (text_eq_iff t t).1 refl

-- What a set with one id more, or one less, says of a node.
flip_node-IsOpenAs :
    (expanded : List Text) (e : Element) (c : Bool)
    → IsOpenAs (flip_node expanded e c).1 (flip_node expanded e c).0 none
flip_node-IsOpenAs expanded e true =
    rw (contains-add e.node_id e.node_id expanded, self_eq e.node_id) (refl, refl, refl)
flip_node-IsOpenAs expanded e false =
    rw (contains-erase e.node_id e.node_id expanded, self_eq e.node_id) (refl, refl, refl)

module _ (expanded : List Text) (e : Element) where
  flip_node-keeps :
      (c : Bool)
      → ((flip_node expanded e c).0.has_children ≡ e.has_children)
        × ((flip_node expanded e c).0.node_id ≡ e.node_id)
  flip_node-keeps true = (refl, refl)
  flip_node-keeps false = (refl, refl)

  flip_node-others :
      (c : Bool) (id : Text)
      → text_eq e.node_id id ≡ false
      → contains id (flip_node expanded e c).1 ≡ contains id expanded
  flip_node-others true id other = contains-add e.node_id id expanded ∙ rw other refl
  flip_node-others false id other = contains-erase e.node_id id expanded ∙ rw other refl

  toggle_as-IsFaithful :
      (has : Option Bool)
      → e.has_children ≡ has
      → IsOpenAs expanded e has
      → IsFaithful (toggle_as expanded e has).1 (toggle_as expanded e has).0
  toggle_as-IsFaithful (some false) is h = rw (IsOpenAs, is) (h.0, refl, h.2)
  toggle_as-IsFaithful (some true) is h =
      subst (IsOpenAs (flip_node expanded e e.collapsed).1 (flip_node expanded e e.collapsed).0)
        (sym ((flip_node-keeps e.collapsed).0 ∙ is)) (flip_node-IsOpenAs expanded e e.collapsed)
  toggle_as-IsFaithful none is h =
      subst (IsOpenAs (flip_node expanded e e.collapsed).1 (flip_node expanded e e.collapsed).0)
        (sym ((flip_node-keeps e.collapsed).0 ∙ is)) (flip_node-IsOpenAs expanded e e.collapsed)

  toggle_as-others :
      (has : Option Bool) (id : Text)
      → text_eq e.node_id id ≡ false
      → contains id (toggle_as expanded e has).1 ≡ contains id expanded
  toggle_as-others (some false) id other = refl
  toggle_as-others (some true) id other = flip_node-others e.collapsed id other
  toggle_as-others none id other = flip_node-others e.collapsed id other

  toggle_as-node_id : (has : Option Bool) → (toggle_as expanded e has).0.node_id ≡ e.node_id
  toggle_as-node_id (some false) = refl
  toggle_as-node_id (some true) = (flip_node-keeps e.collapsed).1
  toggle_as-node_id none = (flip_node-keeps e.collapsed).1

-- A set that says the same of a node.
IsOpenAs-same :
    (ex ex' : List Text) (f : Element) (has : Option Bool)
    → contains f.node_id ex' ≡ contains f.node_id ex
    → IsOpenAs ex f has
    → IsOpenAs ex' f has
IsOpenAs-same ex ex' f (some false) same h = h
IsOpenAs-same ex ex' f (some true) same h = rw (IsOpenAs, same) h
IsOpenAs-same ex ex' f none same h = rw (IsOpenAs, same) h

-- Other nodes than the one that is toggled.
All-others :
    (expanded : List Text) (e : Element) (elements : List Element)
    → Differ e.node_id elements
    → All (IsFaithful expanded) elements
    → All (IsFaithful (toggle_node expanded e).1) elements
unfolding toggle_node
All-others expanded e [] d h = tt
All-others expanded e (f ∷ elements) (d, ds) (h, hs) = (
  IsOpenAs-same expanded (toggle_as expanded e e.has_children).1 f f.has_children
      (toggle_as-others expanded e e.has_children f.node_id d) h,
  All-others expanded e elements ds hs,
)

text_eq-swap : (a b : Text) → text_eq a b ≡ false → text_eq b a ≡ false
text_eq-swap a b h = ground (arith, text_eq_iff a b, text_eq_iff b a)

member-differs :
    (f : Element) (elements : List Element) (i : ℕ) (e : Element)
    → get_elem? elements i ≡ some e
    → Differ f.node_id elements
    → text_eq f.node_id e.node_id ≡ false
member-differs f [] i e at d = cc
member-differs f (g ∷ elements) zero e at d = rw (sym (some-injective g e at)) d.0
member-differs f (g ∷ elements) (suc i) e at d = member-differs f elements i e at d.1

set-Differ :
    (id : Text) (elements : List Element) (i : ℕ) (e' : Element)
    → text_eq id e'.node_id ≡ false
    → Differ id elements
    → Differ id (set elements i e')
set-Differ id [] i e' h d = tt
set-Differ id (g ∷ elements) zero e' h d = (h, d.1)
set-Differ id (g ∷ elements) (suc i) e' h d = (d.0, set-Differ id elements i e' h d.1)

module _ (expanded : List Text) where
  pub set-AreDistinct :
      (elements : List Element) (i : ℕ) (e : Element)
      → get_elem? elements i ≡ some e
      → AreDistinct elements
      → AreDistinct (set elements i (toggle_node expanded e).0)
  unfolding toggle_node
  set-AreDistinct [] i e at d = tt
  set-AreDistinct (f ∷ elements) zero e at (d, ds) =
      let same : (toggle_as expanded e e.has_children).0.node_id ≡ f.node_id =
        toggle_as-node_id expanded e e.has_children
        ∙ ap (λ (g : Element). g.node_id) (sym (some-injective f e at)) in
      (subst (λ id. Differ id elements) (sym same) d, ds)
  set-AreDistinct (f ∷ elements) (suc i) e at (d, ds) = (
    set-Differ f.node_id elements i (toggle_as expanded e e.has_children).0
        (rw (toggle_as-node_id expanded e e.has_children) (member-differs f elements i e at d)) d,
    set-AreDistinct elements i e at ds,
  )

  pub set-AllFaithful :
      (elements : List Element) (i : ℕ) (e : Element)
      → get_elem? elements i ≡ some e
      → AreDistinct elements
      → All (IsFaithful expanded) elements
      → All (IsFaithful (toggle_node expanded e).1) (set elements i (toggle_node expanded e).0)
  unfolding toggle_node
  set-AllFaithful [] i e at d h = tt
  set-AllFaithful (f ∷ elements) zero e at (d, ds) (h, hs) =
      let same : f ≡ e = some-injective f e at in
      (
        toggle_as-IsFaithful expanded e e.has_children refl (subst (IsFaithful expanded) same h),
        All-others expanded e elements (subst (λ (g : Element). Differ g.node_id elements) same d)
            hs,
      )
  set-AllFaithful (f ∷ elements) (suc i) e at (d, ds) (h, hs) = (
    IsOpenAs-same expanded (toggle_as expanded e e.has_children).1 f f.has_children
        (toggle_as-others expanded e e.has_children f.node_id
          (text_eq-swap f.node_id e.node_id (member-differs f elements i e at d)))
        h,
    set-AllFaithful elements i e at ds hs,
  )
