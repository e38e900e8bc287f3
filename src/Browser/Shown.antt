-- ===== src/Browser/Shown.antt =====
-- The register types that are shown below a device.
use modbus_simulator_go.Base.{
  ℕ, ◌+◌, ◌∙◌, ap, fun_ext, arith, ◌≡◌, refl, Bool, true, false, Bool-cases, inl, inr, Option, none,
  some, List, [], ◌∷◌, map, Text, find, any, ltb,
}
use modbus_simulator_go.Address.{
  Register, RegType, reg_types, points, count_points, add_to_counts, counts_after, first_reg_type,
}
use modbus_simulator_go.Tree.{Endpoint}
use modbus_simulator_go.Browser.{
  TypeNode, type_node, count_type, Element, create_endpoint_node, update_reg_type_counts,
  with_children,
}

abbrev pub type_of : Option TypeNode → Option RegType
type_of none = none
type_of (some t) = some t.reg_type

-- The loop that keeps all counts at once, against the count of one type.
add_to_counts_lem :
    (reg : Register) (regs : List Register) (counts : ℕ → ℕ) (fc : ℕ)
    → add_to_counts reg counts fc + count_points fc regs ≡ counts fc + count_points fc (reg ∷ regs)
unfolding add_to_counts count_points points
add_to_counts_lem reg regs counts fc = ground arith

counts_after_lem :
    (regs : List Register) (counts : ℕ → ℕ) (fc : ℕ)
    → counts_after regs counts fc ≡ counts fc + count_points fc regs
unfolding counts_after count_points
counts_after_lem [] counts fc = omega arith
counts_after_lem (reg ∷ regs) counts fc =
    counts_after_lem regs (add_to_counts reg counts) fc ∙ add_to_counts_lem reg regs counts fc

counts_after-zero :
    (regs : List Register) (fc : ℕ) → counts_after regs (λ k. 0) fc ≡ count_points fc regs
counts_after-zero regs fc = omega (arith, counts_after_lem regs (λ k. 0) fc)

-- The type that `openFirstRegTypeIfAny` finds, by the count of each type.
first_reg_type_lem :
    (regs : List Register)
    → first_reg_type regs ≡ find (λ (rt : RegType). ltb 0 (count_points rt.fc regs)) reg_types
unfolding first_reg_type
first_reg_type_lem regs =
    ap (λ (counts : ℕ → ℕ). find (λ (rt : RegType). ltb 0 (counts rt.fc)) reg_types)
      (fun_ext (counts_after-zero regs))

first_shown :
    (regs : List Register) (e : Endpoint) (types : List RegType)
    → type_of (find (λ (t : TypeNode). t.shown) (map (count_type regs) (map (type_node e) types)))
      ≡ find (λ (rt : RegType). ltb 0 (count_points rt.fc regs)) types
first_shown regs e [] = refl
first_shown regs e (rt ∷ types) = elim (Bool-cases (ltb 0 (count_points rt.fc regs))) [
  | inl shown ↦ rw shown refl
  | inr hidden ↦ rw hidden (first_shown regs e types)
]

with_children-type_nodes :
    (has : Bool) (e : Element) → (with_children has e).type_nodes ≡ e.type_nodes
with_children-type_nodes true e = refl
with_children-type_nodes false e = refl

with_children-has_children :
    (has : Bool) (e : Element) → (with_children has e).has_children ≡ some has
with_children-has_children true e = refl
with_children-has_children false e = refl

abbrev pub is_found : Option RegType → Bool
is_found none = false
is_found (some rt) = true

any-find :
    (regs : List Register) (e : Endpoint) (types : List RegType)
    → any (λ (t : TypeNode). t.shown) (map (count_type regs) (map (type_node e) types))
      ≡ is_found (find (λ (rt : RegType). ltb 0 (count_points rt.fc regs)) types)
any-find regs e [] = refl
any-find regs e (rt ∷ types) = elim (Bool-cases (ltb 0 (count_points rt.fc regs))) [
  | inl shown ↦ rw shown refl
  | inr hidden ↦ rw hidden (any-find regs e types)
]

-- The tab that a click on a device opens is that of the first register type that is shown below it,
-- and a device has no children exactly where none is shown and no tab is opened: the two functions
-- count the registers in loops of their own.
pub first_reg_type-update_reg_type_counts :
    (host : Text) (expanded : List Text) (e : Endpoint) (regs : List Register)
    → let el : Element = update_reg_type_counts regs (create_endpoint_node host expanded e) in
      (type_of (find (λ (t : TypeNode). t.shown) el.type_nodes) ≡ first_reg_type regs)
      × (el.has_children ≡ some (is_found (first_reg_type regs)))
unfolding update_reg_type_counts create_endpoint_node
first_reg_type-update_reg_type_counts host expanded e regs =
    let nodes : List TypeNode = map (count_type regs) (map (type_node e) reg_types) in
    let has : Bool = any (λ (t : TypeNode). t.shown) nodes in
    let el : Element = record (create_endpoint_node host expanded e) { type_nodes = nodes } in
    (
      rw (with_children-type_nodes has el, first_reg_type_lem regs) (first_shown regs e reg_types),
      rw (with_children-has_children has el, any-find regs e reg_types, first_reg_type_lem regs)
          refl,
    )
