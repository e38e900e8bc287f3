-- ===== src/Tree/Sort.antt =====
-- The order of the tree: `sort` keeps the items and puts them in order.
use Prim.Native.Nat.{Ordering, compare}
use mathlib.Core.List.{Perm}
use mathlib.Core.List.Perm
use modbus_simulator_go.Base.{
  ℕ, ◌+◌, ◌<◌, ◌⊎◌, ◌≡◌, refl, ap, ◌∙◌, inl, inr, Bool, true, false, Bool-cases, List, [], ◌∷◌,
  ◌++◌, Text, arith, if◌then◌else◌,
}
use modbus_simulator_go.Tree.{
  Connection, then_by, compare_private_connection_nodes, get_private_category_name,
  get_device_category_name, Slave, endpoints_of, Endpoint, Node, insert_sorted, sort_by, not_after,
  compare_endpoints, get_flattened_endpoints, flatten,
}

module _ {A : Type 0} (order : A → A → Ordering) where
  insert_sorted-perm : (a : A) (list : List A) → Perm (insert_sorted order a list) (a ∷ list)
  unfolding insert_sorted
  insert_sorted-perm a [] = Perm.refl _
  insert_sorted-perm a (b ∷ list) = elim (Bool-cases (not_after (order a b))) [
    | inl before ↦ rw before (Perm.refl _)
    | inr later ↦ rw later (Perm.trans (Perm.cons b (insert_sorted-perm a list)) (Perm.swap _ _ _))
  ]

  pub sort_by-perm : (list : List A) → Perm (sort_by order list) list
  unfolding sort_by
  sort_by-perm [] = Perm.refl _
  sort_by-perm (a ∷ list) =
      Perm.trans (insert_sorted-perm a (sort_by order list)) (Perm.cons a (sort_by-perm list))

  -- No item stands directly behind one that should follow it.
  abbrev pub IsOrdered : List A → Type 0
  IsOrdered [] = Unit
  IsOrdered (a ∷ []) = Unit
  IsOrdered (a ∷ b ∷ list) = (not_after (order a b) ≡ true) × IsOrdered (b ∷ list)

  module _ (total : (a b : A) → not_after (order a b) ≡ false → not_after (order b a) ≡ true) where
    insert_sorted-IsOrdered :
        (a : A) (list : List A) → IsOrdered list → IsOrdered (insert_sorted order a list)
    unfolding insert_sorted
    insert_sorted-IsOrdered a [] h = tt
    insert_sorted-IsOrdered a (b ∷ []) h = ground (arith, total a b)
    insert_sorted-IsOrdered a (b ∷ c ∷ list) h =
        ground (arith, total a b, insert_sorted-IsOrdered a (c ∷ list) h.1)

    pub sort_by-IsOrdered : (list : List A) → IsOrdered (sort_by order list)
    unfolding sort_by
    sort_by-IsOrdered [] = tt
    sort_by-IsOrdered (a ∷ list) =
        insert_sorted-IsOrdered a (sort_by order list) (sort_by-IsOrdered list)

-- The other way round.
abbrev pub flip : Ordering → Ordering
flip Ordering.lt = Ordering.gt
flip Ordering.eq = Ordering.eq
flip Ordering.gt = Ordering.lt

pub compare-flip : (m n : ℕ) → compare n m ≡ flip (compare m n)
compare-flip m n = ground arith

pub then_by-flip : (o p : Ordering) → flip (then_by o p) ≡ then_by (flip o) (flip p)
then_by-flip Ordering.lt p = refl
then_by-flip Ordering.eq p = refl
then_by-flip Ordering.gt p = refl

pub not_after-flip : (o : Ordering) → not_after o ≡ false → not_after (flip o) ≡ true
not_after-flip Ordering.lt h = cc
not_after-flip Ordering.eq h = cc
not_after-flip Ordering.gt h = refl

-- How many items pass a test.
abbrev pub count_that : {A : Type 0} → (A → Bool) → List A → ℕ
count_that test [] = 0
count_that test (a ∷ list) = (if test a then 1 else 0) + count_that test list

-- How many devices of a connection pass a test on endpoints, and how many of all connections.
abbrev pub count_slaves : (Endpoint → Bool) → Connection → List Slave → ℕ
count_slaves test connection [] = 0
count_slaves test connection (s ∷ slaves) =
    (if test
        (record { connection = connection; slave = s; category = get_device_category_name s.name })
      then 1
      else 0)
    + count_slaves test connection slaves

abbrev pub count_tree : (Endpoint → Bool) → List Node → ℕ
count_tree test [] = 0
count_tree test (node ∷ tree) = count_slaves test node.connection node.slaves + count_tree test tree

count_that-insert_sorted :
    {A : Type 0} (order : A → A → Ordering) (test : A → Bool) (a : A) (list : List A)
    → count_that test (insert_sorted order a list) ≡ count_that test (a ∷ list)
unfolding insert_sorted
count_that-insert_sorted order test a [] = refl
count_that-insert_sorted order test a (b ∷ list) =
    ground (arith, count_that-insert_sorted order test a list)

count_that-sort_by :
    {A : Type 0} (order : A → A → Ordering) (test : A → Bool) (list : List A)
    → count_that test (sort_by order list) ≡ count_that test list
unfolding sort_by
count_that-sort_by order test [] = refl
count_that-sort_by order test (a ∷ list) = omega (
  arith,
  count_that-insert_sorted order test a (sort_by order list),
  count_that-sort_by order test list,
)

count_that-append :
    {A : Type 0} (test : A → Bool) (xs ys : List A)
    → count_that test (xs ++ ys) ≡ count_that test xs + count_that test ys
count_that-append test [] ys = omega arith
count_that-append test (x ∷ xs) ys = omega (arith, count_that-append test xs ys)

count_that-endpoints_of :
    (test : Endpoint → Bool) (connection : Connection) (slaves : List Slave)
    → count_that test (endpoints_of (record { connection = connection; slaves = slaves }))
      ≡ count_slaves test connection slaves
unfolding endpoints_of
count_that-endpoints_of test connection [] = refl
count_that-endpoints_of test connection (s ∷ slaves) =
    omega (arith, count_that-endpoints_of test connection slaves)

count_that-flatten :
    (test : Endpoint → Bool) (tree : List Node)
    → count_that test (flatten tree) ≡ count_tree test tree
unfolding flatten
count_that-flatten test [] = refl
count_that-flatten test (node ∷ tree) =
    count_that-append test (endpoints_of node) (flatten tree)
    ∙ omega (
      arith,
      count_that-endpoints_of test node.connection node.slaves,
      count_that-flatten test tree,
    )

module _ (collate locale_compare : Text → Text → Ordering) where
  -- The name comes before, or it is equal and the port is lower, or that is equal too and the address
  -- is lower, or that is equal too and the id does not come behind.
  abbrev pub IsBefore : Endpoint → Endpoint → Type 0
  IsBefore a b =
      (collate a.slave.name b.slave.name ≡ Ordering.lt)
      ⊎ ((collate a.slave.name b.slave.name ≡ Ordering.eq)
          × ((a.connection.port < b.connection.port)
              ⊎ ((a.connection.port ≡ b.connection.port)
                  × ((a.slave.slave_addr < b.slave.slave_addr)
                      ⊎ ((a.slave.slave_addr ≡ b.slave.slave_addr)
                          × (not_after (locale_compare a.slave.id b.slave.id) ≡ true))))))

  -- Each endpoint comes before the one that stands directly behind it.
  abbrev pub AllBefore : List Endpoint → Type 0
  AllBefore [] = Unit
  AllBefore (a ∷ []) = Unit
  AllBefore (a ∷ b ∷ list) = IsBefore a b × AllBefore (b ∷ list)

  not_after-IsBefore :
      (a b : Endpoint)
      → not_after (compare_endpoints collate locale_compare a b) ≡ true
      → IsBefore a b
  unfolding compare_endpoints
  not_after-IsBefore a b h = ground arith

  IsOrdered-AllBefore :
      (list : List Endpoint)
      → IsOrdered (compare_endpoints collate locale_compare) list
      → AllBefore list
  IsOrdered-AllBefore [] h = tt
  IsOrdered-AllBefore (a ∷ []) h = tt
  IsOrdered-AllBefore (a ∷ b ∷ list) h =
      (not_after-IsBefore a b h.0, IsOrdered-AllBefore (b ∷ list) h.1)

module _ (collate locale_compare : Text → Text → Ordering)
    (collate_flip : (a b : Text) → collate b a ≡ flip (collate a b))
    (locale_flip : (a b : Text) → locale_compare b a ≡ flip (locale_compare a b)) where
  compare_endpoints-flip :
      (a b : Endpoint)
      → compare_endpoints collate locale_compare b a
        ≡ flip (compare_endpoints collate locale_compare a b)
  unfolding compare_endpoints
  compare_endpoints-flip a b = rw (
    collate_flip a.slave.name b.slave.name,
    compare-flip a.connection.port b.connection.port,
    compare-flip a.slave.slave_addr b.slave.slave_addr,
    locale_flip a.slave.id b.slave.id,
    then_by-flip,
    then_by-flip,
    then_by-flip,
  )

  compare_private_connection_nodes-flip :
      (a b : Connection)
      → compare_private_connection_nodes collate locale_compare b a
        ≡ flip (compare_private_connection_nodes collate locale_compare a b)
  unfolding compare_private_connection_nodes
  compare_private_connection_nodes-flip a b = rw (
    collate_flip (get_private_category_name a.name) (get_private_category_name b.name),
    collate_flip a.name b.name,
    compare-flip a.port b.port,
    locale_flip a.id b.id,
    then_by-flip,
    then_by-flip,
    then_by-flip,
  )

  -- Where the two comparisons of texts change sign with their arguments, each endpoint of the tree
  -- comes before the one directly behind it, by name, then by port, then by address, then by id; and
  -- for every test there are as many endpoints that pass as there are devices of the connections that
  -- pass with their connection and category, so that none is lost, added or doubled.
  pub get_flattened_endpoints_lem :
      (tree : List Node) (test : Endpoint → Bool)
      → AllBefore collate locale_compare (get_flattened_endpoints collate locale_compare tree)
        × (count_that test (get_flattened_endpoints collate locale_compare tree)
            ≡ count_tree test tree)
  unfolding get_flattened_endpoints
  get_flattened_endpoints_lem tree test = (
    IsOrdered-AllBefore collate locale_compare _ (
        sort_by-IsOrdered (compare_endpoints collate locale_compare)
          (λ a b h. ap not_after (compare_endpoints-flip a b) ∙ not_after-flip _ h) (flatten tree)),
    count_that-sort_by (compare_endpoints collate locale_compare) test (flatten tree)
        ∙ count_that-flatten test tree,
  )
