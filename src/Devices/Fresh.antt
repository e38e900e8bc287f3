-- ===== src/Devices/Fresh.antt =====
-- The name of a copied device is free.
use mathlib.Core.List.{reverse, reverse_aux-append}
use modbus_simulator_go.Base.{
  ℕ, ◌+◌, ◌≡◌, refl, ap, ◌∙◌, inl, inr, true, false, Bool-cases, none, some, List, [], ◌∷◌, ◌++◌,
  append_assoc, map, map-append, Text, codes, is_empty, is_space, trim, lower_char, to_lower,
  text_eq, text_eq_iff, any, any_append, every, length, length-map, arith,
}
use modbus_simulator_go.Base.Trim.{reverse_aux-solid, starts_solid, starts_solid-trim, trim_solid}
use modbus_simulator_go.Base.Digits.{is_digit, to_decimal, every-to_decimal, is_empty-to_decimal}
use modbus_simulator_go.Tree.{Slave, Node}
use modbus_simulator_go.Naming.{has, numbered}
use modbus_simulator_go.Naming.Fresh.{
  taken, search_free_total, search_free_agree, numbered_injective,
}
use modbus_simulator_go.Devices.{
  normalize_device_name, is_namesake, is_duplicate_device_name, base_name, copy_prefix, slaves_of,
  build_copy_device_name,
}

pub digit-solid : (c : ℕ) → is_digit c ≡ true → is_space c ≡ false
unfolding is_space
digit-solid c h = ground arith

lower_char-digit : (c : ℕ) → is_digit c ≡ true → lower_char c ≡ c
unfolding lower_char
lower_char-digit c h = ground arith

to_lower-digits : (s : Text) → every is_digit s ≡ true → to_lower s ≡ s
to_lower-digits [] h = refl
to_lower-digits (c ∷ s) h =
    rw (lower_char-digit c (ground arith), to_lower-digits s (ground arith)) refl

-- The last character of a text that ends with a number is no blank.
reverse-digits-solid :
    (p d : Text)
    → every is_digit d ≡ true
    → is_empty d ≡ false
    → starts_solid (reverse (p ++ d)) ≡ true
reverse-digits-solid p [] h k = cc
reverse-digits-solid p (c ∷ d) h k = rw (reverse_aux-append p (c ∷ d) []) (
    reverse_aux-solid is_digit digit-solid d (c ∷ reverse p) (ground arith)
      (rw (digit-solid c (ground arith)) refl))

-- A text with a solid start and a number at its end is trimmed already.
trim-numbered :
    (p : Text) (i : ℕ)
    → starts_solid (p ++ to_decimal i) ≡ true
    → trim (p ++ to_decimal i) ≡ p ++ to_decimal i
trim-numbered p i h =
    trim_solid (p ++ to_decimal i) h
      (reverse-digits-solid p (to_decimal i) (every-to_decimal i) (is_empty-to_decimal i))

starts_solid-append :
    (s t : Text) → is_empty s ≡ false → starts_solid s ≡ true → starts_solid (s ++ t) ≡ true
starts_solid-append [] t e h = cc
starts_solid-append (c ∷ s) t e h = h

base_name-solid : (name : Text) → starts_solid (base_name name) ≡ true
unfolding is_space
base_name-solid name = elim (Bool-cases (is_empty (trim name))) [
  | inl blank ↦ rw blank refl
  | inr given ↦ rw given (starts_solid-trim name)
]

is_empty-base_name : (name : Text) → is_empty (base_name name) ≡ false
is_empty-base_name name = elim (Bool-cases (is_empty (trim name))) [
  | inl blank ↦ rw blank refl
  | inr given ↦ rw given given
]

normalize-numbered :
    (name : Text) (i : ℕ)
    → normalize_device_name (copy_prefix name ++ to_decimal i)
      ≡ numbered (to_lower (copy_prefix name)) i
normalize-numbered name i =
    let solid : starts_solid (copy_prefix name ++ to_decimal i) ≡ true =
      rw (append_assoc (base_name name) (codes "_副本") (to_decimal i)) (
        starts_solid-append (base_name name) (codes "_副本" ++ to_decimal i) (is_empty-base_name name)
          (base_name-solid name)) in
    ap to_lower (trim-numbered (copy_prefix name) i solid)
    ∙ (map-append lower_char (copy_prefix name) (to_decimal i)
        ∙ rw (to_lower-digits (to_decimal i) (every-to_decimal i)) refl)

-- The names of the devices, as they are compared.
abbrev device_names : List Node → List Text
device_names tree = map (λ (s : Slave). normalize_device_name s.name) (slaves_of tree)

text_eq_sym : (a b : Text) → text_eq a b ≡ text_eq b a
text_eq_sym a b = ground (arith, text_eq_iff a b, text_eq_iff b a)

namesakes :
    (x : Text) (slaves : List Slave)
    → any (is_namesake none x) slaves
      ≡ has (map (λ (s : Slave). normalize_device_name s.name) slaves) x
unfolding has
namesakes x [] = refl
namesakes x (s ∷ slaves) =
    rw (text_eq_sym (normalize_device_name s.name) x, namesakes x slaves) refl

duplicates :
    (x : Text) (tree : List Node)
    → any (λ n. any (is_namesake none x) n.slaves) tree ≡ has (device_names tree) x
unfolding has
duplicates x [] = refl
duplicates x (n ∷ tree) =
    let key = λ (s : Slave). normalize_device_name s.name in
    rw
      (
        map-append key n.slaves (slaves_of tree),
        any_append (text_eq x) (map key n.slaves) (device_names tree),
        namesakes x n.slaves,
        duplicates x tree,
        has,
      )
      refl

is_empty-append : (s t : Text) → is_empty t ≡ false → is_empty (s ++ t) ≡ false
is_empty-append [] t h = h
is_empty-append (c ∷ s) t h = refl

-- A numbered name is a duplicate where the numbered text is among the names.
duplicate-taken :
    (tree : List Node) (name : Text) (i : ℕ)
    → is_duplicate_device_name tree (copy_prefix name ++ to_decimal i) none
      ≡ taken
          (numbered (to_lower (copy_prefix name)))
          (numbered_injective (to_lower (copy_prefix name)))
          (device_names tree)
          i
unfolding is_duplicate_device_name
duplicate-taken tree name i =
    rw
      (
        normalize-numbered name i,
        is_empty-append (to_lower (copy_prefix name)) (to_decimal i) (is_empty-to_decimal i),
      )
      (duplicates (numbered (to_lower (copy_prefix name)) i) tree)

-- The search for the name of a copy ends, and no device has the name that it gives, letter case and
-- blanks at its ends aside.
pub build_copy_device_name_fresh :
    (tree : List Node) (name : Text)
    → (copy : Text) × (build_copy_device_name tree name ≡ some copy)
      × (is_duplicate_device_name tree copy none ≡ false)
unfolding build_copy_device_name
build_copy_device_name_fresh tree name =
    elim (Bool-cases (is_duplicate_device_name tree (copy_prefix name) none)) [
      | inr free ↦ (copy_prefix name, rw free refl, free)
      | inl used ↦
          let p = to_lower (copy_prefix name) in
          let inj = numbered_injective p in
          let (k, found, later, free) =
            search_free_total (numbered p) inj (length (slaves_of tree) + 1) (device_names tree) 2 (
              omega (
                arith,
                length-map (slaves_of tree) (λ (s : Slave). normalize_device_name s.name),
              )) in
          (
            copy_prefix name ++ to_decimal k,
            rw
                (
                  used,
                  search_free_agree (length (slaves_of tree) + 1)
                      (λ i. is_duplicate_device_name tree (copy_prefix name ++ to_decimal i) none)
                      (taken (numbered p) inj (device_names tree)) 2
                      (λ i q. duplicate-taken tree name i),
                  found,
                )
                refl,
            duplicate-taken tree name k ∙ free,
          )
    ]
