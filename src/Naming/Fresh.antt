-- ===== src/Naming/Fresh.antt =====
-- The loops end, and what they return is not in use.
use modbus_simulator_go.Base.{
  ℕ, zero, suc, ◌+◌, ◌≤◌, ◌<◌, ◌≡◌, ◌≢◌, refl, sym, ap, ◌∙◌, inl, inr, Bool, true, false, some,
  List, [], ◌∷◌, ◌++◌, map, Text, text_eq, text_eq_iff, trim, length, if◌then◌else◌, All, arith,
  Bool-cases,
}
use modbus_simulator_go.Base.Digits.{to_decimal_injective}
use modbus_simulator_go.Naming.{
  search_free, has, numbered, free_index, named, factor, new_rule, next_private_import_rule_name,
  next_rule_name, max_port, get_next_port,
}

-- A list without the first occurrence of a name.
remove : Text → List Text → List Text
remove x [] = []
remove x (n ∷ ns) = if text_eq x n then ns else n ∷ remove x ns

length-remove :
    (x : Text) (ns : List Text) → has ns x ≡ true → length ns ≡ suc (length (remove x ns))
unfolding remove has
length-remove x [] h = cc
length-remove x (n ∷ ns) h = ground (arith, length-remove x ns)

pub text_eq-ne : (x y : Text) → x ≢ y → text_eq x y ≡ false
text_eq-ne x y ne = elim (Bool-cases (text_eq x y)) [
  | inl e ↦ absurd (ne ((text_eq_iff x y).0 e))
  | inr e ↦ e
]

has-remove : (x y : Text) (ns : List Text) → y ≢ x → has (remove x ns) y ≡ has ns y
unfolding remove has
has-remove x y [] ne = refl
has-remove x y (n ∷ ns) ne = elim (Bool-cases (text_eq x n)) [
  | inl same ↦ rw (same, text_eq-ne y n (λ e. ne (e ∙ sym ((text_eq_iff x n).0 same))))
  | inr other ↦ rw (other, has-remove x y ns ne)
]

prefix_injective : (p a b : Text) → p ++ a ≡ p ++ b → a ≡ b
prefix_injective [] a b e = e
prefix_injective (c ∷ p) a b e = prefix_injective p a b (cc)

pub numbered_injective : (p : Text) (i j : ℕ) → numbered p i ≡ numbered p j → i ≡ j
numbered_injective p i j e = to_decimal_injective i j (prefix_injective p _ _ e)

-- Two tests that agree from `index` on lead to the same result.
pub search_free_agree :
    (fuel : ℕ) (u v : ℕ → Bool) (index : ℕ)
    → ((i : ℕ) → index ≤ i → u i ≡ v i)
    → search_free fuel u index ≡ search_free fuel v index
unfolding search_free
search_free_agree zero u v index h = refl
search_free_agree (suc fuel) u v index h =
    rw (h index (omega arith), search_free_agree fuel u v (index + 1) (λ i q. h i (omega arith)))

-- Names for numbers, with no name for two of them.
module _ (name : ℕ → Text) (injective : (i j : ℕ) → name i ≡ name j → i ≡ j) where
  abbrev pub taken : List Text → ℕ → Bool
  taken names i = has names (name i)

  -- With more fuel than names in use the search finds a free index: a name in use is removed, and
  -- the later indices do not miss it.
  pub search_free_total :
      (fuel : ℕ) (names : List Text) (start : ℕ)
      → length names < fuel
      → (k : ℕ) × (search_free fuel (taken names) start ≡ some k)
        × (start ≤ k)
        × (taken names k ≡ false)
  unfolding search_free
  search_free_total zero names start h = absurd (omega arith)
  search_free_total (suc fuel) names start h = elim (Bool-cases (taken names start)) [
    | inr free ↦ (start, rw free, omega arith, free)
    | inl used ↦
        let fewer = remove (name start) names in
        let short = length-remove (name start) names used in
        let (k, found, later, free) = search_free_total fuel fewer (start + 1) (omega arith) in
        let agree : (i : ℕ) → start + 1 ≤ i → taken names i ≡ taken fewer i = λ i q. sym (
          has-remove (name start) (name i) names
            (λ e. absurd (omega (arith, injective i start e)))) in
        (
          k,
          rw (used, search_free_agree fuel (taken names) (taken fewer) (start + 1) agree) found,
          omega arith,
          agree k later ∙ free,
        )
  ]

-- The name for an imported rule exists, and no rule has it, blanks at its ends aside.
pub next_private_import_rule_name_fresh :
    (rule_names : List Text)
    → (name : Text) × (next_private_import_rule_name rule_names ≡ some name)
      × (has (map trim rule_names) name ≡ false)
unfolding next_private_import_rule_name free_index
next_private_import_rule_name_fresh rule_names =
    let (k, found, later, free) =
      search_free_total (numbered factor) (numbered_injective factor)
        (length (map trim rule_names) + 1) (map trim rule_names) 1 (omega arith) in
    (numbered factor k, ap (named factor) found, free)

-- The name for a new row exists, and no rule of the configuration has it.
pub next_rule_name_fresh :
    (rule_names : List Text)
    → (name : Text) × (next_rule_name rule_names ≡ some name) × (has rule_names name ≡ false)
unfolding next_rule_name free_index
next_rule_name_fresh rule_names =
    let (k, found, later, free) =
      search_free_total (numbered new_rule) (numbered_injective new_rule) (length rule_names + 1)
        rule_names (length rule_names + 1) (omega arith) in
    (numbered new_rule k, ap (named new_rule) found, free)

below_max : (ports : List ℕ) (m : ℕ) → max_port ports < m → All (λ p. p < m) ports
unfolding max_port
below_max [] m h = tt
below_max (p ∷ ports) m h = (omega arith, below_max ports m (omega arith))

-- The next port is higher than every port of the tree, so no connection has it.
pub get_next_port_fresh : (ports : List ℕ) → All (λ p. p < get_next_port ports) ports
unfolding get_next_port
get_next_port_fresh [] = tt
get_next_port_fresh (p ∷ ports) = below_max (p ∷ ports) (max_port (p ∷ ports) + 1) (omega arith)
