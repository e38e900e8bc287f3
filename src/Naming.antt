-- ===== src/Naming.antt =====
-- Names and ports that the front end makes up: `nextPrivateImportRuleName` and `getNextPort` of
-- app.js, `nextRuleName` and `getNextPrivatePort` of private_protocol.js. A `while` loop over an
-- index has fuel, one more than the number of names in use.
pub mod Fresh
mod Tests
use modbus_simulator_go.Base.{
  ℕ, zero, suc, ◌+◌, Bool, Option, none, some, List, [], ◌∷◌, ◌++◌, map, Text, codes, text_eq, trim,
  any, length, max, if◌then◌else◌, ◌==◌, keep, not,
}
use modbus_simulator_go.Base.Digits.{to_decimal}

-- `while (used(index)) index++`
unfoldable pub search_free : ℕ → (ℕ → Bool) → ℕ → Option ℕ
search_free zero used index = none
search_free (suc fuel) used index =
    let rest = search_free fuel used (index + 1) in if used index then rest else some index

-- `names.has(name)`
unfoldable pub has : List Text → Text → Bool
has names name = any (text_eq name) names

-- A prefix and a number, as in `因子${index}`.
abbrev pub numbered : Text → ℕ → Text
numbered prefix index = prefix ++ to_decimal index

unfoldable pub free_index : Text → List Text → ℕ → Option ℕ
free_index prefix names start =
    search_free (length names + 1) (λ i. has names (numbered prefix i)) start

abbrev pub named : Text → Option ℕ → Option Text
named prefix none = none
named prefix (some i) = some (numbered prefix i)

abbrev pub factor : Text
factor = codes "因子"

abbrev pub new_rule : Text
new_rule = codes "新规则"

-- The argument holds the names of the rules; a missing name is an empty one.
unfoldable pub next_private_import_rule_name : List Text → Option Text
next_private_import_rule_name rule_names = named factor (free_index factor (map trim rule_names) 1)

unfoldable pub next_rule_name : List Text → Option Text
next_rule_name rule_names = named new_rule (free_index new_rule rule_names (length rule_names + 1))

-- `Math.max(...ports)`
unfoldable pub max_port : List ℕ → ℕ
max_port [] = 0
max_port (p ∷ ports) = max p (max_port ports)

-- The ports of the device tree.
unfoldable pub get_next_port : List ℕ → ℕ
get_next_port [] = 1502
get_next_port (p ∷ ports) = max_port (p ∷ ports) + 1

abbrev next_behind : List ℕ → ℕ
next_behind [] = 2502
next_behind (p ∷ ports) = max_port (p ∷ ports) + 1

-- Ports that are 0 or missing are left out.
unfoldable pub get_next_private_port : List ℕ → ℕ
get_next_private_port ports = next_behind (keep (λ p. not (p == 0)) ports)
