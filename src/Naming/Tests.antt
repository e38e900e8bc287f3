-- ===== src/Naming/Tests.antt =====
-- A run of the search for a name.
use modbus_simulator_go.Base.{List, ◌≡◌, refl, some, [], ◌∷◌, Text, codes, trim, text_eq}
use modbus_simulator_go.Base.Digits.{to_base}
use modbus_simulator_go.Naming.{next_private_import_rule_name, has, free_index, search_free}

abbrev names : List Text
names = codes "因子1" ∷ codes "因子3" ∷ []

second : next_private_import_rule_name names ≡ some (codes "因子2")
unfolding next_private_import_rule_name free_index search_free has trim to_base text_eq
second = refl
