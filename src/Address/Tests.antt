-- ===== src/Address/Tests.antt =====
-- Runs of the address helpers, and the theorems at concrete inputs.
use modbus_simulator_go.Base.{◌≡◌, refl, some, arith, codes}
use modbus_simulator_go.Address.{
  discrete_inputs, holding_registers, get_reg_type, get_logical_start, format_hex_addr,
  format_slave_addr,
}
use modbus_simulator_go.Base.Digits.{to_base}
use modbus_simulator_go.Address.Ranges.{get_reg_type_overflow}

sample_hex : format_hex_addr 40256 3 ≡ codes "0100"
unfolding format_hex_addr to_base
sample_hex = refl

sample_slave : format_slave_addr 7 ≡ codes "07"
unfolding format_slave_addr to_base
sample_slave = refl

get_reg_type_overflow_example :
    (get_reg_type (get_logical_start 1 10000) ≡ some discrete_inputs)
    × (get_reg_type (get_logical_start 4 10000) ≡ some holding_registers)
get_reg_type_overflow_example = get_reg_type_overflow 10000 (omega arith) (omega arith)
