-- ===== src/Devices/Blocks.antt =====
-- What the form for register blocks sends.
use modbus_simulator_go.Base.{◌≤◌, ◌≡◌, true, false, trim, to_upper, is_empty, is_upper_hex, every}
use modbus_simulator_go.Devices.{parse_int}
use modbus_simulator_go.Devices.Page.{Page}
use modbus_simulator_go.Devices.Entry.{
  RegisterForm, Data, Sent, deletes, updates, creates, Answers, type_of, is_whole,
}

-- What is sent is what the fields say: the start address as `parseInt` reads it, the digits in upper
-- case, the names and the coefficients. The digits are hexadecimal, at least one, and a whole number
-- of units where the start address has a register type; the amplitude is a 16-bit number. The form
-- does not look at the start address itself: one that is missing or of no type is sent as it is.
abbrev pub IsOfForm : RegisterForm → Data → Type 0
IsOfForm form body =
    (body.start_addr ≡ parse_int form.reg_start_addr)
    × (body.hex_data ≡ to_upper (trim form.reg_hex_data))
    × (body.names ≡ form.reg_names)
    × (body.coefficients ≡ form.reg_coefficients)
    × (every is_upper_hex body.hex_data ≡ true)
    × (is_empty body.hex_data ≡ false)
    × (is_whole (type_of body.start_addr) body.hex_data ≡ true)
    × (body.jitter_amp ≤ 65535)

-- A block is deleted only where the digits were deleted and the user has confirmed it.
abbrev pub IsMeant : Answers → RegisterForm → Sent → Type 0
IsMeant answers form (deletes id) =
    (id ≡ form.reg_id) × (answers.confirmed ≡ true) × (is_empty (trim form.reg_hex_data) ≡ true)
IsMeant answers form (updates id body) = (id ≡ form.reg_id) × IsOfForm form body
IsMeant answers form (creates body) = (is_empty form.reg_id ≡ true) × IsOfForm form body
