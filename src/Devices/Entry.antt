-- ===== src/Devices/Entry.antt =====
-- The form for register blocks of app.js: `showAddRegister`, `showEditRegister` and the submission of
-- `registerForm`. A block is sent with the fields of `Block`; where `parseInt` finds no number, the
-- start address is none.
use modbus_simulator_go.Base.{
  ℕ, ◌%◌, Bool, true, false, not, ◌&&◌, Option, none, some, List, [], ◌∷◌, Text, codes, ◌++◌, trim,
  to_upper, is_empty, is_upper_hex, every, length, ltb, ◌==◌, if◌then◌else◌,
}
use modbus_simulator_go.Base.Digits.{is_digit, to_decimal, value}
use modbus_simulator_go.Address.{Register, RegType, get_reg_type, is_bit_type}
use modbus_simulator_go.Tree.{Node}
use modbus_simulator_go.Devices.{parse_int, save_failed}
use modbus_simulator_go.Devices.Page.{Page, after_register}

pub record RegisterForm : Type 0 where
  pub reg_id : Text
  pub reg_start_addr : Text
  pub reg_hex_data : Text
  pub reg_names : Text
  pub reg_coefficients : Text
  pub random_enabled : Bool
  pub jitter_amp : Text
  pub hex_error : Text
  pub jitter_error : Text

abbrev pub empty_form : RegisterForm
empty_form = record {
  reg_id = [];
  reg_start_addr = [];
  reg_hex_data = [];
  reg_names = [];
  reg_coefficients = [];
  random_enabled = false;
  jitter_amp = codes "5";
  hex_error = [];
  jitter_error = [];
}

-- `showEditRegister` on the register that the server sends, its names and coefficients as texts; the
-- lists that the code joins with commas are not modelled.
unfoldable pub show_edit_register : Register → RegisterForm
show_edit_register reg = record {
  reg_id = reg.id;
  reg_start_addr = to_decimal reg.start_addr;
  reg_hex_data = reg.hex_data;
  reg_names = reg.names;
  reg_coefficients = reg.coefficients;
  random_enabled = not (reg.jitter_amp == 0);
  jitter_amp = if reg.jitter_amp == 0 then codes "5" else to_decimal reg.jitter_amp;
  hex_error = [];
  jitter_error = [];
}

pub record Data : Type 0 where
  pub start_addr : Option ℕ
  pub hex_data : Text
  pub names : Text
  pub coefficients : Text
  pub jitter_amp : ℕ

pub data Sent : Type 0 where
  deletes : Text → Sent
  updates : Text → Data → Sent
  creates : Data → Sent

-- Whether the user confirms, and what the server answers: a reason for a refusal or none.
pub record Answers : Type 0 where
  pub confirmed : Bool
  pub refusal : Option Text
  pub tree : Option (List Node)

pub record Submitted : Type 0 where
  pub sent : List Sent
  pub form : RegisterForm
  pub page : Page
  pub shown : Option Text

abbrev pub type_of : Option ℕ → Option RegType
type_of none = none
type_of (some addr) = get_reg_type addr

-- The multiple of which the number of digits must be.
abbrev pub unit_length : RegType → ℕ
unit_length rt = if is_bit_type rt.fc then 2 else 4

abbrev pub is_whole : Option RegType → Text → Bool
is_whole none hex = true
is_whole (some rt) hex = length hex % unit_length rt == 0

abbrev pub length_hint : Option RegType → Text
length_hint none = []
length_hint (some rt) =
    if is_bit_type rt.fc then codes "长度不合法：线圈/离散输入需为 2 的倍数字符。" else codes "长度不合法：寄存器需为 4 的倍数字符。"

-- `/^\d+$/`
abbrev pub is_number : Text → Bool
is_number s = not (is_empty s) && every is_digit s

-- The amplitude, or the message on it.
unfoldable pub read_jitter : RegisterForm → Option Text × ℕ
read_jitter form =
    let raw = trim form.jitter_amp in
    if not form.random_enabled
    then (none, 0)
    else if not (is_number raw)
    then (some (codes "请输入 0-65535 的整数。"), 0)
    else if ltb 65535 (value 10 0 raw)
    then (some (codes "抖动范围必须在 0-65535 之间。"), 0)
    else (none, value 10 0 raw)

-- The message on the digits of a block that is not empty, or an empty one.
unfoldable pub hex_fault : Option RegType → Text → Text
hex_fault rt hex =
    if not (every is_upper_hex hex)
    then codes "只能输入 0-9、A-F。"
    else if is_whole rt hex
    then []
    else length_hint rt

module _ (answers : Answers) (page : Page) (slave_id : Text) where
  abbrev pub stopped : RegisterForm → Submitted
  stopped form = record { sent = []; form = form; page = page; shown = none }

  abbrev pub ended : List Sent → RegisterForm → Submitted
  ended sent form = record {
    sent = sent;
    form = form;
    page = after_register slave_id answers.tree page;
    shown = none;
  }

  -- A block whose digits were deleted is deleted, if the user confirms.
  unfoldable pub submit_empty : RegisterForm → Submitted
  submit_empty form =
      let warned = record form { hex_error = codes "清空并保存会删除该寄存器块。" } in
      if is_empty form.reg_id
      then stopped (record form { hex_error = codes "十六进制数据不能为空。" })
      else if not answers.confirmed
      then stopped warned
      else elim answers.refusal [
        | some reason ↦ record {
          sent = deletes form.reg_id ∷ [];
          form = record form { hex_error = codes "删除失败：" ++ reason };
          page = page;
          shown = none;
        }
        | none ↦ ended (deletes form.reg_id ∷ []) warned
      ]

  unfoldable pub send_data : RegisterForm → Data → Submitted
  send_data form body =
      let sent = (if is_empty form.reg_id then creates body else updates form.reg_id body) ∷ [] in
      elim answers.refusal [
        | some reason ↦ record {
          sent = sent;
          form = form;
          page = page;
          shown = some (save_failed reason);
        }
        | none ↦ ended sent form
      ]

  unfoldable pub submit_jitter : RegisterForm → Text → Option Text × ℕ → Submitted
  unfolding send_data
  submit_jitter form hex (some message, amp) = stopped (record form { jitter_error = message })
  submit_jitter form hex (none, amp) =
      send_data (record form { jitter_error = [] })
        (record {
          start_addr = parse_int form.reg_start_addr;
          hex_data = hex;
          names = form.reg_names;
          coefficients = form.reg_coefficients;
          jitter_amp = amp;
        })

  -- `registerForm.onsubmit`
  unfoldable pub submit_register_form : RegisterForm → Submitted
  unfolding submit_empty submit_jitter hex_fault read_jitter
  submit_register_form form =
      let hex = to_upper (trim form.reg_hex_data) in
      let fault = hex_fault (type_of (parse_int form.reg_start_addr)) hex in
      if is_empty hex
      then submit_empty form
      else if is_empty fault
      then submit_jitter (record form { hex_error = [] }) hex (read_jitter form)
      else stopped (record form { hex_error = fault })
