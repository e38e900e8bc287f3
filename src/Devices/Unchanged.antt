-- ===== src/Devices/Unchanged.antt =====
-- A register block that is shown in the form and saved.
use modbus_simulator_go.Base.{
  ℕ, ◌≤◌, ◌≡◌, refl, sym, ap, inl, inr, true, false, Bool-cases, Option-cases, Option, none, some,
  [], ◌∷◌, Text, upper_char, to_upper, is_empty, is_space, is_upper_hex, every, ltb, ◌==◌, arith,
}
use modbus_simulator_go.Base.Trim.{trim-every, starts_solid-every, solid-trim_start}
use modbus_simulator_go.Base.Digits.{
  is_digit, to_decimal, value, value-to_base, every-to_decimal, is_empty-to_decimal,
}
use modbus_simulator_go.Address.{Register, RegType, get_reg_type}
use modbus_simulator_go.Devices.{leading_digits, decimal, parse_int}
use modbus_simulator_go.Devices.Fresh.{digit-solid}
use modbus_simulator_go.Devices.Page.{Page}
use modbus_simulator_go.Devices.Entry.{
  RegisterForm, show_edit_register, Data, updates, Answers, is_whole, read_jitter, hex_fault,
  send_data, submit_jitter, submit_register_form,
}

hex-solid : (c : ℕ) → is_upper_hex c ≡ true → is_space c ≡ false
unfolding is_space is_upper_hex
hex-solid c h = ground arith

upper_char-hex : (c : ℕ) → is_upper_hex c ≡ true → upper_char c ≡ c
unfolding upper_char is_upper_hex
upper_char-hex c h = ground arith

to_upper-hex : (s : Text) → every is_upper_hex s ≡ true → to_upper s ≡ s
to_upper-hex [] h = refl
to_upper-hex (c ∷ s) h = rw (upper_char-hex c (ground arith), to_upper-hex s (ground arith)) refl

leading_digits-every : (s : Text) → every is_digit s ≡ true → leading_digits s ≡ s
leading_digits-every [] h = refl
leading_digits-every (c ∷ s) h =
    let first : is_digit c ≡ true = ground arith in
    rw (first, leading_digits-every s (ground arith)) refl

decimal_lem : (s : Text) → is_empty s ≡ false → decimal s ≡ some (value 10 0 s)
decimal_lem [] h = cc
decimal_lem (c ∷ s) h = refl

-- A number that is written is read back.
pub parse_int-to_decimal : (n : ℕ) → parse_int (to_decimal n) ≡ some n
unfolding parse_int
parse_int-to_decimal n =
    rw
      (
        solid-trim_start (to_decimal n)
            (starts_solid-every is_digit digit-solid (to_decimal n) (every-to_decimal n)),
        leading_digits-every (to_decimal n) (every-to_decimal n),
        decimal_lem (to_decimal n) (is_empty-to_decimal n),
        value-to_base 10 n (omega arith) (omega arith),
      )
      refl

read_jitter-show_edit_register :
    (reg : Register)
    → reg.jitter_amp ≤ 65535
    → read_jitter (show_edit_register reg) ≡ (none, reg.jitter_amp)
unfolding read_jitter show_edit_register
read_jitter-show_edit_register reg low = elim (Bool-cases (reg.jitter_amp == 0)) [
  | inl off ↦
      let none_set : reg.jitter_amp ≡ 0 = ground arith in
      rw off (ap (λ n. (none, n)) (sym none_set))
  | inr on ↦
      let small : ltb 65535 reg.jitter_amp ≡ false = ground arith in
      rw
        (
          on,
          trim-every is_digit digit-solid (to_decimal reg.jitter_amp)
              (every-to_decimal reg.jitter_amp),
          is_empty-to_decimal reg.jitter_amp,
          every-to_decimal reg.jitter_amp,
          value-to_base 10 reg.jitter_amp (omega arith) (omega arith),
          small,
        )
        refl
]

hex_fault_whole :
    (rt : Option RegType) (hex : Text)
    → every is_upper_hex hex ≡ true
    → is_whole rt hex ≡ true
    → hex_fault rt hex ≡ []
unfolding hex_fault
hex_fault_whole rt hex upper whole = rw (upper, whole) refl

-- The block as the form sends it.
abbrev pub body_of : Register → Data
body_of reg = record {
  start_addr = some reg.start_addr;
  hex_data = reg.hex_data;
  names = reg.names;
  coefficients = reg.coefficients;
  jitter_amp = reg.jitter_amp;
}

saved :
    (answers : Answers) (page : Page) (slave_id : Text) (form : RegisterForm) (hex : Text)
    (amp addr : ℕ)
    → is_empty form.reg_id ≡ false
    → parse_int form.reg_start_addr ≡ some addr
    → (submit_jitter answers page slave_id form hex (none, amp)).sent
      ≡ updates form.reg_id (record {
        start_addr = some addr;
        hex_data = hex;
        names = form.reg_names;
        coefficients = form.reg_coefficients;
        jitter_amp = amp;
      })
        ∷ []
unfolding submit_jitter send_data
saved answers page slave_id form hex amp addr id e = elim (Option-cases answers.refusal) [
  | inl done ↦ rw (send_data, done, id, e) refl
  | inr (reason, failed) ↦ rw (send_data, failed, id, e) refl
]

-- A block with an id, with upper-case hexadecimal digits, at least one and a whole number of units
-- of its type, and an amplitude of at most 65535, that is shown in the form and saved as it is, is
-- sent with the values that it has, under its id, whatever the user and the server answer.
pub submit_register_form-show_edit_register :
    (answers : Answers) (page : Page) (slave_id : Text) (reg : Register)
    → is_empty reg.id ≡ false
    → every is_upper_hex reg.hex_data ≡ true
    → is_empty reg.hex_data ≡ false
    → is_whole (get_reg_type reg.start_addr) reg.hex_data ≡ true
    → reg.jitter_amp ≤ 65535
    → (submit_register_form answers page slave_id (show_edit_register reg)).sent
      ≡ updates reg.id (body_of reg) ∷ []
unfolding submit_register_form show_edit_register
submit_register_form-show_edit_register answers page slave_id reg id upper given whole low =
    rw
      (
        trim-every is_upper_hex hex-solid reg.hex_data upper,
        to_upper-hex reg.hex_data upper,
        given,
        parse_int-to_decimal reg.start_addr,
        hex_fault_whole (get_reg_type reg.start_addr) reg.hex_data upper whole,
        read_jitter-show_edit_register reg low,
      )
      (saved answers page slave_id (show_edit_register reg) reg.hex_data reg.jitter_amp
        reg.start_addr id (parse_int-to_decimal reg.start_addr))
