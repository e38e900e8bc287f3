-- ===== src/Import/Fit.antt =====
-- The update that a pair is read into stays inside the reply and the request.
use modbus_simulator_go.Base.{
  sym, subst, ◌==◌, ℕ, ◌≡◌, ◌≤◌, ◌<◌, refl, Option, none, some, length, take, List, [], ◌∷◌, arith,
  zero, suc, Bool-cases, inl, inr, ltb, true, false,
}
use modbus_simulator_go.Report.{Report}
use modbus_simulator_go.Frame.{Query, Reply, parse_request, parse_response}
use modbus_simulator_go.Address.{get_logical_start, is_bit_type}
use modbus_simulator_go.Import.{
  is_read, answered, asked, read_pair, fit_warnings, Update, expected_bytes, fit_bytes,
  effective_count, fit_reply,
}

length-take_le : (n : ℕ) (bytes : List ℕ) → n ≤ length bytes → length (take n bytes) ≡ n
length-take_le zero bytes h = refl
length-take_le (suc n) [] h = omega arith
length-take_le (suc n) (b ∷ bytes) h = omega (arith, length-take_le n bytes (omega arith))

length-fit_bytes : (n : ℕ) (bytes : List ℕ) → length (fit_bytes n bytes) ≤ n
unfolding fit_bytes
length-fit_bytes n bytes = elim (Bool-cases (ltb n (length bytes))) [
  | inl more ↦ rw more (omega (arith, length-take_le n bytes (ground arith)))
  | inr fits ↦ rw fits (ground arith)
]

fit_bytes_exact : (n : ℕ) (bytes : List ℕ) → n ≤ length bytes → length (fit_bytes n bytes) ≡ n
unfolding fit_bytes
fit_bytes_exact n bytes h = elim (Bool-cases (ltb n (length bytes))) [
  | inl more ↦ rw more (length-take_le n bytes h)
  | inr fits ↦ rw fits (ground arith)
]

count_fits :
    (fc quantity : ℕ) (bytes : List ℕ)
    → expected_bytes fc (effective_count fc quantity bytes) ≤ length bytes
unfolding expected_bytes effective_count
count_fits fc quantity bytes = elim (Bool-cases (is_bit_type fc)) [
  | inl bits ↦ rw bits (omega arith)
  | inr words ↦ rw words (omega arith)
]

count_bound : (fc quantity : ℕ) (bytes : List ℕ) → effective_count fc quantity bytes ≤ quantity
unfolding effective_count
count_bound fc quantity bytes = elim (Bool-cases (is_bit_type fc)) [
  | inl bits ↦ rw bits (omega arith)
  | inr words ↦ rw words (omega arith)
]

count_full :
    (fc quantity : ℕ) (bytes : List ℕ)
    → length bytes ≡ expected_bytes fc quantity
    → effective_count fc quantity bytes ≡ quantity
unfolding expected_bytes effective_count
count_full fc quantity bytes h = ground arith

-- What `applyRegisterUpdate` relies on.
abbrev pub IsReadable : Update → Type 0
IsReadable u =
    (is_read u.function_code ≡ true)
    × (0 < u.quantity)
    × (expected_bytes u.function_code u.quantity ≤ length u.data_bytes)

abbrev pub Readable : Option Update × Report → Type 0
Readable (none, report) = Unit
Readable (some u, report) = IsReadable u

fit_reply-Readable :
    (req : Query) (resp : Reply) (report : Report)
    → is_read req.function_code ≡ true
    → Readable (fit_reply req resp report)
unfolding fit_reply
fit_reply-Readable req resp report h =
    let bytes = fit_bytes (expected_bytes req.function_code req.quantity) resp.bytes in
    let count = effective_count req.function_code req.quantity bytes in
    elim (Bool-cases (count == 0)) [
      | inl nothing ↦ rw nothing tt
      | inr some_left ↦
          rw some_left (h, ground arith, count_fits req.function_code req.quantity bytes)
    ]

answered-Readable :
    (req : Query) (o : Option Reply × Report)
    → is_read req.function_code ≡ true
    → Readable (answered req o)
answered-Readable req (none, report) h = tt
answered-Readable req (some resp, report) h = fit_reply-Readable req resp report h

asked-Readable : (receive : List ℕ) (o : Option Query × Report) → Readable (asked receive o)
asked-Readable receive (none, report) = tt
asked-Readable receive (some req, report) = elim (Bool-cases (is_read req.function_code)) [
  | inl reads ↦ rw reads (answered-Readable req (parse_response receive req.protocol report) reads)
  | inr writes ↦ rw writes tt
]

-- An update that comes out of a pair has a function code from 1 to 4 and at least one point, and
-- its bytes are enough for all its points, whatever the two frames held.
pub read_pair-IsReadable :
    (send receive : List ℕ) (report report' : Report) (u : Update)
    → read_pair send receive report ≡ (some u, report')
    → IsReadable u
unfolding read_pair
read_pair-IsReadable send receive report report' u h =
    subst Readable h (asked-Readable receive (parse_request send report))

not_below_itself : (n : ℕ) → ltb n n ≡ false
not_below_itself n = ground arith

equals_itself : (n : ℕ) → (n == n) ≡ true
equals_itself n = ground arith

-- A reply of as many bytes as the request asks for, with its code and unit, gives an update with
-- the quantity and all the bytes, and no warning.
pub fit_reply_exact :
    (req : Query) (resp : Reply) (report : Report)
    → resp.function_code ≡ req.function_code
    → resp.unit_id ≡ req.unit_id
    → length resp.bytes ≡ expected_bytes req.function_code req.quantity
    → 0 < req.quantity
    → fit_reply req resp report ≡ (
      some (record {
        unit_id = req.unit_id;
        function_code = req.function_code;
        logical_start = get_logical_start req.function_code req.start_address;
        quantity = req.quantity;
        data_bytes = resp.bytes;
      }),
      report,
    )
unfolding fit_reply fit_bytes fit_warnings
fit_reply_exact req resp report fc unit fits asks =
    let count = count_full req.function_code req.quantity resp.bytes fits in
    let positive : (req.quantity == 0) ≡ false = ground arith in
    rw
      (
        fc,
        unit,
        sym fits,
        not_below_itself (length resp.bytes),
        equals_itself req.function_code,
        equals_itself req.unit_id,
        count,
        positive,
      )
      refl
