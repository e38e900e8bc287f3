-- ===== src/Crc/Frame.antt =====
-- The checksum over whole frames: its range, the frames that `validateCRC` accepts, and the
-- changes that it detects.
use modbus_simulator_go.Base.{
  ℕ, suc, ◌+◌, ◌-◌, ◌/◌, ◌%◌, ◌<◌, ◌&&◌, true, false, ◌≡◌, ◌≢◌, ◌↔◌, refl, sym, ap, ◌∙◌, List, [],
  ◌∷◌, ◌++◌, All, ltb, ◌==◌, if◌then◌else◌, inl, inr, Bool-cases, bit_xor, arith, length, take,
  get_or, length-append, All-append,
}
use modbus_simulator_go.Base.Bits.{
  bit_xor_comm, bit_xor_self_inverse, bit_xor-lt, bit_and_byte, bit_and_word,
}
use modbus_simulator_go.Crc.{crc_bits, crc_from, crc16, validate_crc}
use modbus_simulator_go.Crc.Step.{crc_bits-lt, crc_bits_injective}
use modbus_simulator_go.Hex.Bytes.{IsByte}

abbrev byte_word : (w b : ℕ) → w < 0x10000 → IsByte b → bit_xor w b < 0x10000
byte_word w b p q = bit_xor-lt 16 w b p (omega arith)

crc_from-lt : (w : ℕ) (bs : List ℕ) → w < 0x10000 → All IsByte bs → crc_from w bs < 0x10000
unfolding crc_from
crc_from-lt w [] p h = p
crc_from-lt w (b ∷ bs) p (h, hs) =
    crc_from-lt (crc_bits 8 (bit_xor w b)) bs (crc_bits-lt 8 _ (byte_word w b p h)) hs

crc16-crc_from : (bs : List ℕ) → All IsByte bs → crc16 bs ≡ crc_from 0xffff bs
unfolding crc16
crc16-crc_from bs h =
    let lt = crc_from-lt 0xffff bs (omega arith) h in bit_and_word _ ∙ omega (arith, lt)

-- The checksum of bytes is a 16-bit word.
pub crc16-lt : (bs : List ℕ) → All IsByte bs → crc16 bs < 0x10000
crc16-lt bs h = rw (crc16-crc_from bs h) (crc_from-lt 0xffff bs (omega arith) h)

crc_from-append : (w : ℕ) (xs ys : List ℕ) → crc_from w (xs ++ ys) ≡ crc_from (crc_from w xs) ys
unfolding crc_from
crc_from-append w [] ys = refl
crc_from-append w (x ∷ xs) ys = crc_from-append (crc_bits 8 (bit_xor w x)) xs ys

-- From different words the same bytes lead to different words.
crc_from_injective :
    (v w : ℕ) (bs : List ℕ)
    → v < 0x10000
    → w < 0x10000
    → All IsByte bs
    → crc_from v bs ≡ crc_from w bs
    → v ≡ w
unfolding crc_from
crc_from_injective v w [] p q h e = e
crc_from_injective v w (b ∷ bs) p q (h, hs) e =
    let v' = byte_word v b p h in
    let w' = byte_word w b q h in
    let same = crc_bits_injective 8 _ _ v' w' (
      crc_from_injective (crc_bits 8 (bit_xor v b)) (crc_bits 8 (bit_xor w b)) bs
        (crc_bits-lt 8 _ v') (crc_bits-lt 8 _ w') hs e) in
    sym (bit_xor_self_inverse v b) ∙ (ap (λ t. bit_xor t b) same ∙ bit_xor_self_inverse w b)

xor_byte_injective : (w a b : ℕ) → bit_xor w a ≡ bit_xor w b → a ≡ b
xor_byte_injective w a b e =
    sym (bit_xor_self_inverse a w)
    ∙ (ap (λ t. bit_xor t w) (bit_xor_comm a w ∙ (e ∙ bit_xor_comm w b)) ∙ bit_xor_self_inverse b w)

-- Two messages that differ in exactly one byte have different checksums.
pub crc16_one_byte :
    (xs ys : List ℕ) (a b : ℕ)
    → All IsByte xs
    → All IsByte ys
    → a < 256
    → b < 256
    → crc16 (xs ++ a ∷ ys) ≡ crc16 (xs ++ b ∷ ys)
    → a ≡ b
unfolding crc_from
crc16_one_byte xs ys a b hx hy ha hb e =
    let h = λ (c : ℕ) (hc : c < 256). All-append IsByte xs (c ∷ ys) hx (hc, hy) in
    let from = sym (crc16-crc_from _ (h a ha)) ∙ (e ∙ crc16-crc_from _ (h b hb)) in
    let start = crc_from 0xffff xs in
    let bound = crc_from-lt 0xffff xs (omega arith) hx in
    xor_byte_injective start a b (
      crc_bits_injective 8 _ _ (byte_word start a bound ha) (byte_word start b bound hb) (
        crc_from_injective _ _ ys (crc_bits-lt 8 _ (byte_word start a bound ha))
          (crc_bits-lt 8 _ (byte_word start b bound hb)) hy
          (sym (crc_from-append 0xffff xs (a ∷ ys)) ∙ (from ∙ crc_from-append 0xffff xs (b ∷ ys)))))

-- The parts of a frame that `validateCRC` reads.
trailer :
    (xs : List ℕ) (lo hi : ℕ)
    → (take (length xs) (xs ++ lo ∷ hi ∷ []) ≡ xs)
      × (get_or (xs ++ lo ∷ hi ∷ []) (length xs) 0 ≡ lo)
      × (get_or (xs ++ lo ∷ hi ∷ []) (suc (length xs)) 0 ≡ hi)
trailer [] lo hi = (refl, refl, refl)
trailer (x ∷ xs) lo hi = let (p, q, r) = trailer xs lo hi in (ap (◌∷◌ x) p, q, r)

frame_length : (xs : List ℕ) (lo hi : ℕ) → length (xs ++ lo ∷ hi ∷ []) ≡ length xs + 2
frame_length xs lo hi = omega (arith, length-append xs (lo ∷ hi ∷ []))

frame_test :
    (xs : List ℕ) (lo hi : ℕ)
    → All IsByte xs
    → validate_crc (xs ++ lo ∷ hi ∷ [])
      ≡ (if ltb (length xs + 2) 3 then false else lo == crc16 xs % 256 && hi == crc16 xs / 256)
unfolding validate_crc
frame_test xs lo hi h =
    let n : length xs + 2 - 2 ≡ length xs = omega arith in
    let m : length xs + 2 - 1 ≡ suc (length xs) = omega arith in
    let top : crc16 xs / 256 % 256 ≡ crc16 xs / 256 = omega (arith, crc16-lt xs h) in
    let (p, q, r) = trailer xs lo hi in
    rw (
      frame_length xs lo hi,
      n,
      m,
      p,
      q,
      r,
      bit_and_byte (crc16 xs),
      bit_and_byte (crc16 xs / 256),
      top,
    )

-- A message of at least one byte is accepted exactly with its checksum behind it, low byte first.
pub validate_crc_iff :
    (xs : List ℕ) (lo hi : ℕ)
    → All IsByte xs
    → xs ≢ []
    → (validate_crc (xs ++ lo ∷ hi ∷ []) ≡ true) ↔ ((lo ≡ crc16 xs % 256) × (hi ≡ crc16 xs / 256))
validate_crc_iff [] lo hi h ne = absurd (ne refl)
validate_crc_iff (x ∷ xs) lo hi h ne = rw (frame_test (x ∷ xs) lo hi h) (ground arith)

concat-ne-nil : (a : ℕ) (xs ys : List ℕ) → (xs ++ a ∷ ys) ≢ []
concat-ne-nil a [] ys = cc
concat-ne-nil a (x ∷ xs) ys = cc

-- A frame that was accepted is refused after any one of its message bytes is changed.
pub validate_crc_one_byte :
    (xs ys : List ℕ) (a b lo hi : ℕ)
    → All IsByte xs
    → All IsByte ys
    → a < 256
    → b < 256
    → a ≢ b
    → validate_crc ((xs ++ a ∷ ys) ++ lo ∷ hi ∷ []) ≡ true
    → validate_crc ((xs ++ b ∷ ys) ++ lo ∷ hi ∷ []) ≡ false
validate_crc_one_byte xs ys a b lo hi hx hy ha hb ne ok =
    elim (Bool-cases (validate_crc ((xs ++ b ∷ ys) ++ lo ∷ hi ∷ []))) [
      | inr refused ↦ refused
      | inl passed ↦
          let ma = All-append IsByte xs (a ∷ ys) hx (ha, hy) in
          let mb = All-append IsByte xs (b ∷ ys) hx (hb, hy) in
          let (la, ua) = (validate_crc_iff (xs ++ a ∷ ys) lo hi ma (concat-ne-nil a xs ys)).0 ok in
          let (lb, ub) =
            (validate_crc_iff (xs ++ b ∷ ys) lo hi mb (concat-ne-nil b xs ys)).0 passed in
          absurd (ne (crc16_one_byte xs ys a b hx hy ha hb (omega arith)))
    ]
