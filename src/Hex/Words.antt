-- ===== src/Hex/Words.antt =====
-- Register words and the byte orders of a float.
use modbus_simulator_go.Base.{
  ℕ, ◌+◌, ◌*◌, ◌≤◌, ◌<◌, ◌≡◌, ◌∙◌, List, [], ◌∷◌, map, some, none, get_or, Text, ltb, length, arith,
  if◌then◌else◌,
}
use modbus_simulator_go.Base.Int.{ℤ, pos, sub_ℕ, pos_part, neg_part}
use modbus_simulator_go.Hex.{
  hex_to_bytes, bytes_to_hex, hex_to_int16, hex_to_uint16, Order, abcd, badc, cdab, dcba,
  hex_to_float32_order, hex_to_float32, to_uint8, byte_order,
}
use modbus_simulator_go.Hex.Bytes.{byte_to_hex_lem, hex_to_bytes-bytes_to_hex}

-- Both readings of a register are the same word: the signed one is in the range of 16 bits and
-- differs by 0 or 0x10000.
pub hex_to_int16_lem :
    (hex : Text) {w : ℕ}
    → hex_to_uint16 hex ≡ some w
    → w < 0x10000
    → (z : ℤ) × (hex_to_int16 hex ≡ some z)
      × (pos_part z + 0x10000 * (if ltb 0x7fff w then 1 else 0) ≡ w + neg_part z)
      × (pos_part z ≤ 0x7fff)
      × (neg_part z ≤ 0x8000)
unfolding hex_to_int16 hex_to_uint16
hex_to_int16_lem hex {w} h lt = (
  if ltb 0x7fff w then sub_ℕ w 0x10000 else pos w,
  ground arith,
  ground arith,
  ground arith,
  ground arith,
)

module _ (show : List ℕ → Text) (a b c d : ℕ) (ha : a < 256) (hb : b < 256) (hc : c < 256)
    (hd : d < 256) where
  abbrev four : Text
  four = bytes_to_hex (some a ∷ some b ∷ some c ∷ some d ∷ [])

  four_bytes : hex_to_bytes four ≡ some a ∷ some b ∷ some c ∷ some d ∷ []
  four_bytes = hex_to_bytes-bytes_to_hex (a ∷ b ∷ c ∷ d ∷ []) (ha, (hb, (hc, (hd, tt))))

  length-four : length four ≡ 8
  unfolding bytes_to_hex
  length-four =
      rw (byte_to_hex_lem a ha, byte_to_hex_lem b hb, byte_to_hex_lem c hc, byte_to_hex_lem d hd)

  stored : (x : ℕ) → x < 256 → to_uint8 (some x) ≡ x
  stored x h = omega arith

  in_order :
      (o : Order)
      → hex_to_float32_order show four o
        ≡ show (
            map
              (λ i. to_uint8 (get_or (some a ∷ some b ∷ some c ∷ some d ∷ []) i none))
              (byte_order o))
  unfolding hex_to_float32_order
  in_order o = rw (length-four, four_bytes)

  -- Eight hex digits are shown by each order as the float of the four bytes in that order.
  pub hex_to_float32_order_lem :
      (hex_to_float32 show four ≡ show (a ∷ b ∷ c ∷ d ∷ []))
      × (hex_to_float32_order show four badc ≡ show (b ∷ a ∷ d ∷ c ∷ []))
      × (hex_to_float32_order show four cdab ≡ show (c ∷ d ∷ a ∷ b ∷ []))
      × (hex_to_float32_order show four dcba ≡ show (d ∷ c ∷ b ∷ a ∷ []))
  unfolding byte_order
  hex_to_float32_order_lem = (
    unfold hex_to_float32 in
        in_order abcd ∙ rw (stored a ha, stored b hb, stored c hc, stored d hd),
    in_order badc ∙ rw (stored a ha, stored b hb, stored c hc, stored d hd),
    in_order cdab ∙ rw (stored a ha, stored b hb, stored c hc, stored d hd),
    in_order dcba ∙ rw (stored a ha, stored b hb, stored c hc, stored d hd),
  )
