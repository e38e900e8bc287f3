-- ===== src/Registers/Blocks.antt =====
-- The blocks of words that are created for the addresses of an update that no block covers.
use modbus_simulator_go.Base.{
  ==_iff, if_both, ℕ, zero, suc, ◌+◌, ◌-◌, ◌*◌, ◌/◌, ◌≤◌, ◌<◌, ◌≡◌, ◌⊎◌, refl, sym, ap, ◌∙◌, subst,
  inl, inr, Bool, true, false, Bool-cases, List, [], ◌∷◌, ◌++◌, Text, length, length-append, take,
  ltb, ◌==◌, All, All-append, arith,
}
use mathlib.Core.Bool.{false≢true}
use modbus_simulator_go.Hex.Bytes.{IsByte}
use modbus_simulator_go.Address.{Register}
use modbus_simulator_go.Registers.{
  Values, Progress, word_value, segment_hex, free_run, fill_words, create, new_register,
}
use modbus_simulator_go.Registers.Words.{word_text, take_four, drop_word, length-word_value}

-- Some item of a list.
abbrev pub Some : {A : Type 0} → (A → Type 0) → List A → Type 0
Some P [] = ⊥
Some P (x ∷ xs) = P x ⊎ Some P xs

pub Some-left : {A : Type 0} (P : A → Type 0) (xs ys : List A) → Some P xs → Some P (xs ++ ys)
Some-left P [] ys h = elim h [ ]
Some-left P (x ∷ xs) ys (inl h) = inl h
Some-left P (x ∷ xs) ys (inr h) = inr (Some-left P xs ys h)

pub Some-right : {A : Type 0} (P : A → Type 0) (xs ys : List A) → Some P ys → Some P (xs ++ ys)
Some-right P [] ys h = h
Some-right P (x ∷ xs) ys h = inr (Some-right P xs ys h)

-- A block holds the value of the update at an address.
pub record Holds (v : Values) (a : ℕ) (reg : Register) : Type 0 where
  pub from : reg.start_addr ≤ a
  pub below : a < reg.start_addr + length reg.hex_data / 4
  pub value :
      word_text reg.hex_data (a - reg.start_addr) ≡ word_value v.data_bytes (a - v.logical_start)

-- A block lies inside the update and on addresses that nothing covered.
abbrev pub IsClean : Values → (ℕ → Bool) → Register → Type 0
IsClean v covered reg =
    (a : ℕ)
    → reg.start_addr ≤ a
    → a < reg.start_addr + length reg.hex_data / 4
    → (covered a ≡ false) × (v.logical_start ≤ a) × (a < v.logical_start + v.quantity)

module _ (v : Values) (bytes : All IsByte v.data_bytes) where
  length-segment_hex : (count addr : ℕ) → length (segment_hex v count addr) ≡ count * 4
  unfolding segment_hex
  length-segment_hex zero addr = refl
  length-segment_hex (suc count) addr =
      let word = word_value v.data_bytes (addr - v.logical_start) in
      omega (
        arith,
        length-append word (segment_hex v count (addr + 1)),
        length-word_value v.data_bytes (addr - v.logical_start) bytes,
        length-segment_hex count (addr + 1),
      )

  word_text-segment_hex :
      (count addr j : ℕ)
      → j < count
      → word_text (segment_hex v count addr) j
        ≡ word_value v.data_bytes (addr + j - v.logical_start)
  unfolding segment_hex
  word_text-segment_hex zero addr j h = elim h [ ]
  word_text-segment_hex (suc count) addr zero h =
      take_four _ _ (length-word_value v.data_bytes (addr - v.logical_start) bytes)
      ∙ ap (λ i. word_value v.data_bytes (i - v.logical_start)) (omega arith)
  word_text-segment_hex (suc count) addr (suc j) h =
      ap (take 4) (
        drop_word (word_value v.data_bytes (addr - v.logical_start)) _ j
          (length-word_value v.data_bytes (addr - v.logical_start) bytes))
      ∙ (word_text-segment_hex count (addr + 1) j (omega arith)
          ∙ ap (λ i. word_value v.data_bytes (i - v.logical_start)) (omega arith))

  -- A segment as it is created.
  segment-Holds :
      (count addr a : ℕ)
      → addr ≤ a
      → a < addr + count
      → Holds v a (new_register addr (segment_hex v count addr))
  segment-Holds count addr a p q = record {
    from = p;
    below = omega (arith, length-segment_hex count addr);
    value =
        word_text-segment_hex count addr (a - addr) (omega arith)
        ∙ ap (λ i. word_value v.data_bytes (i - v.logical_start)) (omega arith);
  }

module _ (covered : ℕ → Bool) where
  free_run_bound : (count addr : ℕ) → free_run covered count addr ≤ count
  unfolding free_run
  free_run_bound zero addr = omega arith
  free_run_bound (suc count) addr = ground (arith, free_run_bound count (addr + 1))

  free_run_free :
      (count addr a : ℕ) → addr ≤ a → a < addr + free_run covered count addr → covered a ≡ false
  unfolding free_run
  free_run_free zero addr a p q = absurd (omega arith)
  free_run_free (suc count) addr a p q = elim (Bool-cases (covered addr)) [
    | inl taken ↦ absurd (omega (arith, (rw taken at q)))
    | inr free ↦ elim (Bool-cases (addr == a)) [
      | inl same ↦ subst (λ x. covered x ≡ false) (ground arith) free
      | inr other ↦ free_run_free count (addr + 1) a (ground arith) (omega (arith, (rw free at q)))
    ]
  ]

module _ (creates : ℕ → Text → Bool)
    (accepts : (start : ℕ) (hex : Text) → creates start hex ≡ true) where
  created-create :
      (start : ℕ) (hex : Text) (p : Progress)
      → (create creates start hex p).created ≡ p.created ++ new_register start hex ∷ []
  unfolding create
  created-create start hex p = rw (accepts start hex) refl

  warnings-create :
      (start : ℕ) (hex : Text) (p : Progress) → (create creates start hex p).warnings ≡ p.warnings
  unfolding create
  warnings-create start hex p = rw (accepts start hex) refl

  module _ (v : Values) (bytes : All IsByte v.data_bytes) (covered : ℕ → Bool) where
    fill_words_keeps :
        (P : Register → Type 0) (fuel count addr : ℕ) (p : Progress)
        → Some P p.created
        → Some P (fill_words creates v covered fuel count addr p).created
    unfolding fill_words
    fill_words_keeps P zero count addr p h = h
    fill_words_keeps P (suc fuel) zero addr p h = h
    fill_words_keeps P (suc fuel) (suc count) addr p h =
        let k = free_run covered (suc count) addr in
        let hex = segment_hex v k addr in
        if_both (λ (q : Progress). Some P q.created) (covered addr) _ _
          (fill_words_keeps P fuel count (addr + 1) p h)
          (fill_words_keeps P fuel (suc count - k) (addr + k) (create creates addr hex p) (
            subst (Some P) (sym (created-create addr hex p))
              (Some-left P p.created (new_register addr hex ∷ []) h)))

    pub fill_words-Holds :
        (fuel count addr a : ℕ) (p : Progress)
        → count ≤ fuel
        → addr ≤ a
        → a < addr + count
        → covered a ≡ false
        → Some (Holds v a) (fill_words creates v covered fuel count addr p).created
    unfolding fill_words
    fill_words-Holds zero count addr a p f h q free = absurd (omega arith)
    fill_words-Holds (suc fuel) zero addr a p f h q free = absurd (omega arith)
    fill_words-Holds (suc fuel) (suc count) addr a p f h q free = elim (Bool-cases (covered addr)) [
      | inl taken ↦ elim (Bool-cases (addr == a)) [
        | inl same ↦
            absurd (false≢true (sym free ∙ (ap covered (sym ((==_iff addr a).0 same)) ∙ taken)))
        | inr other ↦ rw taken (
            fill_words-Holds fuel count (addr + 1) a p (omega arith) (ground arith) (omega arith)
              free)
      ]
      | inr open_addr ↦
          let k = suc (free_run covered count (addr + 1)) in
          let hex = segment_hex v k addr in
          let p' = create creates addr hex p in
          elim (Bool-cases (ltb a (addr + k))) [
            | inl inside ↦
                let held =
                  Some-right (Holds v a) p.created (new_register addr hex ∷ [])
                    (inl (segment-Holds v bytes k addr a h (ground arith))) in
                rw open_addr (
                  fill_words_keeps (Holds v a) fuel (suc count - k) (addr + k) p'
                    (subst (Some (Holds v a)) (sym (created-create addr hex p)) held))
            | inr later ↦ rw open_addr (
                fill_words-Holds fuel (suc count - k) (addr + k) a p' (omega arith) (ground arith)
                  (ground arith) free)
          ]
    ]

    pub fill_words-IsClean :
        (fuel count addr : ℕ) (p : Progress)
        → v.logical_start ≤ addr
        → addr + count ≤ v.logical_start + v.quantity
        → All (IsClean v covered) p.created
        → All (IsClean v covered) (fill_words creates v covered fuel count addr p).created
    unfolding fill_words
    fill_words-IsClean zero count addr p l r h = h
    fill_words-IsClean (suc fuel) zero addr p l r h = h
    fill_words-IsClean (suc fuel) (suc count) addr p l r h =
        let k = free_run covered (suc count) addr in
        let hex = segment_hex v k addr in
        let bound = free_run_bound covered (suc count) addr in
        let clean : IsClean v covered (new_register addr hex) = λ a from below. (
          free_run_free covered (suc count) addr a from
              (omega (arith, length-segment_hex v bytes k addr)),
          omega arith,
          omega (arith, length-segment_hex v bytes k addr, bound),
        ) in
        if_both (λ (q : Progress). All (IsClean v covered) q.created) (covered addr) _ _
          (fill_words-IsClean fuel count (addr + 1) p (omega arith) (omega arith) h)
          (fill_words-IsClean fuel (suc count - k) (addr + k) (create creates addr hex p)
            (omega arith) (omega (arith, bound))
            (subst (All (IsClean v covered)) (sym (created-create addr hex p)) (
              All-append (IsClean v covered) p.created (new_register addr hex ∷ []) h (clean, tt))))

    pub fill_words-warnings :
        (fuel count addr : ℕ) (p : Progress)
        → (fill_words creates v covered fuel count addr p).warnings ≡ p.warnings
    unfolding fill_words
    fill_words-warnings zero count addr p = refl
    fill_words-warnings (suc fuel) zero addr p = refl
    fill_words-warnings (suc fuel) (suc count) addr p =
        let k = free_run covered (suc count) addr in
        let hex = segment_hex v k addr in
        if_both (λ (q : Progress). q.warnings ≡ p.warnings) (covered addr) _ _
          (fill_words-warnings fuel count (addr + 1) p)
          (fill_words-warnings fuel (suc count - k) (addr + k) (create creates addr hex p)
            ∙ warnings-create addr hex p)
