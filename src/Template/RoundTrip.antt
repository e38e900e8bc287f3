-- ===== src/Template/RoundTrip.antt =====
-- Hex shown as ASCII and read back: `asciiToHexTemplate` undoes `hexToAsciiTemplate` on bytes
-- other than `{`, and a literal `{13}` in the bytes is lost.
use modbus_simulator_go.Base.{
  ℕ, ◌+◌, ◌*◌, ◌/◌, ◌%◌, ◌≤◌, ◌<◌, ◌≡◌, ◌≢◌, refl, sym, ap, ◌∙◌, inl, inr, Bool, true, false, ◌&&◌,
  some, List, [], ◌∷◌, ◌++◌, map, Text, is_space, is_upper_hex, upper_char, length, every, ◌==◌,
  ==_iff, arith, All, append_assoc, append-nil, Bool-cases, length-append, checks_below,
  checked_below, text_eq, text_eq_iff, ltb, leb,
}
use modbus_simulator_go.Base.Digits.{is_digit, to_base, to_decimal, value, value-to_base}
use modbus_simulator_go.Hex.{bytes_to_hex}
use modbus_simulator_go.Hex.Bytes.{IsByte, hex_char, byte_to_hex_lem}
use modbus_simulator_go.Template.{
  accepted, compact_of, normalize_compact, normalize_hex_template, control_digits, code_to_hex,
  ascii_from, ascii_to_hex_template, shown, hex_from, hex_to_ascii_template,
}

code_table :
    checks_below 256 (λ b. text_eq (code_to_hex b) (hex_char (b / 16) ∷ hex_char (b % 16) ∷ []))
    ≡ true
unfolding checks_below code_to_hex text_eq hex_char
code_table = refl

code_to_hex_lem : (b : ℕ) → b < 256 → code_to_hex b ≡ hex_char (b / 16) ∷ hex_char (b % 16) ∷ []
code_to_hex_lem b h = (text_eq_iff _ _).0 (checked_below 256 _ b code_table h)

-- `hexToAsciiTemplate` on the hex text of bytes shows each of them.
abbrev hex_text : List ℕ → Text
hex_text [] = []
hex_text (b ∷ bs) = hex_char (b / 16) ∷ hex_char (b % 16) ∷ hex_text bs

abbrev shown_all : List ℕ → Text
shown_all [] = []
shown_all (b ∷ bs) = shown b ++ shown_all bs

pub hex_text-bytes_to_hex : (bs : List ℕ) → All IsByte bs → bytes_to_hex (map some bs) ≡ hex_text bs
unfolding bytes_to_hex
hex_text-bytes_to_hex [] h = refl
hex_text-bytes_to_hex (b ∷ bs) (h, hs) = rw (byte_to_hex_lem b h, hex_text-bytes_to_hex bs hs)

pair_value_table :
    checks_below 256 (λ b. value 16 0 (hex_char (b / 16) ∷ hex_char (b % 16) ∷ []) == b) ≡ true
unfolding checks_below value hex_char
pair_value_table = refl

pair_value : (b : ℕ) → b < 256 → value 16 0 (hex_char (b / 16) ∷ hex_char (b % 16) ∷ []) ≡ b
pair_value b h = (==_iff _ _).0 (checked_below 256 _ b pair_value_table h)

hex_from-shown :
    (bs : List ℕ) (out : Text)
    → All IsByte bs
    → hex_from false 0 (hex_text bs) out ≡ out ++ shown_all bs
unfolding hex_from
hex_from-shown [] out h = sym (append-nil out)
hex_from-shown (b ∷ bs) out (h, hs) =
    rw (pair_value b h)
      (hex_from-shown bs (out ++ shown b) hs ∙ append_assoc out (shown b) (shown_all bs))

-- The control text of a byte: one to three digits, then the bracket.
control_table :
    checks_below 256 (λ b.
      every is_digit (to_decimal b)
      && leb 1 (length (to_decimal b))
      && leb (length (to_decimal b)) 3)
    ≡ true
unfolding checks_below to_base
control_table = refl

control_digits_lem :
    (ds rest : Text)
    → every is_digit ds ≡ true
    → 1 ≤ length ds
    → length ds ≤ 3
    → control_digits (ds ++ b'}' ∷ rest) ≡ some ds
unfolding control_digits
control_digits_lem [] rest p q r = absurd (omega arith)
control_digits_lem (a ∷ []) [] p q r = ground arith
control_digits_lem (a ∷ []) (x ∷ []) p q r = ground arith
control_digits_lem (a ∷ []) (x ∷ y ∷ rest) p q r = ground arith
control_digits_lem (a ∷ b ∷ []) [] p q r = ground arith
control_digits_lem (a ∷ b ∷ []) (x ∷ rest) p q r = ground arith
control_digits_lem (a ∷ b ∷ c ∷ []) rest p q r = ground arith
control_digits_lem (a ∷ b ∷ c ∷ d ∷ ds) rest p q r = absurd (omega arith)

-- Passing over a whole text leads to the text behind it.
ascii_from_skip :
    (t : Bool) (xs rest out : Text)
    → ascii_from t (length xs) (xs ++ rest) out ≡ ascii_from t 0 rest out
unfolding ascii_from
ascii_from_skip t [] rest out = refl
ascii_from_skip t (x ∷ xs) rest out = ascii_from_skip t xs rest out

control_facts :
    (b : ℕ)
    → b < 256
    → (every is_digit (to_decimal b) ≡ true)
      × (1 ≤ length (to_decimal b))
      × (length (to_decimal b) ≤ 3)
control_facts b h = ground (arith, checked_below 256 _ b control_table h)

ascii_from_end : (out : Text) → ascii_from false 0 [] out ≡ accepted out
unfolding ascii_from
ascii_from_end out = refl

ascii_from_digits :
    (ds s out : Text) (v : ℕ)
    → control_digits s ≡ some ds
    → value 10 0 ds ≡ v
    → v < 256
    → ascii_from false 0 (b'{' ∷ s) out ≡ ascii_from false (length ds + 1) s (out ++ code_to_hex v)
unfolding ascii_from
ascii_from_digits ds s out v p q h =
    let fits : ltb 255 v ≡ false = ground arith in rw (p, ascii_from, q, fits)

ascii_from_control :
    (b : ℕ) (rest out : Text)
    → b < 256
    → ascii_from false 0 (b'{' ∷ (to_decimal b ++ b'}' ∷ rest)) out
      ≡ ascii_from false 0 rest (out ++ code_to_hex b)
ascii_from_control b rest out h =
    let ds = to_decimal b in
    let (all_digits, lo, hi) = control_facts b h in
    let closed : length ds + 1 ≡ length (ds ++ b'}' ∷ []) =
      omega (arith, length-append ds (b'}' ∷ [])) in
    ascii_from_digits ds (ds ++ b'}' ∷ rest) out b (control_digits_lem ds rest all_digits lo hi)
      (value-to_base 10 b (omega arith) (omega arith)) h
    ∙ (ap (λ t. ascii_from false (length ds + 1) t (out ++ code_to_hex b))
          (sym (append_assoc ds (b'}' ∷ []) rest))
        ∙ (ap (λ n. ascii_from false n ((ds ++ b'}' ∷ []) ++ rest) (out ++ code_to_hex b)) closed
            ∙ ascii_from_skip false (ds ++ b'}' ∷ []) rest (out ++ code_to_hex b)))

ascii_from_plain :
    (b : ℕ) (rest out : Text)
    → b ≢ b'{'
    → 32 ≤ b
    → b ≤ 126
    → ascii_from false 0 (b ∷ rest) out ≡ ascii_from false 0 rest (out ++ code_to_hex b)
unfolding ascii_from
ascii_from_plain b rest out ne lo hi = ground arith

-- Each byte but `{` is shown in a form that is read back as the byte.
ascii_from-shown :
    (b : ℕ) (rest out : Text)
    → b < 256
    → b ≢ b'{'
    → ascii_from false 0 (shown b ++ rest) out ≡ ascii_from false 0 rest (out ++ code_to_hex b)
unfolding shown
ascii_from-shown b rest out h ne = elim (Bool-cases (leb 32 b && leb b 126)) [
  | inl plain ↦ rw plain (ascii_from_plain b rest out ne (ground arith) (ground arith))
  | inr control ↦
      rw (control, append_assoc (to_decimal b) (b'}' ∷ []) rest) (ascii_from_control b rest out h)
]

abbrev pub IsPlainByte : ℕ → Type 0
IsPlainByte b = (b < 256) × (b ≢ b'{')

pub plain-IsByte : (bs : List ℕ) → All IsPlainByte bs → All IsByte bs
plain-IsByte [] h = tt
plain-IsByte (b ∷ bs) (h, hs) = (h.0, plain-IsByte bs hs)

ascii_from-shown_all :
    (bs : List ℕ) (out : Text)
    → All IsPlainByte bs
    → ascii_from false 0 (shown_all bs) out ≡ accepted (out ++ hex_text bs)
ascii_from-shown_all [] out h = unfold ascii_from in ap accepted (sym (append-nil out))
ascii_from-shown_all (b ∷ bs) out (h, hs) =
    ascii_from-shown b (shown_all bs) out h.0 h.1
    ∙ (ascii_from-shown_all bs (out ++ code_to_hex b) hs
        ∙ ap accepted (
            append_assoc out (code_to_hex b) (hex_text bs)
            ∙ ap (λ t. out ++ (t ++ hex_text bs)) (code_to_hex_lem b h.0)))

char_IsCompact :
    (d : ℕ)
    → d < 16
    → (is_space (hex_char d) ≡ false)
      × (upper_char (hex_char d) ≡ hex_char d)
      × (is_upper_hex (hex_char d) ≡ true)
unfolding is_space upper_char hex_char is_upper_hex
char_IsCompact d h = ground arith

hex_text-compact : (bs : List ℕ) → All IsByte bs → compact_of (hex_text bs) ≡ hex_text bs
unfolding compact_of
hex_text-compact [] h = refl
hex_text-compact (b ∷ bs) (h, hs) =
    let (p, q, r) = char_IsCompact (b / 16) (omega arith) in
    let (p', q', r') = char_IsCompact (b % 16) (omega arith) in
    rw (p, p', q, q', hex_text-compact bs hs)

hex_text-every : (bs : List ℕ) → All IsByte bs → every is_upper_hex (hex_text bs) ≡ true
hex_text-every [] h = refl
hex_text-every (b ∷ bs) (h, hs) =
    let (p, q, r) = char_IsCompact (b / 16) (omega arith) in
    let (p', q', r') = char_IsCompact (b % 16) (omega arith) in rw (r, r', hex_text-every bs hs)

length-hex_text : (bs : List ℕ) → length (hex_text bs) ≡ 2 * length bs
length-hex_text [] = refl
length-hex_text (b ∷ bs) = omega (arith, length-hex_text bs)

pub normalize-hex_text :
    (bs : List ℕ)
    → All IsByte bs
    → normalize_hex_template (hex_text bs) false true ≡ accepted (hex_text bs)
unfolding normalize_hex_template
normalize-hex_text [] h = unfold normalize_compact compact_of in refl
normalize-hex_text (b ∷ bs) h =
    let even : length (hex_text (b ∷ bs)) % 2 ≡ 0 = omega (arith, length-hex_text (b ∷ bs)) in
    rw (hex_text-compact (b ∷ bs) h)
      (unfold normalize_compact in rw (hex_text-every (b ∷ bs) h, even))

-- Where tokens are not allowed, as in the request field, bytes that hold no `{` are shown as ASCII and
-- read back as the same hex, control bytes and bytes above 126 included.
pub ascii_to_hex_template-hex_to_ascii_template :
    (bs : List ℕ)
    → All IsPlainByte bs
    → (text : Text) × (hex_to_ascii_template (bytes_to_hex (map some bs)) false ≡ accepted text)
      × (ascii_to_hex_template text false ≡ accepted (bytes_to_hex (map some bs)))
unfolding hex_to_ascii_template ascii_to_hex_template
ascii_to_hex_template-hex_to_ascii_template bs h =
    let each = plain-IsByte bs h in
    let hex = hex_text-bytes_to_hex bs each in
    (
      shown_all bs,
      rw hex (
          rw (hex_to_ascii_template, normalize-hex_text bs each)
            (ap accepted (hex_from-shown bs [] each))),
      ascii_from-shown_all bs [] h ∙ ap accepted (sym hex),
    )

abbrev is_printable : ℕ → Bool
is_printable c = leb 32 c && leb c 126

shown_all_printable : (bs : List ℕ) → every is_printable bs ≡ true → shown_all bs ≡ bs
unfolding shown
shown_all_printable [] h = refl
shown_all_printable (b ∷ bs) h =
    let p : is_printable b ≡ true = ground arith in rw (p, shown_all_printable bs (ground arith))

printable-IsByte : (bs : List ℕ) → every is_printable bs ≡ true → All IsByte bs
printable-IsByte [] h = tt
printable-IsByte (b ∷ bs) h = (ground arith, printable-IsByte bs (ground arith))

-- The ASCII text of a control byte.
abbrev pub braced : ℕ → Text
braced v = b'{' ∷ (to_decimal v ++ b'}' ∷ [])

braced_table : checks_below 256 (λ v. every is_printable (braced v)) ≡ true
unfolding checks_below to_base
braced_table = refl

-- Bytes that spell a number below 256 in braces are shown as they are, and read back as the one
-- byte of that number: their hex is lost.
pub ascii_to_hex_template-braced :
    (v : ℕ)
    → v < 256
    → (hex_to_ascii_template (bytes_to_hex (map some (braced v))) false ≡ accepted (braced v))
      × (ascii_to_hex_template (braced v) false ≡ accepted (bytes_to_hex (some v ∷ [])))
unfolding hex_to_ascii_template ascii_to_hex_template
ascii_to_hex_template-braced v h =
    let printable = checked_below 256 (λ v. every is_printable (braced v)) v braced_table h in
    let each = printable-IsByte (braced v) printable in
    let hex = hex_text-bytes_to_hex (braced v) each in
    (
      rw hex (
          rw (hex_to_ascii_template, normalize-hex_text (braced v) each)
            (ap accepted
              (hex_from-shown (braced v) [] each ∙ shown_all_printable (braced v) printable))),
      ascii_from_control v [] [] h
          ∙ (ascii_from_end (code_to_hex v)
              ∙ ap accepted (code_to_hex_lem v h ∙ sym (hex_text-bytes_to_hex (v ∷ []) (h, tt)))),
    )
