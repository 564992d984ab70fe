-- ===== src/FilterValue/Hex.antt =====
-- Filter values in hexadecimal: text, bytes and text again.
use netmate_flowcalc.Common.{
  ℕ, suc, ◌+◌, ◌-◌, ◌*◌, ◌/◌, ◌%◌, ◌^◌, ◌<◌, ◌≤◌, ◌≡◌, refl, ap, true, false, List, [], ◌∷◌, some,
  ◌==◌, leb, arith, length, lt→ltb, Returns,
}
use netmate_flowcalc.ParserFcts.{Outside}
use netmate_flowcalc.ParserFcts.Strto.{
  digit, read_digits, read_number, strtoul, skip_space, is_space, take_sign, take_prefix,
  is_hex_prefix,
}
use netmate_flowcalc.FilterValue.{
  make, bytes_of, set_hex, hex_bytes, hex_digit, hex_text, get_string, max_filter_len,
}

digit-hex_digit : (d : ℕ) → d < 16 → digit (hex_digit d) ≡ d
unfolding digit hex_digit
digit-hex_digit d h = ground arith

read_two :
    (a b : ℕ)
    → digit a < 16
    → digit b < 16
    → read_digits 16 0 0 (a ∷ b ∷ []) ≡ (digit a * 16 + digit b, 2, [])
unfolding read_digits
read_two a b p q =
    rw (lt→ltb (digit a) 16 p, lt→ltb (digit b) 16 q) (ap (λ k. (k, 2, [])) (omega arith))

take_prefix_hex :
    (a b : ℕ) → digit a < 16 → take_prefix 16 (48 ∷ 120 ∷ a ∷ b ∷ []) ≡ (16, a ∷ b ∷ [])
unfolding take_prefix is_hex_prefix
take_prefix_hex a b p = rw (lt→ltb (digit a) 16 p)

read_number_hex :
    (a b : ℕ)
    → digit a < 16
    → digit b < 16
    → read_number 16 (48 ∷ 120 ∷ a ∷ b ∷ []) ≡ some (false, digit a * 16 + digit b, [])
unfolding read_number skip_space is_space take_sign
read_number_hex a b p q = rw (take_prefix_hex a b p, read_two a b p q)

strtoul_byte :
    (a b : ℕ)
    → digit a < 16
    → digit b < 16
    → (strtoul 16 (48 ∷ 120 ∷ a ∷ b ∷ [])).0 ≡ digit a * 16 + digit b
unfolding strtoul
strtoul_byte a b p q =
    let fits : leb (2 ^ 64) (digit a * 16 + digit b) ≡ false = ground arith in
    rw (read_number_hex a b p q, strtoul, fits)

abbrev pub AreBytes : List ℕ → Type 0
AreBytes [] = Unit {0}
AreBytes (b ∷ bs) = (b < 256) × AreBytes bs

hex_bytes-hex_text : (bs : List ℕ) → AreBytes bs → hex_bytes (length bs) (hex_text bs) ≡ bs
unfolding hex_bytes hex_text
hex_bytes-hex_text [] h = refl
hex_bytes-hex_text (b ∷ bs) (h, hs) =
    let high = digit-hex_digit (b / 16) (omega arith) in
    let low = digit-hex_digit (b % 16) (omega arith) in
    let byte =
      strtoul_byte (hex_digit (b / 16)) (hex_digit (b % 16)) (omega (arith, high))
        (omega (arith, low)) in
    let same : (strtoul 16 (48 ∷ 120 ∷ hex_digit (b / 16) ∷ hex_digit (b % 16) ∷ [])).0 % 256 ≡ b =
      omega (arith, byte, high, low) in
    rw (same, hex_bytes-hex_text bs hs)

length-hex_text : (bs : List ℕ) → length (hex_text bs) ≡ 2 * length bs
unfolding hex_text
length-hex_text [] = omega arith
length-hex_text (b ∷ bs) = omega (arith, length-hex_text bs)

set_hex-hex_text :
    (bs : List ℕ)
    → AreBytes bs
    → length bs ≤ max_filter_len
    → set_hex (length (48 ∷ 120 ∷ hex_text bs)) (48 ∷ 120 ∷ hex_text bs) ≡ some bs
unfolding set_hex
set_hex-hex_text bs h l =
    let half : (length {A = ℕ} (48 ∷ 120 ∷ hex_text bs) - 2) / 2 ≡ length bs =
      omega (arith, length-hex_text bs) in
    let fits : leb (length bs) max_filter_len ≡ true = ground arith in
    rw (half, fits, hex_bytes-hex_text bs h)

-- Between 1 and 32 bytes, written as "0x" and two hexadecimal digits each, become a filter value
-- of the type Binary with just these bytes, and `getString` writes the same text.
pub make-hex_text :
    (o : Outside) (inet_ntop : List ℕ → List ℕ) (b : ℕ) (bs : List ℕ)
    → AreBytes (b ∷ bs)
    → length (b ∷ bs) ≤ max_filter_len
    → Returns (make o "Binary" (48 ∷ 120 ∷ hex_text (b ∷ bs))) (λ v.
      (v.val ≡ b ∷ bs)
      × (v.len ≡ length (b ∷ bs))
      × (get_string inet_ntop v ≡ 48 ∷ 120 ∷ hex_text (b ∷ bs)))
unfolding make bytes_of get_string
make-hex_text o inet_ntop b bs h l =
    let filled : (suc (length bs) == 0) ≡ false = ground arith in
    rw (set_hex-hex_text (b ∷ bs) h l) (refl, refl, rw filled)
