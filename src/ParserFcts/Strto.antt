-- ===== src/ParserFcts/Strto.antt =====
-- `strtol` and `strtoul` of the C library, which src/netmate/ParserFcts.cc and FilterValue.cc call
-- with the bases 0 and 16: the number and the text behind it. Out of range they give the nearest
-- number of 64 bits. With no digits the number is 0 and the rest is the whole text.
use netmate_flowcalc.Common.{
  ℕ, zero, suc, ◌+◌, ◌-◌, ◌*◌, ◌%◌, ◌^◌, Bool, true, false, ◌&&◌, ◌||◌, List, [], ◌∷◌, Option, none,
  some, ◌==◌, ltb, leb, if◌then◌else◌,
}
use netmate_flowcalc.Common.Int.{ℤ, pos, negsuc}

-- isspace
unfoldable pub is_space : ℕ → Bool
is_space c = c == 32 || (leb 9 c && leb c 13)

-- The value of a character as a digit; 36 is none.
unfoldable pub digit : ℕ → ℕ
digit c =
    if leb 48 c && leb c 57
    then c - 48
    else if leb 97 c && leb c 122
    then c - 87
    else if leb 65 c && leb c 90
    then c - 55
    else 36

-- The digits of the base, behind those of `acc`, with their count.
unfoldable pub read_digits : ℕ → ℕ → ℕ → List ℕ → ℕ × ℕ × List ℕ
unfolding digit
read_digits base acc count [] = (acc, count, [])
read_digits base acc count (c ∷ s) =
    let more = read_digits base (acc * base + digit c) (count + 1) s in
    if ltb (digit c) base then more else (acc, count, c ∷ s)

unfoldable pub skip_space : List ℕ → List ℕ
unfolding is_space
skip_space [] = []
skip_space (c ∷ s) = let rest = skip_space s in if is_space c then rest else c ∷ s

-- Whether there is a minus, and what follows the sign.
unfoldable pub take_sign : List ℕ → Bool × List ℕ
take_sign [] = (false, [])
take_sign (c ∷ s) = if c == 45 then (true, s) else if c == 43 then (false, s) else (false, c ∷ s)

-- "0x" in front of a hexadecimal digit.
unfoldable pub is_hex_prefix : List ℕ → Bool
unfolding digit
is_hex_prefix (z ∷ x ∷ h ∷ s) = z == 48 && (x == 120 || x == 88) && ltb (digit h) 16
is_hex_prefix s = false

unfoldable pub behind_two : List ℕ → List ℕ
behind_two (a ∷ b ∷ s) = s
behind_two s = []

unfoldable pub starts_zero : List ℕ → Bool
starts_zero [] = false
starts_zero (c ∷ s) = c == 48

-- The base, and the text behind its prefix.
unfoldable pub take_prefix : ℕ → List ℕ → ℕ × List ℕ
unfolding is_hex_prefix behind_two starts_zero
take_prefix base s =
    if is_hex_prefix s && (base == 0 || base == 16)
    then (16, behind_two s)
    else if base == 0
    then if starts_zero s then (8, s) else (10, s)
    else (base, s)

-- The sign, the number and the rest; `none` if there are no digits.
unfoldable pub read_number : ℕ → List ℕ → Option (Bool × ℕ × List ℕ)
unfolding skip_space take_sign take_prefix read_digits
read_number base s =
    let (minus, s₁) = take_sign (skip_space s) in
    let (b, s₂) = take_prefix base s₁ in
    let (m, count, rest) = read_digits b 0 0 s₂ in
    if count == 0 then none else some (minus, m, rest)

unfoldable pub strtoul : ℕ → List ℕ → ℕ × List ℕ
unfolding read_number
strtoul base s = elim (read_number base s) [
  | none ↦ (0, s)
  | some (minus, m, rest) ↦
      (if leb (2 ^ 64) m then 2 ^ 64 - 1 else if minus then (2 ^ 64 - m) % 2 ^ 64 else m, rest)
]

-- -m
negated : ℕ → ℤ
negated zero = pos 0
negated (suc m) = negsuc m

unfoldable pub strtol : ℕ → List ℕ → ℤ × List ℕ
unfolding read_number negated
strtol base s = elim (read_number base s) [
  | none ↦ (pos 0, s)
  | some (minus, m, rest) ↦ (
    if minus
        then if leb (2 ^ 63) m then negsuc (2 ^ 63 - 1) else negated m
        else if leb (2 ^ 63) m
        then pos (2 ^ 63 - 1)
        else pos m,
    rest,
  )
]
