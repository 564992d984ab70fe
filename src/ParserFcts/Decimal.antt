-- ===== src/ParserFcts/Decimal.antt =====
-- Numbers in decimal are read back as themselves, whatever range is asked for.
use netmate_flowcalc.Common.{
  ℕ, zero, suc, ◌+◌, ◌-◌, ◌*◌, ◌/◌, ◌%◌, ◌^◌, ◌<◌, ◌≤◌, ◌≡◌, ◌≢◌, refl, sym, ap, ◌∙◌, Bool, false,
  ◌&&◌, List, [], ◌∷◌, ◌++◌, some, ◌==◌, ltb, leb, lt→ltb, ltb→lt, if◌then◌else◌, is_empty, arith,
  Bool-cases, inl, inr, eq_or_ne,
}
use netmate_flowcalc.ParserFcts.{parse_ulong, in_range}
use netmate_flowcalc.ParserFcts.Strto.{
  digit, read_digits, read_number, strtoul, skip_space, is_space, take_sign, take_prefix,
  is_hex_prefix, starts_zero,
}

-- `n` in decimal with at most `f` digits and no zero in front, as `<<` writes it.
unfoldable pub decimal_digits : ℕ → ℕ → List ℕ
decimal_digits zero n = []
decimal_digits (suc f) n =
    let front = decimal_digits f (n / 10) in
    if ltb n 10 then (48 + n) ∷ [] else front ++ ((48 + n % 10) ∷ [])

-- 20 digits are enough below 2^64.
unfoldable pub decimal : ℕ → List ℕ
unfolding decimal_digits
decimal n = decimal_digits 20 n

digit_of : (d : ℕ) → d < 10 → digit (48 + d) ≡ d
unfolding digit
digit_of d h = ground arith

read_one :
    (n acc count d : ℕ) (rest : List ℕ)
    → d < 10
    → read_digits 10 acc count ((48 + d) ∷ rest) ≡ read_digits 10 (acc * 10 + d) (count + 1) rest
unfolding read_digits
read_one n acc count d rest h = rw (digit_of d h, lt→ltb d 10 h)

append_assoc : (xs ys zs : List ℕ) → (xs ++ ys) ++ zs ≡ xs ++ (ys ++ zs)
append_assoc [] ys zs = refl
append_assoc (x ∷ xs) ys zs = ap (◌∷◌ x) (append_assoc xs ys zs)

unfoldable digits_count : ℕ → ℕ → ℕ
digits_count zero n = 0
digits_count (suc f) n = if ltb n 10 then 1 else digits_count f (n / 10) + 1

read_decimal :
    (f n : ℕ) (rest : List ℕ)
    → n < 10 ^ f
    → read_digits 10 0 0 (decimal_digits f n ++ rest) ≡ read_digits 10 n (digits_count f n) rest
unfolding decimal_digits digits_count
read_decimal zero n rest h = let e : n ≡ 0 = omega arith in rw e
read_decimal (suc f) n rest h = elim (Bool-cases (ltb n 10)) [
  | inl e ↦
      rw (e, read_one 0 0 0 n rest (ltb→lt n 10 e))
        (ap (λ k. read_digits 10 k 1 rest) (omega arith))
  | inr e ↦
      rw
        (
          e,
          append_assoc (decimal_digits f (n / 10)) ((48 + n % 10) ∷ []) rest,
          read_decimal f (n / 10) ((48 + n % 10) ∷ rest) (omega (arith, h)),
          read_one 0 (n / 10) (digits_count f (n / 10)) (n % 10) rest (omega arith),
        )
        (ap (λ k. read_digits 10 k (digits_count f (n / 10) + 1) rest) (omega arith))
]

count_positive : (f n : ℕ) → (digits_count (suc f) n == 0) ≡ false
unfolding digits_count
count_positive f n = ground arith

-- A number other than 0 starts with a digit from 1 to 9.
lead_digit :
    (f n : ℕ)
    → n ≢ 0
    → n < 10 ^ f
    → (d : ℕ) × (t : List ℕ) × (decimal_digits f n ≡ (49 + d) ∷ t) × (d < 9)
unfolding decimal_digits
lead_digit zero n h b = absurd (h (omega arith))
lead_digit (suc f) n h b = elim (Bool-cases (ltb n 10)) [
  | inl e ↦
      let small = ltb→lt n 10 e in
      (n - 1, [], rw e (ap (λ k. k ∷ []) (omega arith)), omega (arith, small, h))
  | inr e ↦
      let at_least : 10 ≤ n = ground arith in
      let (d, t, q, l) =
        lead_digit f (n / 10) (λ z. omega (arith, z, at_least)) (omega (arith, b)) in
      (d, t ++ ((48 + n % 10) ∷ []), rw (e, q), l)
]

is_hex_prefix_digit : (d : ℕ) (t : List ℕ) → is_hex_prefix ((49 + d) ∷ t) ≡ false
unfolding is_hex_prefix
is_hex_prefix_digit d [] = refl
is_hex_prefix_digit d (x ∷ []) = refl
is_hex_prefix_digit d (x ∷ h ∷ t) = ground arith

skip_space_digit : (d : ℕ) (t : List ℕ) → d < 9 → skip_space ((49 + d) ∷ t) ≡ (49 + d) ∷ t
unfolding skip_space is_space
skip_space_digit d t h = ground arith

take_sign_digit : (d : ℕ) (t : List ℕ) → d < 9 → take_sign ((49 + d) ∷ t) ≡ (false, (49 + d) ∷ t)
unfolding take_sign
take_sign_digit d t h = ground arith

take_prefix_digit : (d : ℕ) (t : List ℕ) → take_prefix 0 ((49 + d) ∷ t) ≡ (10, (49 + d) ∷ t)
unfolding take_prefix starts_zero
take_prefix_digit d t = ground (arith, is_hex_prefix_digit d t)

append_nil : (xs : List ℕ) → xs ++ [] ≡ xs
append_nil [] = refl
append_nil (x ∷ xs) = ap (◌∷◌ x) (append_nil xs)

read_number-decimal : (n : ℕ) → n < 2 ^ 64 → read_number 0 (decimal n) ≡ some (false, n, [])
unfolding read_number decimal
read_number-decimal n b = elim (eq_or_ne n 0) [
  | inl e ↦ rw e
  | inr h ↦
      let (d, t, q, l) = lead_digit 20 n h (omega arith) in
      let digits =
        sym (ap (read_digits 10 0 0) (append_nil (decimal_digits 20 n)))
        ∙ read_decimal 20 n [] (omega arith) in
      let start = ap (read_digits 10 0 0) (sym q) ∙ digits in
      rw (q, skip_space_digit d t l, take_sign_digit d t l, take_prefix_digit d t, start)
        (rw (count_positive 19 n))
]

is_empty_snoc : (xs : List ℕ) (x : ℕ) → is_empty (xs ++ (x ∷ [])) ≡ false
is_empty_snoc [] x = refl
is_empty_snoc (y ∷ xs) x = refl

decimal-is_empty : (n : ℕ) → is_empty (decimal n) ≡ false
unfolding decimal decimal_digits
decimal-is_empty n = elim (Bool-cases (ltb n 10)) [
  | inl e ↦ rw e
  | inr e ↦ rw e (is_empty_snoc (decimal_digits 19 (n / 10)) (48 + n % 10))
]

in_range_always :
    {A : Type 0} (less : A → A → Bool) (min max n : A)
    → (less n min && less max n) ≡ false
    → in_range less min max n ≡ some n
unfolding in_range
in_range_always less min max n h = rw h

strtoul-decimal : (n : ℕ) → n < 2 ^ 64 → strtoul 0 (decimal n) ≡ (n, [])
unfolding strtoul
strtoul-decimal n b =
    let fits : leb (2 ^ 64) n ≡ false = ground arith in rw (read_number-decimal n b, strtoul, fits)

-- Every number below 2^64, written in decimal, is read back by `parseULong` as itself. The range
-- `min` to `max` that the caller asks for plays no part: a number outside of it is accepted too.
pub parse_ulong-decimal :
    (n min max : ℕ) → n < 2 ^ 64 → min ≤ max → parse_ulong (decimal n) min max ≡ some n
unfolding parse_ulong
parse_ulong-decimal n min max b r =
    let no_range : (ltb n min && ltb max n) ≡ false = ground arith in
    rw (strtoul-decimal n b, decimal-is_empty n) (in_range_always ltb min max n no_range)
