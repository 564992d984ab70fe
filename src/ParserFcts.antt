-- ===== src/ParserFcts.antt =====
-- src/netmate/ParserFcts.h and ParserFcts.cc: values from text. A text is the list of its
-- characters, and `none` is a thrown `Error`. A long has 64 bits and an int 32. The resolver
-- (`getaddrinfo` under its alarm) and the reading of floating point numbers are parameters.
pub mod Strto
pub mod Decimal
mod Tests
use Prim.Native.String.{String}
use Prim.Native.Char.{code}
use text.Mathlib.Text.{◌==◌ as str_eq}
use netmate_flowcalc.Common.{
  ℕ, ◌+◌, ◌-◌, ◌%◌, ◌^◌, Bool, true, false, ◌&&◌, ◌||◌, not, List, [], ◌∷◌, Option, none, some,
  ◌==◌, ltb, leb, ◌>>=◌, if◌then◌else◌, is_empty,
}
use netmate_flowcalc.Common.Int.{ℤ, pos, negsuc, ltb_ℤ}
use netmate_flowcalc.ParserFcts.Strto.{strtol, strtoul}

-- The characters of a text that stands in the source.
abbrev pub codes : String → List ℕ
codes String.[] = []
codes (String.◌∷◌ c s) = code c ∷ codes s

unfoldable pub same_text : List ℕ → List ℕ → Bool
same_text [] [] = true
same_text [] (d ∷ t) = false
same_text (c ∷ s) [] = false
same_text (c ∷ s) (d ∷ t) = if c == d then same_text s t else false

-- What each parser does with a number and the rest of the text: an empty text, a rest, or a number
-- out of range is an error. `less` compares the numbers.
unfoldable pub in_range : {A : Type 0} → (A → A → Bool) → A → A → A → Option A
in_range less min max n = if less n min && less max n then none else some n

unfoldable pub whole : {A : Type 0} → List ℕ → A × List ℕ → Option A
whole s (n, rest) = if is_empty s || not (is_empty rest) then none else some n

unfoldable pub parse_long : List ℕ → ℤ → ℤ → Option ℤ
unfolding whole in_range
parse_long s min max = whole s (strtol 0 s) >>= in_range ltb_ℤ min max

unfoldable pub parse_ulong : List ℕ → ℕ → ℕ → Option ℕ
unfolding whole in_range
parse_ulong s min max = whole s (strtoul 0 s) >>= in_range ltb min max

-- A long long is as long as a long.
unfoldable pub parse_llong : List ℕ → ℤ → ℤ → Option ℤ
unfolding whole in_range
parse_llong s min max = whole s (strtol 0 s) >>= in_range ltb_ℤ min max

unfoldable pub parse_ullong : List ℕ → ℕ → ℕ → Option ℕ
unfolding whole in_range
parse_ullong s min max = whole s (strtoul 0 s) >>= in_range ltb min max

-- The low `w` bits of an integer.
abbrev pub low_bits : ℕ → ℤ → ℕ
low_bits w (pos m) = m % 2 ^ w
low_bits w (negsuc m) = 2 ^ w - 1 - m % 2 ^ w

-- (int) of a long: its low 32 bits, with the sign of the highest.
unfoldable pub to_int : ℤ → ℤ
to_int n =
    let low = low_bits 32 n in if ltb low (2 ^ 31) then pos low else negsuc (2 ^ 32 - 1 - low)

unfoldable pub parse_int : List ℕ → ℤ → ℤ → Option ℤ
unfolding whole in_range to_int
parse_int s min max = do n ← whole s (strtol 0 s); in_range ltb_ℤ min max (to_int n)

-- find_first_not_of(set, 0) >= length()
only_from : (ℕ → Bool) → List ℕ → Bool
only_from set [] = true
only_from set (c ∷ s) = if set c then only_from set s else false

is_dec_digit : ℕ → Bool
is_dec_digit c = leb 48 c && leb c 57

is_hex_letter : ℕ → Bool
is_hex_letter c = (leb 97 c && leb c 102) || (leb 65 c && leb c 70)

unfoldable pub is_numeric_ipv4 : List ℕ → Bool
unfolding only_from is_dec_digit
is_numeric_ipv4 = only_from (λ c. is_dec_digit c || c == 46)

unfoldable pub is_numeric_ipv6 : List ℕ → Bool
unfolding only_from is_dec_digit is_hex_letter
is_numeric_ipv6 = only_from (λ c. is_dec_digit c || is_hex_letter c || c == 58 || c == 46)

-- What the resolver says of a text: the alarm went off, no address, or the bytes of the first one.
pub data Resolved : Type 0 where
  timed_out : Resolved
  failed : Resolved
  address : List ℕ → Resolved

resolved : Resolved → Option (List ℕ)
resolved timed_out = none
resolved failed = none
resolved (address a) = some a

-- The resolver is told whether the text is numeric, so that it must not ask a server.
unfoldable pub parse_ip_addr : (Bool → List ℕ → Resolved) → List ℕ → Option (List ℕ)
unfolding resolved is_numeric_ipv4
parse_ip_addr getaddrinfo s = resolved (getaddrinfo (is_numeric_ipv4 s) s)

unfoldable pub parse_ip6_addr : (Bool → List ℕ → Resolved) → List ℕ → Option (List ℕ)
unfolding resolved is_numeric_ipv6
parse_ip6_addr getaddrinfo s = resolved (getaddrinfo (is_numeric_ipv6 s) s)

unfoldable pub parse_bool : List ℕ → Option ℕ
unfolding same_text
parse_bool s =
    if same_text s (codes "yes") || same_text s (codes "1") || same_text s (codes "true")
    then some 1
    else if same_text s (codes "no") || same_text s (codes "0") || same_text s (codes "false")
    then some 0
    else none

-- `parseFloat` and `parseDouble` for a type of numbers with its reader and its order.
unfoldable pub parse_real :
    {F : Type 0} → (List ℕ → F × List ℕ) → (F → F → Bool) → List ℕ → F → F → Option F
unfolding whole in_range
parse_real strtod less s min max = whole s (strtod s) >>= in_range less min max

-- What the outside gives to the parsers: the two resolvers, and whether a text is a number that
-- `parseFloat` and `parseDouble` accept with their default ranges.
pub record Outside : Type 0 where
  pub getaddrinfo : Bool → List ℕ → Resolved
  pub getaddrinfo6 : Bool → List ℕ → Resolved
  pub is_float : List ℕ → Bool
  pub is_double : List ℕ → Bool

-- LONG_MIN, LONG_MAX and ULONG_MAX.
abbrev pub long_min : ℤ
long_min = negsuc 9223372036854775807

abbrev pub long_max : ℤ
long_max = pos 9223372036854775807

abbrev pub ulong_max : ℕ
ulong_max = 18446744073709551615

accepted : {A : Type 0} → Option A → Bool
accepted none = false
accepted (some a) = true

-- `parseItem`: whether a value is accepted for a type.
unfoldable pub parse_item : Outside → String → List ℕ → Bool
unfolding accepted
parse_item o type value =
    if str_eq type "UInt8" || str_eq type "SInt8"
    then accepted (parse_ulong value 0 ulong_max)
    else if str_eq type "UInt16" || str_eq type "SInt16"
    then accepted (parse_long value long_min long_max)
    else if str_eq type "UInt32" || str_eq type "SInt32"
    then accepted (parse_ulong value 0 ulong_max)
    else if str_eq type "IPAddr"
    then accepted (parse_ip_addr o.getaddrinfo value)
    else if str_eq type "IP6Addr"
    then accepted (parse_ip6_addr o.getaddrinfo6 value)
    else if str_eq type "String"
    then true
    else if str_eq type "Bool"
    then accepted (parse_bool value)
    else if str_eq type "Float32"
    then o.is_float value
    else if str_eq type "Float64"
    then o.is_double value
    else false
