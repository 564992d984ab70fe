-- ===== src/FilterValue.antt =====
-- src/netmate/FilterValue.h and FilterValue.cc: the value of a filter as bytes in network order. A
-- long has 64 bits, of which `htonl` swaps the low 32; on the other machines, with longs of 32 bits,
-- the four zero bytes behind them are missing. `val` is the list of the bytes that are set.
pub mod Numbers
pub mod Hex
mod Tests
use Prim.Native.String.{String}
use text.Mathlib.Text.{◌==◌ as str_eq}
use netmate_flowcalc.Common.{
  ℕ, zero, suc, ◌+◌, ◌-◌, ◌*◌, ◌/◌, ◌%◌, ◌^◌, Bool, true, false, ◌&&◌, ◌||◌, List, [], ◌∷◌, ◌++◌,
  Option, none, some, ◌==◌, ltb, leb, ◌>>=◌, if◌then◌else◌, length, take, map,
}
use netmate_flowcalc.Common.Int.{ℤ}
use netmate_flowcalc.ParserFcts.{
  Outside, parse_ulong, parse_long, parse_ip_addr, parse_ip6_addr, low_bits, long_min, long_max,
  ulong_max,
}
use netmate_flowcalc.ParserFcts.Strto.{strtoul}
use netmate_flowcalc.ParserFcts.Decimal.{decimal}

-- MAX_FILTER_LEN
abbrev pub max_filter_len : ℕ
max_filter_len = 32

pub record FilterValue : Type 0 where
  pub ftype : String
  pub len : ℕ
  pub val : List ℕ

-- `setValue` for each type: the bytes. A char is one byte.
unfoldable pub set_char : ℕ → List ℕ
set_char x = x % 256 ∷ []

-- htons
unfoldable pub set_short : ℕ → List ℕ
set_short x = x / 256 % 256 ∷ x % 256 ∷ []

-- htonl of a long, with the upper half 0.
unfoldable pub set_long : ℕ → List ℕ
set_long x = x / 16777216 % 256 ∷ x / 65536 % 256 ∷ x / 256 % 256 ∷ x % 256 ∷ 0 ∷ 0 ∷ 0 ∷ 0 ∷ []

-- The loop that turns two characters into a byte, `n` times. Behind the text is a 0.
unfoldable pub hex_bytes : ℕ → List ℕ → List ℕ
hex_bytes zero x = []
hex_bytes (suc n) [] = []
hex_bytes (suc n) (a ∷ []) = (strtoul 16 (48 ∷ 120 ∷ a ∷ [])).0 % 256 ∷ []
hex_bytes (suc n) (a ∷ b ∷ x) = (strtoul 16 (48 ∷ 120 ∷ a ∷ b ∷ [])).0 % 256 ∷ hex_bytes n x

-- `l` counts the text with its "0x". An odd last character is left out.
unfoldable pub set_hex : ℕ → List ℕ → Option (List ℕ)
unfolding hex_bytes
set_hex l (z ∷ x ∷ digits) =
    if z == 48 && x == 120
    then if leb ((l - 2) / 2) max_filter_len then some (hex_bytes ((l - 2) / 2) digits) else none
    else none
set_hex l x = none

unfoldable pub set_string : List ℕ → Option (List ℕ)
set_string x = if leb (length x) max_filter_len then some x else none

-- The bytes that the constructor sets for a type and a text of less than 65536 characters.
unfoldable pub bytes_of : Outside → String → List ℕ → Option (List ℕ)
unfolding set_char set_short set_long set_hex set_string
bytes_of o type value =
    if str_eq type "UInt8"
    then (parse_ulong value 0 ulong_max >>= (λ n. some (set_char n)))
    else if str_eq type "SInt8"
    then (parse_ulong value 0 ulong_max >>= (λ n. some (set_char n)))
    else if str_eq type "UInt16"
    then (parse_ulong value 0 ulong_max >>= (λ n. some (set_short n)))
    else if str_eq type "SInt16"
    then (parse_long value long_min long_max >>= (λ n. some (set_short (low_bits 16 n))))
    else if str_eq type "UInt32"
    then (parse_ulong value 0 ulong_max >>= (λ n. some (set_long n)))
    else if str_eq type "SInt32"
    then (parse_ulong value 0 ulong_max >>= (λ n. some (set_long n)))
    else if str_eq type "IPAddr"
    then parse_ip_addr o.getaddrinfo value
    else if str_eq type "IP6Addr"
    then parse_ip6_addr o.getaddrinfo6 value
    else if str_eq type "Binary"
    then set_hex (length value) value
    else if str_eq type "String"
    then set_string value
    else none

-- The constructor; `none` is a thrown `Error`.
unfoldable pub make : Outside → String → List ℕ → Option FilterValue
make o type value =
    bytes_of o type value >>= (λ b. some (record { ftype = type; len = length b; val = b }))

unfoldable pub get_type_length : String → Option ℕ
get_type_length type =
    if str_eq type "UInt8" || str_eq type "SInt8"
    then some 1
    else if str_eq type "UInt16" || str_eq type "SInt16"
    then some 2
    else if str_eq type "UInt32" || str_eq type "SInt32"
    then some 4
    else if str_eq type "IPAddr"
    then some 4
    else if str_eq type "IP6Addr"
    then some 16
    else if str_eq type "Binary" || str_eq type "String"
    then some 0
    else none

-- The number of bytes in network order: ntohs and ntohl.
unfoldable pub big_endian : ℕ → List ℕ → ℕ
big_endian acc [] = acc
big_endian acc (b ∷ bs) = big_endian (acc * 256 + b) bs

unfoldable pub from_network : List ℕ → ℕ
unfolding big_endian
from_network bs = big_endian 0 bs

-- A digit as `hex` writes it.
unfoldable pub hex_digit : ℕ → ℕ
hex_digit d = if ltb d 10 then 48 + d else 87 + d

-- setw(2), filled with 0
unfoldable pub hex_text : List ℕ → List ℕ
unfolding hex_digit
hex_text [] = []
hex_text (b ∷ bs) = hex_digit (b / 16) ∷ hex_digit (b % 16) ∷ hex_text bs

-- `getString`; `inet_ntop` writes an address. The types that are compared with are those that the
-- source has. A short with the sign bit is taken as `ntohs` gives it, without its sign.
unfoldable pub get_string : (List ℕ → List ℕ) → FilterValue → List ℕ
unfolding from_network hex_text
get_string inet_ntop v =
    if v.len == 0
    then []
    else if str_eq v.ftype "UInt8" || str_eq v.ftype "Int8"
    then decimal (from_network (take 1 v.val))
    else if str_eq v.ftype "UInt16" || str_eq v.ftype "Int16"
    then decimal (from_network (take 2 v.val))
    else if str_eq v.ftype "Uint32" || str_eq v.ftype "Int32"
    then decimal (from_network (take 4 v.val))
    else if str_eq v.ftype "IPAddr" || str_eq v.ftype "IP6Addr"
    then inet_ntop v.val
    else if str_eq v.ftype "Binary"
    then 48 ∷ 120 ∷ hex_text v.val
    else []
