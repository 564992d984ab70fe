-- ===== src/FilterValue/Numbers.antt =====
-- Filter values that are numbers: text, bytes and text again.
use Prim.Native.String.{String}
use netmate_flowcalc.Common.{
  ℕ, ◌/◌, ◌%◌, ◌<◌, ◌≤◌, ◌≡◌, refl, ap, List, [], ◌∷◌, some, arith, take, Returns,
}
use netmate_flowcalc.ParserFcts.{Outside, ulong_max}
use netmate_flowcalc.ParserFcts.Decimal.{decimal, parse_ulong-decimal}
use netmate_flowcalc.FilterValue.{
  make, bytes_of, get_type_length, from_network, big_endian, get_string,
}

pub data Unsigned : Type 0 where
  u8 u16 u32 : Unsigned

abbrev pub type_name : Unsigned → String
type_name u8 = "UInt8"
type_name u16 = "UInt16"
type_name u32 = "UInt32"

abbrev pub size : Unsigned → ℕ
size u8 = 1
size u16 = 2
size u32 = 4

abbrev pub limit : Unsigned → ℕ
limit u8 = 256
limit u16 = 65536
limit u32 = 4294967296

-- A number in decimal that fits an unsigned type becomes a filter value whose first bytes, as many
-- as `getTypeLength` says, stand for the number in network order.
pub make-decimal :
    (o : Outside) (t : Unsigned) (n : ℕ)
    → n < limit t
    → Returns (make o (type_name t) (decimal n)) (λ v.
      (get_type_length (type_name t) ≡ some (size t))
      × (size t ≤ v.len)
      × (from_network (take (size t) v.val) ≡ n))
unfolding make bytes_of get_type_length from_network big_endian
make-decimal o u8 n h =
    rw (parse_ulong-decimal n 0 ulong_max (omega arith) (omega arith))
      (refl, omega arith, omega arith)
make-decimal o u16 n h =
    rw (parse_ulong-decimal n 0 ulong_max (omega arith) (omega arith))
      (refl, omega arith, omega arith)
make-decimal o u32 n h =
    rw (parse_ulong-decimal n 0 ulong_max (omega arith) (omega arith))
      (refl, omega arith, omega arith)

-- What `getString` gives back for a number: nothing for 32 bits, since it asks for a type "Uint32".
abbrev pub printed : Unsigned → ℕ → List ℕ
printed u8 n = decimal n
printed u16 n = decimal n
printed u32 n = []

char_value : (n : ℕ) → n < 256 → from_network (n % 256 ∷ []) ≡ n
unfolding from_network big_endian
char_value n h = omega arith

short_value : (n : ℕ) → n < 65536 → from_network (n / 256 % 256 ∷ n % 256 ∷ []) ≡ n
unfolding from_network big_endian
short_value n h = omega arith

-- The text of a filter value that was made from a number in decimal is that number again for the
-- types UInt8 and UInt16; for UInt32 it is empty.
pub get_string-make :
    (o : Outside) (inet_ntop : List ℕ → List ℕ) (t : Unsigned) (n : ℕ)
    → n < limit t
    → Returns (make o (type_name t) (decimal n)) (λ v. get_string inet_ntop v ≡ printed t n)
unfolding make bytes_of get_string
get_string-make o inet_ntop u8 n h =
    rw (parse_ulong-decimal n 0 ulong_max (omega arith) (omega arith)) (ap decimal (char_value n h))
get_string-make o inet_ntop u16 n h =
    rw (parse_ulong-decimal n 0 ulong_max (omega arith) (omega arith))
      (ap decimal (short_value n h))
get_string-make o inet_ntop u32 n h =
    rw (parse_ulong-decimal n 0 ulong_max (omega arith) (omega arith)) refl
