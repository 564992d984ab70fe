-- ===== src/ParserFcts/Tests.antt =====
-- Parsers on concrete texts.
use netmate_flowcalc.ParserFcts.Strto.{strtol, strtoul}
use netmate_flowcalc.Common.{◌≡◌, refl, some, none, arith, true}
use netmate_flowcalc.Common.Int.{negsuc}
use netmate_flowcalc.ParserFcts.{
  codes, parse_ulong, parse_long, parse_int, parse_bool, is_numeric_ipv4, long_min, long_max,
}
use netmate_flowcalc.ParserFcts.Decimal.{decimal, parse_ulong-decimal}

-- A port of 70000 is accepted where 65535 is the maximum.
parse_ulong-decimal_example : parse_ulong (decimal 70000) 0 65535 ≡ some 70000
parse_ulong-decimal_example = parse_ulong-decimal 70000 0 65535 (omega arith) (omega arith)

hex_test : parse_ulong (codes "0x1F") 0 255 ≡ some 31
unfolding parse_ulong strtoul
hex_test = refl

octal_test : parse_long (codes "-010") long_min long_max ≡ some (negsuc 7)
unfolding parse_long strtol
octal_test = refl

rest_test : parse_int (codes "12ab") long_min long_max ≡ none
unfolding parse_int strtol
rest_test = refl

bool_test : parse_bool (codes "true") ≡ some 1
unfolding parse_bool
bool_test = refl

numeric_test : is_numeric_ipv4 (codes "10.0.0.1") ≡ true
unfolding is_numeric_ipv4
numeric_test = refl
