-- ===== src/FilterValue/Tests.antt =====
-- Filter values from concrete texts.
use netmate_flowcalc.Common.{◌≡◌, arith, ◌∷◌, [], false, Returns}
use netmate_flowcalc.ParserFcts.{Outside, failed}
use netmate_flowcalc.ParserFcts.Decimal.{decimal}
use netmate_flowcalc.FilterValue.{make, get_string, hex_text}
use netmate_flowcalc.FilterValue.Numbers.{u32, get_string-make}
use netmate_flowcalc.FilterValue.Hex.{make-hex_text}

abbrev no_names : Outside
no_names = record {
  getaddrinfo = λ numeric s. failed;
  getaddrinfo6 = λ numeric s. failed;
  is_float = λ s. false;
  is_double = λ s. false;
}

get_string-make_example :
    Returns (make no_names "UInt32" (decimal 8080)) (λ v. get_string (λ a. []) v ≡ [])
get_string-make_example = get_string-make no_names (λ a. []) u32 8080 (omega arith)

make-hex_text_example : Returns (make no_names "Binary" (48 ∷ 120 ∷ hex_text (171 ∷ 5 ∷ []))) (λ v.
    (v.val ≡ 171 ∷ 5 ∷ [])
    × (v.len ≡ 2)
    × (get_string (λ a. []) v ≡ 48 ∷ 120 ∷ hex_text (171 ∷ 5 ∷ [])))
make-hex_text_example =
    make-hex_text no_names (λ a. []) 171 (5 ∷ []) (omega arith, (omega arith, tt)) (omega arith)
