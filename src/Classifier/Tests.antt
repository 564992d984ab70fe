-- ===== src/Classifier/Tests.antt =====
-- Runs of the classifier, and its theorems at concrete rules and packets.
use netmate_flowcalc.Common.{
  ℕ, ◌/◌, ◌≡◌, ◌↔◌, refl, true, List, [], ◌∷◌, map, arith, length, if◌then◌else◌,
}
use netmate_flowcalc.Common.Int.{pos}
use netmate_flowcalc.Common.Maps.{int_keys, find}
use netmate_flowcalc.Classifier.{
  Match, MetaData, returned, ft_exact, ft_set, accepts, classify, follows,
}
use netmate_flowcalc.Classifier.Numbers.{Meets, accepts-Meets, number}
use netmate_flowcalc.Classifier.Report.{Listed, any_odd, classify-reported, fits, reported}
use netmate_flowcalc.Classifier.Update.{
  ClassifierSimple, Filter, FilterValue, Rule, add_both, del_both,
}
use netmate_flowcalc.Classifier.Table.{del_both-add_both}

-- The protocol of an IP header, which has to be UDP.
abbrev is_udp : Match
is_udp = record {
  type = ft_exact;
  refer = 1;
  offs = 9;
  len = 1;
  cnt = 1;
  value = λ c i. 17;
  mask = λ i. 255;
}

abbrev packet : MetaData
packet = record {
  offs = λ i. pos 14;
  payload = λ i. 17;
  reverse = 0;
  match_cnt = 3;
  matches = λ i. 0;
}

accepts-Meets_example :
    (accepts is_udp (λ i. 17) ≡ true) ↔ Meets is_udp.type is_udp (number (λ i. 17) 0 is_udp.len)
accepts-Meets_example = accepts-Meets is_udp (λ i. 17) (λ i. omega arith) (λ c i. omega arith)

udp_fits : fits packet (is_udp ∷ []) ≡ true
unfolding accepts
udp_fits = refl

-- Both directions of rule 0, and rule 2 forward.
abbrev table : List (ℕ × List Match)
table = (0, is_udp ∷ []) ∷ (1, is_udp ∷ []) ∷ (4, is_udp ∷ []) ∷ []

two_reported : reported packet table ≡ 0 ∷ 4 ∷ []
unfolding accepts follows
two_reported = refl

classify-reported_example :
    (out : MetaData) × (classify table packet ≡ returned (length (reported packet table)) out)
    × (out.match_cnt ≡ length (reported packet table))
    × Listed out.matches 0 (map (λ k. k / 2) (reported packet table))
    × (out.reverse ≡ (if any_odd (reported packet table) then 1 else packet.reverse))
    × (out.payload ≡ packet.payload)
classify-reported_example =
    classify-reported table packet ((14, refl, tt), ((14, refl, tt), ((14, refl, tt), tt)))
      (unfold accepts follows in omega arith)

abbrev one_byte : FilterValue
one_byte = record { val = λ i. 17; len = 1 }

abbrev udp_filter : Filter
udp_filter = record {
  rname = "DstPort";
  mtype = ft_set;
  refer = 2;
  rrefer = 2;
  offs = 0;
  roffs = 2;
  len = 1;
  cnt = 2;
  fdmask = one_byte;
  mask = one_byte;
  value = λ c. one_byte;
}

abbrev udp_rule : Rule
udp_rule = record { uid = 7; filter = udp_filter ∷ []; bidir = true }

abbrev classifier : ClassifierSimple
classifier = record { rules = table; stats_rules = 3 }

del_both-add_both_example :
    (find int_keys 4 (del_both (add_both is_udp classifier udp_rule) udp_rule).rules
      ≡ find int_keys 4 classifier.rules)
    × ((del_both (add_both is_udp classifier udp_rule) udp_rule).stats_rules
        ≡ classifier.stats_rules)
del_both-add_both_example = del_both-add_both is_udp classifier udp_rule 4 (refl, refl)
