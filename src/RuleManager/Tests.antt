-- ===== src/RuleManager/Tests.antt =====
-- Runs of the rule database, and its theorems at concrete rules.
use Prim.Native.String.{String}
use netmate_flowcalc.Common.{
  ℕ, get_elem?, ◌≡◌, ◌≢◌, refl, inr, false, List, [], ◌∷◌, none, some, arith, ap,
}
use netmate_flowcalc.Common.Int.{pos, ◌+ℤ◌, ◌-ℤ◌}
use netmate_flowcalc.IdSource.{new_id}
use netmate_flowcalc.IdSource as ids
use netmate_flowcalc.Timeval.{Timeval}
use netmate_flowcalc.Scheduler.{Event, activate_rules, flow_timeout, make_in, add_event}
use netmate_flowcalc.Scheduler.Rules.{names_all}
use netmate_flowcalc.RuleManager.{
  Rule, RuleManager, ok, rule, null, rs_new, make, add_rule, as_valid, put_rule, del_rule,
  get_rule_named, get_rule, find_uid, rules_of, assign_uid, grow, names,
}
use netmate_flowcalc.RuleManager.Keeps.{IsValid, lookup, put-IsValid}
use netmate_flowcalc.RuleManager.Database.{
  add_rule-IsValid, del_rule-IsValid, add_rule-del_rule, add_rule_overwrites, next_uid,
}
use netmate_flowcalc.RuleManager.Batch.{add_rules, add_loop, add_one, add_time_events}

a_not_b : ◌≢◌ {A = String} "a" "b"
a_not_b = λ e. cc (ap (λ x. names.same "a" x) e)

abbrev rule_a : Rule
rule_a = record {
  uid = 0;
  state = rs_new;
  set_name = "lab";
  rule_name = "a";
  start = 130;
  stop = 0;
}

abbrev rule_b : Rule
rule_b = record {
  uid = 0;
  state = rs_new;
  set_name = "lab";
  rule_name = "b";
  start = 130;
  stop = 0;
}

make-IsValid : IsValid make
unfolding make find_uid
make-IsValid = record { indexed = λ s n u h. cc; listed = λ u r h. cc }

abbrev one_rule : RuleManager
one_rule = put_rule make rule_a

added : add_rule make rule_a ≡ ok one_rule
unfolding add_rule get_rule_named get_rule find_uid make
added = refl

one_rule-IsValid : IsValid one_rule
one_rule-IsValid =
    put-IsValid make make-IsValid rule_a (λ old h. unfold make in cc) (unfold make find_uid in refl)

add_rule-IsValid_example :
    IsValid one_rule
    × (get_rule_named one_rule "lab" "a" ≡ rule (as_valid rule_a (next_uid make)))
    × (lookup one_rule "lab" "b" ≡ lookup make "lab" "b")
    × (one_rule.tasks ≡ make.tasks +ℤ pos 1)
add_rule-IsValid_example =
    add_rule-IsValid make one_rule rule_a "lab" "b" make-IsValid (λ old h. unfold make in cc) added
      (inr a_not_b)

abbrev timeout : Event
timeout = record {
  body = flow_timeout 0 30;
  when = record { tv_sec = pos 160; tv_usec = pos 0 };
  interval = 30000;
}

del_rule-IsValid_example :
    IsValid (del_rule one_rule (as_valid rule_a 0) (some (timeout ∷ []))).0
    × (get_rule_named
          (del_rule one_rule (as_valid rule_a 0) (some (timeout ∷ []))).0
          (as_valid rule_a 0).set_name
          (as_valid rule_a 0).rule_name
        ≡ null)
    × ((left : List Event) × ((del_rule one_rule (as_valid rule_a 0) (some (timeout ∷ []))).1
          ≡ some left)
        × (names_all (as_valid rule_a 0).uid left ≡ 0))
del_rule-IsValid_example =
    del_rule-IsValid one_rule (as_valid rule_a 0) (timeout ∷ []) one_rule-IsValid
      (unfold put_rule make as_valid new_id ids.make in refl) (unfold as_valid in (omega arith, tt))

no_rules : (u : ℕ) (old : Rule) → get_elem? make.rule_db u ≡ some (some old) → ⊥
unfolding make
no_rules u old h = cc h

add_rule-del_rule_example :
    (get_rule_named (del_rule one_rule (as_valid rule_a (next_uid make)) none).0 "lab" "a"
      ≡ get_rule_named make "lab" "a")
    × (lookup (del_rule one_rule (as_valid rule_a (next_uid make)) none).0 "lab" "a"
        ≡ lookup make "lab" "a")
    × ((del_rule one_rule (as_valid rule_a (next_uid make)) none).0.tasks ≡ make.tasks)
add_rule-del_rule_example =
    add_rule-del_rule make one_rule rule_a none "lab" "a" make-IsValid
      (λ old h. no_rules (next_uid make) old h) added

-- The id source gives 0 again.
abbrev rewound : RuleManager
rewound = record one_rule { id_source = ids.make 0 }

rewound-IsValid : IsValid rewound
rewound-IsValid = record { indexed = one_rule-IsValid.indexed; listed = one_rule-IsValid.listed }

added_again : add_rule rewound rule_b ≡ ok (put_rule rewound rule_b)
unfolding add_rule get_rule_named get_rule find_uid put_rule make
added_again = refl

add_rule_overwrites_example :
    get_rule_named (put_rule rewound rule_b) "lab" "a" ≡ rule (as_valid rule_b (next_uid rewound))
add_rule_overwrites_example =
    add_rule_overwrites rewound (put_rule rewound rule_b) rule_b "lab" "a" rewound-IsValid
      (unfold put_rule make new_id find_uid assign_uid rules_of ids.make in refl) added_again

abbrev clock : Timeval
clock = record { tv_sec = pos 100; tv_usec = pos 0 }

-- Both rules start at the same time.
abbrev started : List Event
started = make_in (activate_rules (0 ∷ 1 ∷ [])) clock (pos 130 -ℤ pos 100) (pos 0) 0 false ∷ []

abbrev two_rules : RuleManager
two_rules = put_rule one_rule rule_b

both_added : add_rules 100 clock make [] (rule_a ∷ rule_b ∷ []) ≡ ok (two_rules, started)
unfolding add_rules add_loop add_one add_time_events add_rule get_rule_named get_rule find_uid
    put_rule make new_id assign_uid rules_of grow as_valid ids.make add_event
both_added = refl
