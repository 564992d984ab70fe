-- ===== src/Scheduler/Tests.antt =====
-- Runs of the event queue, and its theorems at concrete queues.
use netmate_flowcalc.Common.{ℕ, ◌*◌, ◌≡◌, refl, List, [], ◌∷◌, ◌++◌, false, arith}
use netmate_flowcalc.Common.Int.{pos, ◌+ℤ◌, ◌≤ℤ◌}
use netmate_flowcalc.Timeval.{Timeval, cmp, micros}
use netmate_flowcalc.Scheduler.{
  Event, activate_rules, add_event, del_rule_events, flow_timeout, push_export, resched_next_event,
  less, delete_rule, without_rule, cons_some, erase_rule, deleted,
}
use netmate_flowcalc.Scheduler.Order.{AllAfter, IsOrdered, NoneAfter, add_event-IsOrdered}
use netmate_flowcalc.Scheduler.Rules.{del_rule_events_lem, names_all}
use netmate_flowcalc.Scheduler.Recurring.{resched_next_event-recurring}

abbrev at : ℕ → ℕ → Timeval
at s u = record { tv_sec = pos s; tv_usec = pos u }

abbrev start_rules : Event
start_rules = record { body = activate_rules (1 ∷ 2 ∷ []); when = at 10 0; interval = 0 }

abbrev export_rule : Event
export_rule = record { body = push_export (1 ∷ []) false; when = at 12 500000; interval = 2500 }

abbrev timeout_rule : Event
timeout_rule = record { body = flow_timeout 2 30; when = at 12 500000; interval = 30000 }

abbrev queue : List Event
queue = start_rules ∷ export_rule ∷ []

queue-IsOrdered : IsOrdered queue
unfolding less cmp
queue-IsOrdered = ((refl, tt), (tt, tt))

behind_equal : add_event timeout_rule queue ≡ start_rules ∷ export_rule ∷ timeout_rule ∷ []
unfolding add_event less cmp
behind_equal = refl

add_event-IsOrdered_example :
    IsOrdered (add_event timeout_rule queue)
    × ((before : List Event) × (after : List Event) × (queue ≡ before ++ after)
        × (add_event timeout_rule queue ≡ before ++ (timeout_rule ∷ after))
        × NoneAfter timeout_rule.when before
        × AllAfter timeout_rule.when after)
add_event-IsOrdered_example = add_event-IsOrdered timeout_rule queue queue-IsOrdered

rule_gone : del_rule_events 1 queue ≡ record start_rules { body = activate_rules (2 ∷ []) } ∷ []
unfolding del_rule_events without_rule cons_some delete_rule erase_rule deleted
rule_gone = refl

del_rule_events_lem_example :
    (names_all 1 (del_rule_events 1 queue) ≡ 0)
    × (names_all 2 (del_rule_events 1 queue) ≡ names_all 2 queue)
    × IsOrdered (del_rule_events 1 queue)
del_rule_events_lem_example =
    del_rule_events_lem 1 2 queue (omega arith, (omega arith, tt)) (omega arith) queue-IsOrdered

resched_next_event-recurring_example :
    (e' : Event) × (resched_next_event (at 20 0) export_rule (timeout_rule ∷ [])
      ≡ add_event e' (timeout_rule ∷ []))
    × IsOrdered (resched_next_event (at 20 0) export_rule (timeout_rule ∷ []))
    × (e'.body ≡ export_rule.body)
    × (e'.interval ≡ export_rule.interval)
    × (micros export_rule.when +ℤ pos (export_rule.interval * 1000) ≤ℤ micros e'.when)
    × (micros (at 20 0) ≤ℤ micros e'.when +ℤ pos 999999)
resched_next_event-recurring_example =
    resched_next_event-recurring (at 20 0) export_rule (timeout_rule ∷ [])
      (record { low = omega arith; high = omega arith })
      (record { low = omega arith; high = omega arith }) (tt, tt) (omega arith)
