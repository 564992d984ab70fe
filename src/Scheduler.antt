-- ===== src/Scheduler.antt =====
-- src/netmate/Event.h, Event.cc, EventScheduler.h and EventScheduler.cc: timed events, and the queue
-- of events in the order of their times. A rule is named by its uid, the only part of it that is
-- read here. Times of the system are arguments.
pub mod Order
pub mod Rules
pub mod Recurring
mod Tests
use netmate_flowcalc.Common.{
  ℕ, zero, suc, ◌+◌, ◌*◌, ◌/◌, ◌%◌, Bool, true, false, ◌&&◌, List, [], ◌∷◌, Option, none, some,
  ◌==◌, ltb, if◌then◌else◌,
}
use netmate_flowcalc.Common.Int.{ℤ, pos, negsuc, ◌+ℤ◌, ltb_ℤ, pos_part, neg_part}
use netmate_flowcalc.Timeval.{Timeval, cmp, add, sub0}

-- The event types that hold no rule.
pub data OtherType : Type 0 where
  pull_export add_rules get_info get_modinfo test remove_rules_ctrlcomm add_rules_ctrlcomm
        export_module_timer ctrlcomm_timer :
      OtherType

-- The subclasses of `Event` with what they hold of rules.
pub data Body : Type 0 where
  activate_rules : List ℕ → Body
  remove_rules : List ℕ → Body
  -- the rules, and whether `setFinal` was called
  push_export : List ℕ → Bool → Body
  -- the rule and the timeout
  flow_timeout : ℕ → ℕ → Body
  -- the rule, the action and the timer
  proc_timer : ℕ → ℕ → ℕ → Body
  other : OtherType → Body

pub record Event : Type 0 where
  pub body : Body
  pub when : Timeval
  -- in ms
  pub interval : ℕ

-- floor(x / 10^6 …) of a time in microseconds that is not negative.
align_micros : ℕ → ℕ → ℕ
align_micros when ival = when / ival * ival + ival

-- `doAlign`, for a time since the Epoch. The code computes in `double`, which is exact up to 2^53.
unfoldable pub do_align : Event → Event
unfolding align_micros
do_align e =
    if e.interval == 0
    then e
    else (let t =
          align_micros (pos_part e.when.tv_sec * 1000000 + pos_part e.when.tv_usec)
            (e.interval * 1000) in
        record e { when = record { tv_sec = pos (t / 1000000); tv_usec = pos (t % 1000000) } })

-- The constructors: at an absolute time, and relative to the current one. The sum is not carried.
unfoldable pub make_at : Body → Timeval → ℕ → Bool → Event
make_at body time ival align =
    let e : Event = record { body = body; when = time; interval = ival } in
    if align then do_align e else e

unfoldable pub make_in : Body → Timeval → ℤ → ℤ → ℕ → Bool → Event
make_in body now offs_sec offs_usec ival align =
    make_at body (record { tv_sec = now.tv_sec +ℤ offs_sec; tv_usec = now.tv_usec +ℤ offs_usec })
      ival align

unfoldable pub advance : Event → Event
advance e = record e {
  when =
      add e.when
        (record { tv_sec = pos (e.interval / 1000); tv_usec = pos (e.interval % 1000 * 1000) });
}

-- 1 or 0: whether the rule was there; and one more if no rule is left.
unfoldable pub erase_rule : ℕ → List ℕ → ℕ × List ℕ
erase_rule uid [] = (0, [])
erase_rule uid (r ∷ rs) =
    let (n, rest) = erase_rule uid rs in if r == uid then (1, rs) else (n, r ∷ rest)

deleted : ℕ × List ℕ → ℕ
deleted (n, []) = n + 1
deleted (n, r ∷ rs) = n

-- `deleteRule`: its return value, and what the event holds after the call.
unfoldable pub delete_rule : Body → ℕ → ℕ × Body
unfolding erase_rule deleted
delete_rule (activate_rules rules) uid =
    (deleted (erase_rule uid rules), activate_rules (erase_rule uid rules).1)
delete_rule (remove_rules rules) uid =
    (deleted (erase_rule uid rules), remove_rules (erase_rule uid rules).1)
delete_rule (push_export rules final) uid =
    (deleted (erase_rule uid rules), push_export (erase_rule uid rules).1 final)
delete_rule (flow_timeout rid timeout) uid = (if uid == rid then 2 else 0, flow_timeout rid timeout)
delete_rule (proc_timer rid actid tm_id) uid =
    (if uid == rid then 2 else 0, proc_timer rid actid tm_id)
delete_rule (other t) uid = (0, other t)

-- struct lttv
unfoldable pub less : Timeval → Timeval → Bool
less t1 t2 = ltb_ℤ (cmp t1 t2) (pos 0)

-- `addEvent`. The multimap inserts behind the entries with the same key.
unfoldable pub add_event : Event → List Event → List Event
add_event ev [] = ev ∷ []
add_event ev (e ∷ es) = if less ev.when e.when then ev ∷ e ∷ es else e ∷ add_event ev es

-- The event without the rule, or nothing if it is deleted.
without_rule : ℕ → Event → Option Event
unfolding delete_rule
without_rule uid e =
    let (ret, body) = delete_rule e.body uid in
    if ret == 2 then none else some (record e { body = body })

cons_some : Option Event → List Event → List Event
cons_some none es = es
cons_some (some e) es = e ∷ es

unfoldable pub del_rule_events : ℕ → List Event → List Event
unfolding without_rule cons_some
del_rule_events uid [] = []
del_rule_events uid (e ∷ es) = cons_some (without_rule uid e) (del_rule_events uid es)

unfoldable pub get_next_event : List Event → Option (Event × List Event)
get_next_event [] = none
get_next_event (e ∷ es) = some (e, es)

-- TIME_GAP_HACK is defined, as 0, so the code under its `#ifdef` is compiled.
catch_up : Timeval → Event → Event
catch_up now e = if ltb_ℤ (pos 0) (sub0 now e.when).tv_sec then record e { when = now } else e

unfoldable pub resched_next_event : Timeval → Event → List Event → List Event
unfolding catch_up
resched_next_event now ev es =
    if ev.interval == 0 then es else add_event (catch_up now (advance ev)) es

-- MIN_TIMEOUT
abbrev pub min_timeout : Timeval
min_timeout = record { tv_sec = pos 0; tv_usec = pos 10000 }

is_due : Timeval → Bool
is_due rv =
    ltb_ℤ rv.tv_sec (pos 1) && ltb_ℤ (pos 0) (rv.tv_sec +ℤ pos 1) && ltb_ℤ rv.tv_usec (pos 100)

-- The time to wait, and whether a byte is written to the signal pipe.
unfoldable pub get_next_event_time : Timeval → List Event → Timeval × Bool
unfolding is_due
get_next_event_time now [] = (min_timeout, false)
get_next_event_time now (e ∷ es) = (sub0 e.when now, is_due (sub0 e.when now))
