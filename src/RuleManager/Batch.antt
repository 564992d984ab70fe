-- ===== src/RuleManager/Batch.antt =====
-- `addRules` of src/netmate/RuleManager.cc: rules are added one by one, and those with the same start
-- or stop time share an event. `now` is what `time` gives and `clock` what the meter's clock gives.
use netmate_flowcalc.Common.{
  ℕ, ◌≡◌, ◌≢◌, ◌⊎◌, refl, subst, Bool, false, List, [], ◌∷◌, ◌++◌, none, some, ◌==◌, if◌then◌else◌,
  length, arith, inl, inr,
}
use netmate_flowcalc.Common.Int.{pos, ◌-ℤ◌}
use netmate_flowcalc.Common.Maps.{int_keys, find, assign}
use netmate_flowcalc.IdSource.{new_id}
use netmate_flowcalc.Timeval.{Timeval}
use netmate_flowcalc.Scheduler.{Event, Body, activate_rules, remove_rules, make_in, add_event}
use netmate_flowcalc.Scheduler.Order.{IsOrdered, insert-IsOrdered}
use netmate_flowcalc.RuleManager.{Rule, RuleManager, Outcome, ok, error, undefined, add_rule}

-- ruleTimeIndex_t, with the uids of the rules.
abbrev pub TimeIndex : Type 0
TimeIndex = List (ℕ × List ℕ)

pub record Added : Type 0 where
  pub manager : RuleManager
  pub start : TimeIndex
  pub stop : TimeIndex

-- index[time].push_back(uid)
push_at : ℕ → ℕ → TimeIndex → TimeIndex
push_at time uid index = elim (find int_keys time index) [
  | none ↦ assign int_keys time (uid ∷ []) index
  | some uids ↦ assign int_keys time (uids ++ uid ∷ []) index
]

-- The body of the loop, up to the `catch`.
unfoldable pub add_one : Added → Rule → Outcome Added
unfolding push_at
add_one a r =
    let uid = (new_id a.manager.id_source).0 in
    elim (add_rule a.manager r) [
      | ok m ↦ ok (record {
        manager = m;
        start = push_at r.start uid a.start;
        stop = if r.stop == 0 then a.stop else push_at r.stop uid a.stop;
      })
      | error ↦ error
      | undefined ↦ undefined
    ]

-- A single rule that is refused throws on; of several a refused one is skipped.
unfoldable pub add_loop : Bool → Added → List Rule → Outcome Added
unfolding add_one
add_loop single a [] = ok a
add_loop single a (r ∷ rs) = elim (add_one a r) [
  | ok b ↦ add_loop single b rs
  | error ↦ if single then error else add_loop single a rs
  | undefined ↦ undefined
]

-- One event for each time, `first - now` seconds from the current time.
unfoldable pub add_time_events : (List ℕ → Body) → ℕ → Timeval → TimeIndex → List Event → List Event
add_time_events body now clock [] es = es
add_time_events body now clock ((time, uids) ∷ index) es =
    add_time_events body now clock index
      (add_event (make_in (body uids) clock (pos time -ℤ pos now) (pos 0) 0 false) es)

-- The events for the start times, then those for the stop times.
add_all_events : ℕ → Timeval → List Event → Outcome Added → Outcome (RuleManager × List Event)
unfolding add_time_events
add_all_events now clock es (ok a) = ok (
  a.manager,
  add_time_events remove_rules now clock a.stop
      (add_time_events activate_rules now clock a.start es),
)
add_all_events now clock es error = error
add_all_events now clock es undefined = undefined

unfoldable pub add_rules :
    ℕ → Timeval → RuleManager → List Event → List Rule → Outcome (RuleManager × List Event)
unfolding add_loop add_all_events
add_rules now clock m es rules =
    add_all_events now clock es
      (add_loop (length rules == 1) (record { manager = m; start = []; stop = [] }) rules)

add_time_events-IsOrdered :
    (body : List ℕ → Body) (now : ℕ) (clock : Timeval) (index : TimeIndex) (es : List Event)
    → IsOrdered es
    → IsOrdered (add_time_events body now clock index es)
unfolding add_time_events
add_time_events-IsOrdered body now clock [] es o = o
add_time_events-IsOrdered body now clock ((time, uids) ∷ index) es o =
    add_time_events-IsOrdered body now clock index _
      (insert-IsOrdered (make_in (body uids) clock (pos time -ℤ pos now) (pos 0) 0 false) es o)

outcome_cases : (x : Outcome Added) → ((a : Added) × (x ≡ ok a)) ⊎ ((x ≡ error) ⊎ (x ≡ undefined))
outcome_cases (ok a) = inl (a, refl)
outcome_cases error = inr (inl refl)
outcome_cases undefined = inr (inr refl)

events_inj :
    {m m' : RuleManager} {es es' : List Event}
    → ◌≡◌ {A = Outcome (RuleManager × List Event)} (ok (m, es)) (ok (m', es'))
    → es ≡ es'
events_inj h = cc h

all_events-IsOrdered :
    (now : ℕ) (clock : Timeval) (m' : RuleManager) (es es' : List Event) (x : Outcome Added)
    → IsOrdered es
    → add_all_events now clock es x ≡ ok (m', es')
    → IsOrdered es'
unfolding add_all_events
all_events-IsOrdered now clock m' es es' (ok a) o h = subst IsOrdered (events_inj h) (
    add_time_events-IsOrdered remove_rules now clock a.stop _
      (add_time_events-IsOrdered activate_rules now clock a.start es o))
all_events-IsOrdered now clock m' es es' error o h = cc
all_events-IsOrdered now clock m' es es' undefined o h = cc

-- However many rules are added, and whichever are refused, the queue of events stays in order.
pub add_rules-IsOrdered :
    (now : ℕ) (clock : Timeval) (m m' : RuleManager) (es es' : List Event) (rules : List Rule)
    → IsOrdered es
    → add_rules now clock m es rules ≡ ok (m', es')
    → IsOrdered es'
unfolding add_rules
add_rules-IsOrdered now clock m m' es es' rules o h =
    all_events-IsOrdered now clock m' es es'
      (add_loop (length rules == 1) (record { manager = m; start = []; stop = [] }) rules) o h

loop_no_error : (a : Added) (rules : List Rule) → add_loop false a rules ≢ error
unfolding add_loop
loop_no_error a [] = λ h. cc
loop_no_error a (r ∷ rs) = elim (outcome_cases (add_one a r)) [
  | inl (b, e) ↦ rw (add_loop, e) (loop_no_error b rs)
  | inr (inl e) ↦ rw (add_loop, e) (loop_no_error a rs)
  | inr (inr e) ↦ rw (add_loop, e) (λ h. cc)
]

all_events_no_error :
    (now : ℕ) (clock : Timeval) (es : List Event) (x : Outcome Added)
    → x ≢ error
    → add_all_events now clock es x ≢ error
unfolding add_all_events
all_events_no_error now clock es (ok a) n = λ h. cc
all_events_no_error now clock es error n = absurd (n refl)
all_events_no_error now clock es undefined n = λ h. cc

-- Unless it is exactly one rule that is to be added, no error is reported, even if every rule is
-- refused.
pub add_rules_no_error :
    (now : ℕ) (clock : Timeval) (m : RuleManager) (es : List Event) (rules : List Rule)
    → length rules ≢ 1
    → add_rules now clock m es rules ≢ error
unfolding add_rules
add_rules_no_error now clock m es rules n =
    let one : (length rules == 1) ≡ false = ground arith in
    let start : Added = record { manager = m; start = []; stop = [] } in
    all_events_no_error now clock es (add_loop (length rules == 1) start rules)
      (rw one (loop_no_error start rules))
