-- ===== src/Scheduler/Rules.antt =====
-- What `delRuleEvents` leaves of a rule.
use netmate_flowcalc.Common.{
  ℕ, ◌+◌, ◌-◌, ◌≤◌, ◌≡◌, ◌≢◌, refl, sym, ◌∙◌, ap, true, false, List, [], ◌∷◌, arith, ◌==◌,
  if◌then◌else◌, Bool-cases, inl, inr,
}
use netmate_flowcalc.Timeval.{Timeval}
use netmate_flowcalc.Scheduler.{
  Event, less, Body, activate_rules, remove_rules, push_export, flow_timeout, proc_timer, other,
  del_rule_events, without_rule, cons_some, delete_rule, erase_rule, deleted,
}
use netmate_flowcalc.Scheduler.Order.{NoneBefore, IsOrdered}

abbrev pub count : ℕ → List ℕ → ℕ
count v [] = 0
count v (r ∷ rs) = (if v == r then 1 else 0) + count v rs

-- How often an event names a rule.
abbrev pub names : ℕ → Body → ℕ
names v (activate_rules rules) = count v rules
names v (remove_rules rules) = count v rules
names v (push_export rules final) = count v rules
names v (flow_timeout rid timeout) = if v == rid then 1 else 0
names v (proc_timer rid actid tm_id) = if v == rid then 1 else 0
names v (other t) = 0

abbrev pub names_all : ℕ → List Event → ℕ
names_all v [] = 0
names_all v (e ∷ es) = names v e.body + names_all v es

-- No event names the rule twice.
abbrev pub AtMostOnce : ℕ → List Event → Type 0
AtMostOnce v [] = Unit {0}
AtMostOnce v (e ∷ es) = (names v e.body ≤ 1) × AtMostOnce v es

abbrev less_one : ℕ → ℕ → ℕ → ℕ
less_one v uid n = if v == uid then n - 1 else n

erase_count :
    (v uid : ℕ) (rs : List ℕ) → count v (erase_rule uid rs).1 ≡ less_one v uid (count v rs)
unfolding erase_rule
erase_count v uid [] = ground arith
erase_count v uid (r ∷ rs) = ground (arith, erase_count v uid rs)

erase_le : (uid : ℕ) (rs : List ℕ) → (erase_rule uid rs).0 ≤ 1
unfolding erase_rule
erase_le uid [] = omega arith
erase_le uid (r ∷ rs) = ground (arith, erase_le uid rs)

deleted_all : (x : ℕ × List ℕ) → x.0 ≤ 1 → (deleted x == 2) ≡ true → x.1 ≡ []
unfolding deleted
deleted_all (n, []) l h = refl
deleted_all (n, r ∷ rs) l h = absurd (ground arith)

-- 2 is returned only if the list was the rule alone, so no other rule is lost.
erase_all :
    (v uid : ℕ) (rs : List ℕ)
    → (deleted (erase_rule uid rs) == 2) ≡ true
    → less_one v uid (count v rs) ≡ 0
erase_all v uid rs h =
    sym (erase_count v uid rs) ∙ ap (count v) (deleted_all (erase_rule uid rs) (erase_le uid rs) h)

module _ (v uid : ℕ) (w : Timeval) (i : ℕ) (es : List Event) where
  rules_names :
      (make : List ℕ → Body)
      → ((rs : List ℕ) → names v (make rs) ≡ count v rs)
      → ((rs : List ℕ)
          → delete_rule (make rs) uid ≡ (deleted (erase_rule uid rs), make (erase_rule uid rs).1))
      → (rs : List ℕ)
      → names_all v
          (cons_some (without_rule uid (record { body = make rs; when = w; interval = i })) es)
        ≡ less_one v uid (names v (make rs)) + names_all v es
  unfolding without_rule cons_some
  rules_names make n d rs = elim (Bool-cases (deleted (erase_rule uid rs) == 2)) [
    | inl h ↦ rw (d rs, h, n rs, erase_all v uid rs h) (omega arith)
    | inr h ↦ rw (d rs, h, n rs, n (erase_rule uid rs).1, erase_count v uid rs)
  ]

  without-names :
      (b : Body)
      → names_all v (cons_some (without_rule uid (record { body = b; when = w; interval = i })) es)
        ≡ less_one v uid (names v b) + names_all v es
  without-names (activate_rules rs) =
      rules_names activate_rules (λ x. refl) (λ x. unfold delete_rule in refl) rs
  without-names (remove_rules rs) =
      rules_names remove_rules (λ x. refl) (λ x. unfold delete_rule in refl) rs
  without-names (push_export rs final) =
      rules_names (λ x. push_export x final) (λ x. refl) (λ x. unfold delete_rule in refl) rs
  without-names (flow_timeout rid timeout) =
      unfold without_rule delete_rule cons_some in ground arith
  without-names (proc_timer rid actid tm_id) =
      unfold without_rule delete_rule cons_some in ground arith
  without-names (other t) = unfold without_rule delete_rule cons_some in ground arith

-- Another rule is named as often as before.
names-del_rule_events :
    (v uid : ℕ) (es : List Event) → v ≢ uid → names_all v (del_rule_events uid es) ≡ names_all v es
unfolding del_rule_events
names-del_rule_events v uid [] n = refl
names-del_rule_events v uid (e ∷ es) n =
    without-names v uid e.when e.interval (del_rule_events uid es) e.body
    ∙ ground (arith, names-del_rule_events v uid es n)

pub del_rule_events_none :
    (uid : ℕ) (es : List Event) → AtMostOnce uid es → names_all uid (del_rule_events uid es) ≡ 0
unfolding del_rule_events
del_rule_events_none uid [] a = refl
del_rule_events_none uid (e ∷ es) a =
    without-names uid uid e.when e.interval (del_rule_events uid es) e.body
    ∙ ground (arith, del_rule_events_none uid es a.1)

without-NoneBefore :
    (uid : ℕ) (t : Timeval) (e : Event) (es : List Event)
    → less e.when t ≡ false
    → NoneBefore t es
    → NoneBefore t (cons_some (without_rule uid e) es)
unfolding without_rule cons_some
without-NoneBefore uid t e es l n = ground arith

del-NoneBefore :
    (uid : ℕ) (t : Timeval) (es : List Event)
    → NoneBefore t es
    → NoneBefore t (del_rule_events uid es)
unfolding del_rule_events
del-NoneBefore uid t [] n = tt
del-NoneBefore uid t (e ∷ es) n =
    without-NoneBefore uid t e (del_rule_events uid es) n.0 (del-NoneBefore uid t es n.1)

without-IsOrdered :
    (uid : ℕ) (e : Event) (es : List Event)
    → NoneBefore e.when es
    → IsOrdered es
    → IsOrdered (cons_some (without_rule uid e) es)
unfolding without_rule cons_some
without-IsOrdered uid e es n o = ground arith

del-IsOrdered : (uid : ℕ) (es : List Event) → IsOrdered es → IsOrdered (del_rule_events uid es)
unfolding del_rule_events
del-IsOrdered uid [] o = tt
del-IsOrdered uid (e ∷ es) o =
    without-IsOrdered uid e (del_rule_events uid es) (del-NoneBefore uid e.when es o.0)
      (del-IsOrdered uid es o.1)

-- After `delRuleEvents` no event names the rule, if none named it twice; every other rule is named as
-- often as before; and the queue stays in order.
pub del_rule_events_lem :
    (uid v : ℕ) (es : List Event)
    → AtMostOnce uid es
    → v ≢ uid
    → IsOrdered es
    → (names_all uid (del_rule_events uid es) ≡ 0)
      × (names_all v (del_rule_events uid es) ≡ names_all v es)
      × IsOrdered (del_rule_events uid es)
del_rule_events_lem uid v es a n o =
    (del_rule_events_none uid es a, names-del_rule_events v uid es n, del-IsOrdered uid es o)
