-- ===== src/PacketProcessor/Export/Timeout.antt =====
-- `ruleTimeout` and `exportRule` of src/netmate/PacketProcessor.cc together, as the handler of a
-- FLOW_TIMEOUT event in src/netmate/Meter.cc calls them.
use netmate_flowcalc.Common.{
  ℕ, ◌<◌, ◌≡◌, refl, sym, ap, ◌∙◌, true, false, List, [], ◌∷◌, none, some, ltb, length, arith,
  Bool-cases, Option-cases, inl, inr, some_inj, Returns, subst, lt→ltb, get_elem?,
}
use netmate_flowcalc.Common.Maps.{AllFound, Distinct-AllFound, find}
use netmate_flowcalc.MetricData.{MetricData}
use netmate_flowcalc.FlowCreator.{FlowInfo, FlowCreator, flow_keys, get_flow, eqkey, eqkey_eq}
use netmate_flowcalc.FlowCreator.Lookup.{IsValid}
use netmate_flowcalc.PacketProcessor.{RuleActions}
use netmate_flowcalc.PacketProcessor.Flows.{IsReady}
use netmate_flowcalc.PacketProcessor.Running.{IsRunning}
use netmate_flowcalc.PacketProcessor.Export.{
  is_past, export_flows, export_rule, export_auto, mark_idle, any_past, rule_timeout, make_metrics,
}
use netmate_flowcalc.PacketProcessor.Export.Idle.{length-make_metrics}
use netmate_flowcalc.PacketProcessor.Export.Metrics.{data_of, flows_at, entries-AllReady}
use netmate_flowcalc.PacketProcessor.Export.Sweep.{IsAt, IsSwept, AllGone, sweep}

module _ {S : Type 0} where
  -- How an export at `now` leaves a rule with flows.
  pub record IsExported (k now ival : ℕ) (ra ra' : RuleActions S) (md : List MetricData)
      : Type 0 where
    pub running : IsRunning k ra'
    pub kept :
        (key : List ℕ) (f : FlowInfo S)
        → get_flow key ra'.flows ≡ some f
        → (get_flow key ra.flows ≡ some f) × (is_past f.last_pkt ival now ≡ false)
    pub spared :
        (key : List ℕ) (f : FlowInfo S)
        → get_flow key ra.flows ≡ some f
        → is_past f.last_pkt ival now ≡ false
        → get_flow key ra'.flows ≡ some f
    pub metrics : length md ≡ length ra.actions
    pub exported :
        (j : ℕ) (m : MetricData)
        → get_elem? (make_metrics ra.actions) j ≡ some m
        → get_elem? md j ≡ some (data_of now ival ra.flow_key_len j ra.flows.flows m)

  -- A flow found among the entries is gone if it was idle.
  gone_of_found :
      (now ival key_len n : ℕ) (positive : ltb 0 now ≡ true) (fc₀ : FlowCreator S)
      (v₀ : IsValid (IsReady n) fc₀) (es : List (List ℕ × FlowInfo S)) (fc : FlowCreator S)
      (k : List ℕ) (f : FlowInfo S)
      → AllGone now ival key_len n positive fc₀ v₀ es fc
      → find flow_keys k es ≡ some f
      → is_past f.last_pkt ival now ≡ true
      → get_flow k fc ≡ none
  gone_of_found now ival key_len n positive fc₀ v₀ [] fc k f g h p = cc h
  gone_of_found now ival key_len n positive fc₀ v₀ ((j, e) ∷ es) fc k f (g, gs) h p =
      elim (Bool-cases (eqkey j k)) [
        | inl q ↦
            let same : e ≡ f = some_inj (rw q at h) in
            subst (λ t. get_flow t fc ≡ none) (eqkey_eq j k q)
              (g (ap (λ t. is_past t.last_pkt ival now) same ∙ p))
        | inr q ↦ gone_of_found now ival key_len n positive fc₀ v₀ es fc k f gs (rw q at h) p
      ]

  mark_idle-IsRunning :
      (k now ival : ℕ) (ra : RuleActions S) → IsRunning k ra → IsRunning k (mark_idle now ival ra)
  unfolding mark_idle
  mark_idle-IsRunning k now ival ra h = elim (Bool-cases (is_past ra.last_pkt ival now)) [
    | inl e ↦ rw e (record { auto = h.auto; valid = h.valid; ids_left = h.ids_left })
    | inr e ↦ rw e h
  ]

  mark_idle_flows : (now ival : ℕ) (ra : RuleActions S) → (mark_idle now ival ra).flows ≡ ra.flows
  unfolding mark_idle
  mark_idle_flows now ival ra = elim (Bool-cases (is_past ra.last_pkt ival now)) [
    | inl e ↦ rw e
    | inr e ↦ rw e
  ]

  swept-IsExported :
      (k now ival key_len : ℕ) (positive : ltb 0 now ≡ true) (ra ra' : RuleActions S)
      (fc : FlowCreator S) (md : List MetricData)
      → (h : IsRunning k ra)
      → IsSwept now ival key_len
          (length ra.actions)
          positive
          ra.flows
          h.valid
          ra.flows.flows
          ra.flows
          fc
      → IsRunning k ra'
      → ra'.flows ≡ fc
      → length md ≡ length ra.actions
      → ((j : ℕ) (m : MetricData)
          → get_elem? (make_metrics ra.actions) j ≡ some m
          → get_elem? md j ≡ some (data_of now ival ra.flow_key_len j ra.flows.flows m))
      → IsExported k now ival ra ra' md
  unfolding get_flow
  swept-IsExported k now ival key_len positive ra ra' fc md h s running q l x = record {
    running = running;
    kept = λ key f g.
        let there = subst (λ t. get_flow key t ≡ some f) q g in
        (
          s.kept key f there,
          elim (Bool-cases (is_past f.last_pkt ival now)) [
            | inr e ↦ e
            | inl e ↦
                let gone =
                  gone_of_found now ival key_len (length ra.actions) positive ra.flows h.valid
                    ra.flows.flows fc key f s.gone (s.kept key f there) e in
                cc (gone, there)
          ],
        );
    spared = λ key f g e. subst (λ t. get_flow key t ≡ some f) (sym q) (s.spared key f g e);
    metrics = l;
    exported = x;
  }

  export_auto-IsExported :
      (k now ival : ℕ) (ra : RuleActions S)
      → 0 < now
      → IsRunning k ra
      → Returns (export_auto now ival ra) (λ (ra', md). IsExported k now ival ra ra' md)
  unfolding export_auto
  export_auto-IsExported k now ival ra p h =
      let positive = lt→ltb 0 now p in
      let n = length ra.actions in
      let found = Distinct-AllFound flow_keys ra.flows.flows h.valid.distinct in
      let at : IsAt now ival ra.flow_key_len n positive ra.flows h.valid ra.flows = record {
        valid = h.valid;
        of_first = λ k f e. e;
      } in
      let ok =
        sweep now ival ra.flow_key_len n positive ra.flows h.valid ra.flows.flows ra.flows
          (make_metrics ra.actions) found at (length-make_metrics ra.actions) in
      elim (Option-cases (
        export_flows now ival ra.flow_key_len ra.flows.flows (ra.flows, make_metrics ra.actions))) [
          | inl e ↦ absurd (rw e at ok)
          | inr ((fc, md), e) ↦
              let (s, l) = (rw e at ok) in
              let swept : RuleActions S = record ra { flows = fc } in
              let running : IsRunning k swept = record {
                auto = h.auto;
                valid = s.valid;
                ids_left = omega (arith, h.ids_left, s.num);
              } in
              rw e (
                swept-IsExported k now ival ra.flow_key_len positive ra (mark_idle now ival swept)
                  fc md h s (mark_idle-IsRunning k now ival swept running)
                  (mark_idle_flows now ival swept) l (λ j m.
                    flows_at now ival ra.flow_key_len n j ra.flows.flows ra.flows fc
                      (make_metrics ra.actions) md m p
                      (entries-AllReady n ra.flows ra.flows.flows h.valid found)
                      (length-make_metrics ra.actions) e))
        ]

  -- Let the tables of a rule with flows be valid. An export at a time `now` other than 0 returns a
  -- rule whose tables are valid. The flows that are left are just those that were there and are not
  -- idle at `now`, each as it was. There is metric data for each module of the rule, and that of
  -- module `j` has what module `j` of each idle flow exports, in the order of the table, with the
  -- key and the id of the flow; only the first module is told whether the flow is new.
  pub export_rule-IsExported :
      (k now ival : ℕ) (ra : RuleActions S)
      → 0 < now
      → IsRunning k ra
      → Returns (export_rule now ival ra) (λ (ra', md). IsExported k now ival ra ra' md)
  unfolding export_rule
  export_rule-IsExported k now ival ra p h = simp h.auto (export_auto-IsExported k now ival ra p h)

  any_past-false :
      (now ival : ℕ) (fc : FlowCreator S) (es : List (List ℕ × FlowInfo S))
      → ((key : List ℕ) (f : FlowInfo S)
          → get_flow key fc ≡ some f
          → is_past f.last_pkt ival now ≡ false)
      → AllFound flow_keys fc.flows es
      → any_past now ival es ≡ false
  unfolding any_past get_flow
  any_past-false now ival fc [] h a = refl
  any_past-false now ival fc ((key, f) ∷ es) h (found, rest) =
      rw (h key f found) (any_past-false now ival fc es h rest)

  any_past-true :
      (now ival : ℕ) (fc : FlowCreator S) (es : List (List ℕ × FlowInfo S))
      → AllFound flow_keys fc.flows es
      → any_past now ival es ≡ true
      → (key : List ℕ) × (f : FlowInfo S) × (get_flow key fc ≡ some f)
        × (is_past f.last_pkt ival now ≡ true)
  unfolding any_past get_flow
  any_past-true now ival fc [] a h = cc h
  any_past-true now ival fc ((key, f) ∷ es) (found, rest) h =
      elim (Bool-cases (is_past f.last_pkt ival now)) [
        | inl e ↦ (key, f, found, e)
        | inr e ↦ any_past-true now ival fc es rest (rw e at h)
      ]

  -- Whatever `ruleTimeout` then says of an exported rule, it does not ask for an export again.
  timeout_quiet :
      (k now ival : ℕ) (ra ra' : RuleActions S) (md : List MetricData)
      → IsExported k now ival ra ra' md
      → rule_timeout ra' ival now ≡ 1
  unfolding rule_timeout
  timeout_quiet k now ival ra ra' md x =
      let found = Distinct-AllFound flow_keys ra'.flows.flows x.running.valid.distinct in
      let none_past =
        any_past-false now ival ra'.flows ra'.flows.flows (λ key f g. (x.kept key f g).1) found in
      simp (x.running.auto, none_past) (ground arith)

  timeout_flow :
      (k now ival : ℕ) (ra : RuleActions S)
      → IsRunning k ra
      → rule_timeout ra ival now ≡ 0
      → any_past now ival ra.flows.flows ≡ true
  unfolding rule_timeout
  timeout_flow k now ival ra h e = ground (arith, h.auto)

  -- Let the tables of a rule with flows be valid, and let `ruleTimeout` report a timeout at a time
  -- other than 0. Then `exportRule` at that time takes at least one flow out of the table, it leaves
  -- no flow that is idle at that time, and afterwards `ruleTimeout` is 1, which is no timeout.
  pub rule_timeout-export_rule :
      (k now ival : ℕ) (ra : RuleActions S)
      → 0 < now
      → IsRunning k ra
      → rule_timeout ra ival now ≡ 0
      → Returns (export_rule now ival ra) (λ (ra', md).
        ((key : List ℕ) × (f : FlowInfo S) × (get_flow key ra.flows ≡ some f)
          × (get_flow key ra'.flows ≡ none))
        × ((key : List ℕ) (f : FlowInfo S)
            → get_flow key ra'.flows ≡ some f
            → is_past f.last_pkt ival now ≡ false)
        × (rule_timeout ra' ival now ≡ 1))
  rule_timeout-export_rule k now ival ra p h e =
      let ok = export_rule-IsExported k now ival ra p h in
      let found = Distinct-AllFound flow_keys ra.flows.flows h.valid.distinct in
      let (key, f, there, past) =
        any_past-true now ival ra.flows ra.flows.flows found (timeout_flow k now ival ra h e) in
      elim (Option-cases (export_rule now ival ra)) [
        | inl d ↦ absurd (rw d at ok)
        | inr ((ra', md), d) ↦
            let x = (rw d at ok) in
            rw d (
              (
                key,
                f,
                there,
                elim (Option-cases (get_flow key ra'.flows)) [
                  | inl gone ↦ gone
                  | inr (g, left) ↦
                      let (was, not_past) = x.kept key g left in
                      let same : f ≡ g = some_inj (sym there ∙ was) in
                      cc (ap (λ t. is_past t.last_pkt ival now) same, past, not_past)
                ],
              ),
              λ left g h. (x.kept left g h).1,
              timeout_quiet k now ival ra ra' md x,
            )
      ]
