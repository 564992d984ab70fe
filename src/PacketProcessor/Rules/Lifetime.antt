-- ===== src/PacketProcessor/Rules/Lifetime.antt =====
-- A rule of src/netmate/PacketProcessor.cc from `addRule` to `delRule`.
use Prim.Native.String.{String}
use netmate_flowcalc.Common.{
  ℕ, zero, suc, ◌+◌, ◌-◌, ◌<◌, ◌≡◌, ◌≢◌, refl, sym, ap, ◌∙◌, Bool, true, List, [], ◌∷◌, ◌++◌, some,
  length, length-append, length-replicate, arith, Option-cases, inl, inr, some_inj, Returns, subst,
  get_elem?, replicate, get_elem?-set_self, get_elem?-set_ne,
}
use netmate_flowcalc.Common.Maps.{AllFound, Distinct-AllFound}
use netmate_flowcalc.IdSource.{u64_mod, make}
use netmate_flowcalc.ProcModule.{Packet, PpAction, ConfigParam}
use netmate_flowcalc.FlowCreator.{FlowInfo, FlowCreator, make_flows, get_flow, flow_keys}
use netmate_flowcalc.FlowCreator.Lookup.{IsValid, make_flows-IsValid}
use netmate_flowcalc.PacketProcessor.{RuleActions, Rule}
use netmate_flowcalc.PacketProcessor.Dispatch.{process_rule}
use netmate_flowcalc.PacketProcessor.Flows.{AllLive, IsReady}
use netmate_flowcalc.PacketProcessor.Running.{IsRunning}
use netmate_flowcalc.PacketProcessor.Rules.{
  Action, RuleSpec, TimerEvent, Loaded, Collected, thrown, other_kind, proc, start_action, collect,
  collect_one, make_entry, blank, grow, add_rule, destroy_all, destroy_flows, cleared, del_rule,
}

module _ {S : Type 0} where
  collect_one-AllLive :
      (rid cnt : ℕ) (params : List ConfigParam) (c : Collected S) (l : Loaded S) (c' : Collected S)
      → AllLive c.actions
      → collect_one rid cnt params c l ≡ some c'
      → AllLive c'.actions
  unfolding collect_one start_action
  collect_one-AllLive rid cnt params c thrown c' h e = cc e
  collect_one-AllLive rid cnt params c other_kind c' h e =
      subst (λ t. AllLive t.actions) (some_inj e) h
  collect_one-AllLive rid cnt params c (proc m) c' h e =
      subst (λ t. AllLive t.actions) (some_inj e) ((λ q. cc q), h)

  collect-AllLive :
      (loader : String → Loaded S) (rid cnt : ℕ) (acts : List Action)
      → (c : Collected S) → collect loader rid cnt acts ≡ some c
      → AllLive c.actions
  unfolding collect
  collect-AllLive loader rid cnt [] c e = subst (λ t. AllLive t.actions) (some_inj e) tt
  collect-AllLive loader rid cnt (a ∷ acts) c e =
      elim (Option-cases (collect loader rid (cnt + 1) acts)) [
        | inl d ↦ cc (rw d at e)
        | inr (c₁, d) ↦
            collect_one-AllLive rid cnt a.conf c₁ (loader a.name) c
              (collect-AllLive loader rid (cnt + 1) acts c₁ d) (rw d at e)
      ]

  -- An action of a processing module, in front of `rest`; other modules give none.
  abbrev pub started_one : Loaded S → List ConfigParam → List (PpAction S) → List (PpAction S)
  started_one (proc m) params rest =
      record { module_of = m; flow_data = some (m.init_flow_rec params).1; params = params } ∷ rest
  started_one thrown params rest = rest
  started_one other_kind params rest = rest

  -- The actions that a rule should get: one for each action whose module is a processing module, in
  -- order, with the flow data that the module initialises from the action's parameters.
  abbrev pub started : (String → Loaded S) → List Action → List (PpAction S)
  started loader [] = []
  started loader (a ∷ acts) = started_one (loader a.name) a.conf (started loader acts)

  collect_one-started :
      (rid cnt : ℕ) (params : List ConfigParam) (c : Collected S) (l : Loaded S) (c' : Collected S)
      → collect_one rid cnt params c l ≡ some c'
      → c'.actions ≡ started_one l params c.actions
  unfolding collect_one start_action
  collect_one-started rid cnt params c thrown c' e = cc e
  collect_one-started rid cnt params c other_kind c' e = ap (λ t. t.actions) (sym (some_inj e))
  collect_one-started rid cnt params c (proc m) c' e = ap (λ t. t.actions) (sym (some_inj e))

  collect-started :
      (loader : String → Loaded S) (rid cnt : ℕ) (acts : List Action) (c : Collected S)
      → collect loader rid cnt acts ≡ some c
      → c.actions ≡ started loader acts
  unfolding collect
  collect-started loader rid cnt [] c e = ap (λ t. t.actions) (sym (some_inj e))
  collect-started loader rid cnt (a ∷ acts) c e =
      elim (Option-cases (collect loader rid (cnt + 1) acts)) [
        | inl d ↦ cc (rw d at e)
        | inr (c₁, d) ↦
            collect_one-started rid cnt a.conf c₁ (loader a.name) c (rw d at e)
            ∙ ap (started_one (loader a.name) a.conf)
                (collect-started loader rid (cnt + 1) acts c₁ d)
      ]

  grow_long :
      (uid : ℕ) (rule : Rule) (rules : List (RuleActions S)) → uid < length (grow uid rule rules)
  unfolding grow
  grow_long uid rule rules = omega (
    arith,
    length-append rules (replicate (uid + 1 - length rules) (blank rule)),
    length-replicate (uid + 1 - length rules) (blank {S = S} rule),
  )

  get_elem?-append :
      (rules more : List (RuleActions S)) (j : ℕ)
      → j < length rules
      → get_elem? (rules ++ more) j ≡ get_elem? rules j
  get_elem?-append [] more j h = absurd (omega arith)
  get_elem?-append (r ∷ rules) more zero h = refl
  get_elem?-append (r ∷ rules) more (suc j) h = get_elem?-append rules more j (omega arith)

  get_elem?-grow :
      (uid j : ℕ) (rule : Rule) (rules : List (RuleActions S))
      → j < length rules
      → get_elem? (grow uid rule rules) j ≡ get_elem? rules j
  unfolding grow
  get_elem?-grow uid j rule rules h = get_elem?-append rules _ j h

  pub entry-IsRunning :
      (r : RuleSpec) (acts : List (PpAction S)) (k : ℕ)
      → r.auto_flows ≡ true
      → k < u64_mod
      → IsRunning k (make_entry r acts)
  unfolding make_entry make_flows make
  entry-IsRunning r acts k auto b = record {
    auto = auto;
    valid = make_flows-IsValid (IsReady (length acts));
    ids_left = omega (arith, b);
  }

  -- If `addRule` accepts a rule with flows, the entry at its uid is ready for packets: its table is
  -- valid, for any number of flow ids below 2^64, and it has one action for each action of the rule
  -- whose module is a processing module, in order, with the flow data initialised. Its flag `bidir` is the one that the rule had before, also when a module asked for both directions. The
  -- other rules are as they were.
  pub add_rule-IsRunning :
      (loader : String → Loaded S) (r : RuleSpec) (rules rules' : List (RuleActions S))
      (bidir : Bool) (timers : List TimerEvent) (k j : ℕ)
      → r.auto_flows ≡ true
      → k < u64_mod
      → j < length rules
      → r.uid ≢ j
      → add_rule loader r rules ≡ some (rules', bidir, timers)
      → ((ra : RuleActions S) × (get_elem? rules' r.uid ≡ some ra)
          × IsRunning k ra
          × (ra.actions ≡ started loader r.actions)
          × AllLive ra.actions
          × (ra.bidir ≡ r.bidir))
        × (get_elem? rules' j ≡ get_elem? rules j)
  unfolding add_rule make_entry
  add_rule-IsRunning loader r rules rules' bidir timers k j auto b h n e =
      elim (Option-cases (collect loader r.uid 0 r.actions)) [
        | inl d ↦ cc (rw d at e)
        | inr (c, d) ↦
            let same = ap (λ t. t.0) (some_inj (rw d at e)) in
            let entry = make_entry r c.actions in
            (
              (
                entry,
                subst (λ t. get_elem? t r.uid ≡ some entry) same
                    (get_elem?-set_self (grow r.uid r.rule rules) r.uid entry
                      (grow_long r.uid r.rule rules)),
                entry-IsRunning r c.actions k auto b,
                collect-started loader r.uid 0 r.actions c d,
                collect-AllLive loader r.uid 0 r.actions c d,
                refl,
              ),
              subst (λ t. get_elem? t j ≡ get_elem? rules j) same
                  (get_elem?-set_ne (grow r.uid r.rule rules) entry n
                    ∙ get_elem?-grow r.uid j r.rule rules h),
            )
      ]

  in_bounds :
      (rules : List (RuleActions S)) (i : ℕ) (ra : RuleActions S)
      → get_elem? rules i ≡ some ra
      → i < length rules
  in_bounds [] i ra h = cc h
  in_bounds (r ∷ rules) zero ra h = omega arith
  in_bounds (r ∷ rules) (suc i) ra h = omega (arith, in_bounds rules i ra h)

  destroy_all-Returns : (acts : List (PpAction S)) → AllLive acts → destroy_all acts ≡ some true
  unfolding destroy_all
  destroy_all-Returns [] h = refl
  destroy_all-Returns (a ∷ acts) (h, hs) = elim (Option-cases a.flow_data) [
    | inl e ↦ absurd (h e)
    | inr (s, e) ↦ rw e (destroy_all-Returns acts hs)
  ]

  destroy_flows-Returns :
      (n : ℕ) (fc : FlowCreator S) (es : List (List ℕ × FlowInfo S))
      → IsValid (IsReady n) fc
      → AllFound flow_keys fc.flows es
      → destroy_flows es ≡ some true
  unfolding destroy_flows get_flow
  destroy_flows-Returns n fc [] v h = refl
  destroy_flows-Returns n fc ((k, f) ∷ es) v (h, hs) =
      rw (destroy_all-Returns f.actions (v.holds k f h).live) (destroy_flows-Returns n fc es v hs)

  cleared_ignores :
      (ra : RuleActions S) (expt : Bool) (uid : ℕ) (pkt : Packet)
      → process_rule expt uid pkt (cleared ra) ≡ some (cleared ra, pkt, [])
  unfolding process_rule cleared
  cleared_ignores ra expt uid pkt = refl

  -- If the tables of a rule with flows are valid and its modules have flow data, `delRule` frees no
  -- flow data twice. Afterwards the rule ignores every packet, and the other rules are as they were.
  pub del_rule-process_rule :
      (uid k j : ℕ) (rules : List (RuleActions S)) (ra : RuleActions S) (expt : Bool) (pkt : Packet)
      → uid ≢ j
      → get_elem? rules uid ≡ some ra
      → IsRunning k ra
      → AllLive ra.actions
      → Returns (del_rule uid rules) (λ rules'.
        ((ra' : RuleActions S) × (get_elem? rules' uid ≡ some ra')
          × (process_rule expt uid pkt ra' ≡ some (ra', pkt, [])))
        × (get_elem? rules' j ≡ get_elem? rules j))
  unfolding del_rule
  del_rule-process_rule uid k j rules ra expt pkt n there h live =
      let found = Distinct-AllFound flow_keys ra.flows.flows h.valid.distinct in
      let flows_done =
        destroy_flows-Returns (length ra.actions) ra.flows ra.flows.flows h.valid found in
      let actions_done = destroy_all-Returns ra.actions live in
      simp (there, h.auto, flows_done, actions_done)
        (
          (
            cleared ra,
            get_elem?-set_self rules uid (cleared ra) (in_bounds rules uid ra there),
            cleared_ignores ra expt uid pkt,
          ),
          get_elem?-set_ne rules (cleared ra) n,
        )
