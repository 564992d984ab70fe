-- ===== src/PacketProcessor/Flows.antt =====
-- A packet at a rule with flows: the tables stay valid, no freed flow data is used, and the flow
-- that is found or made is the one of the packet's keys.
use netmate_flowcalc.Common.{
  ℕ, suc, ◌+◌, ◌<◌, ◌≤◌, ◌≡◌, ◌≢◌, refl, ap, ◌∙◌, Bool, false, List, [], ◌∷◌, ◌++◌, none, some,
  length, arith, Bool-cases, Option-cases, inl, inr, Returns,
}
use netmate_flowcalc.ProcModule.{Packet, PpAction}
use netmate_flowcalc.IdSource.{u64_mod}
use netmate_flowcalc.FlowCreator.{
  FlowInfo, FlowCreator, get_flow, add_flow, delete_flow, write_flow, new_entry,
}
use netmate_flowcalc.FlowCreator.Lookup.{
  IsValid, write-add_flow-IsValid, write_flow-IsValid, delete_flow-IsValid, delete-add_flow-IsValid,
  new_id_next, add_flow_is_new,
}
use netmate_flowcalc.PacketProcessor.{RuleActions, Rule}
use netmate_flowcalc.PacketProcessor.Process.{
  Label, choose, reverse_match, choose_flow, set_last, init_actions, enter_flow, run_action,
  run_actions, is_one,
}

module _ {S : Type 0} where
  abbrev pub AllLive : List (PpAction S) → Type 0
  AllLive [] = Unit {0}
  AllLive (a ∷ acts) = (a.flow_data ≢ none) × AllLive acts

  -- A flow that the `n` modules of its rule can run on.
  pub record IsReady (n : ℕ) (f : FlowInfo S) : Type 0 where
    pub live : AllLive f.actions
    pub as_many : length f.actions ≡ n

  init_actions-AllLive : (acts : List (PpAction S)) → AllLive (init_actions acts)
  unfolding init_actions
  init_actions-AllLive [] = tt
  init_actions-AllLive (a ∷ acts) = ((λ e. cc), init_actions-AllLive acts)

  length-init_actions : (acts : List (PpAction S)) → length (init_actions acts) ≡ length acts
  unfolding init_actions
  length-init_actions [] = refl
  length-init_actions (a ∷ acts) = ap suc (length-init_actions acts)

  -- The modules run, each at its own flow data, and none is lost unless there was an export.
  pub run_actions-Returns :
      (expt : Bool) (rule_id : ℕ) (rule : Rule) (l : Label) (pkt : Packet)
      (acts : List (PpAction S))
      → AllLive acts
      → Returns
          (run_actions expt rule_id rule l pkt acts)
          (λ o. (length o.actions ≡ length acts) × (o.reset ≡ false → AllLive o.actions))
  unfolding run_actions run_action
  run_actions-Returns expt rule_id rule l pkt [] h = (refl, λ e. tt)
  run_actions-Returns expt rule_id rule l pkt (a ∷ acts) (h, hs) =
      let ih = run_actions-Returns expt rule_id rule l pkt acts hs in
      elim (Option-cases a.flow_data) [
        | inl e ↦ absurd (h e)
        | inr (s, e) ↦ elim (Option-cases (run_actions expt rule_id rule l pkt acts)) [
          | inl r ↦ absurd (rw r at ih)
          | inr (o, r) ↦
              let later = (rw r at ih) in
              elim (Bool-cases (is_one (a.module_of.process_packet pkt s).0)) [
                | inl d ↦ rw (e, d, r) (ap suc later.0, λ q. cc)
                | inr d ↦ rw (e, d, r) (ap suc later.0, λ q. ((λ n. cc), later.1 q))
              ]
        ]
      ]

  -- Whatever flow the lookups give stands in the table.
  pub choose_flow-found :
      (ra : RuleActions S) (r : ℕ) (m n : List ℕ) (f : FlowInfo S)
      → (choose_flow ra r m n).flow ≡ some f
      → (k : List ℕ) × (get_flow k ra.flows ≡ some f)
  unfolding choose_flow choose reverse_match
  choose_flow-found ra r m n f h = elim (Option-cases (get_flow m ra.flows)) [
    | inr (g, e) ↦ (m, ground arith)
    | inl e ↦ elim (Bool-cases ra.bidir) [
      | inl b ↦ elim (Option-cases (get_flow n ra.flows)) [
        | inl d ↦ ground arith
        | inr (g, d) ↦ elim (Bool-cases ra.seppaths) [
          | inl p ↦ (set_last n, ground arith)
          | inr p ↦ (n, ground arith)
        ]
      ]
      | inr b ↦ ground arith
    ]
  ]

  -- If they give none, there is none at the key for the new flow.
  pub choose_flow-absent :
      (ra : RuleActions S) (r : ℕ) (m n : List ℕ)
      → (choose_flow ra r m n).flow ≡ none
      → get_flow (choose_flow ra r m n).key ra.flows ≡ none
  unfolding choose_flow choose reverse_match
  choose_flow-absent ra r m n h = ground arith

  -- What the modules are run on: a flow that is ready, and a table that stays valid when the flow is
  -- written back or deleted.
  pub record IsEntered (n : ℕ) (f : FlowInfo S) (flows : FlowCreator S) : Type 0 where
    pub ready : IsReady n f
    pub written :
        (g : FlowInfo S)
        → g.key_data ≡ f.key_data
        → g.flow_id ≡ f.flow_id
        → IsReady n g
        → IsValid (IsReady n) (write_flow f.key_data g flows)
    pub deleted :
        (g : FlowInfo S) → g.key_data ≡ f.key_data → IsValid (IsReady n) (delete_flow g flows)
    pub unique : flows.id_source.unique ≡ 1

  enter_found :
      (n : ℕ) (k : List ℕ) (f : FlowInfo S) (flows : FlowCreator S)
      → IsValid (IsReady n) flows
      → get_flow k flows ≡ some f
      → IsEntered n f flows
  enter_found n k f flows v h = record {
    ready = v.holds k f h;
    written =
        λ g key id p. rw (v.key_of k f h) (write_flow-IsValid (IsReady n) flows v k f g h key id p);
    deleted = λ g key. delete_flow-IsValid (IsReady n) flows v g;
    unique = v.unique;
  }

  started : RuleActions S → List ℕ → FlowInfo S
  started ra key =
      let f = (add_flow key ra.flows).0 in
      record f { actions = f.actions ++ init_actions ra.actions }

  enter_new :
      (ra : RuleActions S) (key : List ℕ)
      → IsValid (IsReady (length ra.actions)) ra.flows
      → ra.flows.id_source.num + 1 < u64_mod
      → get_flow key ra.flows ≡ none
      → IsEntered (length ra.actions) (started ra key) (add_flow key ra.flows).1
  unfolding started new_entry add_flow
  enter_new ra key v b h =
      let new = add_flow_is_new key ra.flows h in
      let next = new_id_next ra.flows.id_source v.no_free b in
      rw new (record {
        ready = record {
          live = init_actions-AllLive ra.actions;
          as_many = length-init_actions ra.actions;
        };
        written = λ g k i p.
            write-add_flow-IsValid (IsReady (length ra.actions)) ra.flows v key g h b k (i ∙ next.0)
              p;
        deleted = λ g k. delete-add_flow-IsValid (IsReady (length ra.actions)) ra.flows v key g k b;
        unique = next.2 ∙ v.unique;
      })

  -- The flow of a packet, after both lookups.
  pub enter_flow-IsEntered :
      (ra : RuleActions S) (r : ℕ) (m n : List ℕ)
      → IsValid (IsReady (length ra.actions)) ra.flows
      → ra.flows.id_source.num + 1 < u64_mod
      → let (f, flows) = enter_flow ra (choose_flow ra r m n) in
        IsEntered (length ra.actions) f flows × (flows.id_source.num ≤ ra.flows.id_source.num + 1)
  unfolding enter_flow started add_flow
  enter_flow-IsEntered ra r m n v b = elim (Option-cases (choose_flow ra r m n).flow) [
    | inl e ↦
        let c = choose_flow ra r m n in
        rw e (
          enter_new ra c.key v b (choose_flow-absent ra r m n e),
          omega (arith, (new_id_next ra.flows.id_source v.no_free b).1),
        )
    | inr (f, e) ↦
        let (k, h) = choose_flow-found ra r m n f e in
        rw e (enter_found (length ra.actions) k f ra.flows v h, omega arith)
  ]
