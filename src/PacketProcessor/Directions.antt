-- ===== src/PacketProcessor/Directions.antt =====
-- Both directions of a conversation are counted in one flow.
use netmate_flowcalc.Common.{
  ℕ, ◌+◌, ◌%◌, ◌≡◌, ◌≢◌, refl, sym, ap, ◌∙◌, Bool, true, false, List, none, some, ◌==◌,
  if◌then◌else◌, length, arith, ◌⊎◌, Bool-cases, Option-cases, inl, inr, some_inj,
}
use netmate_flowcalc.ProcModule.{Packet}
use netmate_flowcalc.FlowCreator.{
  FlowInfo, FlowCreator, get_flow, add_flow, set_last_time, new_entry,
}
use netmate_flowcalc.FlowCreator.Lookup.{
  get_flow-write_flow_other, get_flow-delete_flow_other, get_flow-add_flow_other, add_flow_is_new,
}
use netmate_flowcalc.PacketProcessor.{RuleActions}
use netmate_flowcalc.PacketProcessor.Process.{
  Chosen, Outcome, Stored, choose_flow, choose, reverse_match, enter_flow, run_actions,
  with_reverse,
}
use netmate_flowcalc.PacketProcessor.Dispatch.{process_auto, process_flow, leave_flow, flow_label}
use netmate_flowcalc.PacketProcessor.Key.{flow_keys_of}
use netmate_flowcalc.PacketProcessor.Flows.{choose_flow-absent}

-- The key of the direction that a new flow does not stand at, when the classifier says `r`.
abbrev pub other_key : ℕ → List ℕ → List ℕ → List ℕ
other_key r m n = if r == 0 then n else m

other_differs : (r : ℕ) (m n : List ℕ) → m ≢ n → other_key r n m ≢ other_key r m n
other_differs r m n d = elim (Bool-cases (r == 0)) [
  | inl e ↦ rw e d
  | inr e ↦ rw e (λ q. d (sym q))
]

module _ {S : Type 0} where
  -- Only the flow of the packet changes in the table.
  leave_flow_other :
      (k : List ℕ) (o : Outcome S) (f : FlowInfo S) (flows : FlowCreator S)
      → f.key_data ≢ k
      → get_flow k (leave_flow o f flows) ≡ get_flow k flows
  unfolding leave_flow
  leave_flow_other k o f flows n = elim (Bool-cases o.reset) [
    | inl e ↦ rw e (get_flow-delete_flow_other k (record f { new_flow = 0 }) flows n)
    | inr e ↦
        rw e (get_flow-write_flow_other f.key_data k (record f { actions = o.actions }) flows n)
  ]

  -- What `process_flow` keeps and how it leaves the table.
  record IsLeft (pkt : Packet) (ra ra' : RuleActions S) (f : FlowInfo S) (flows : FlowCreator S)
      : Type 0 where
    outcome : Outcome S
    left : ra'.flows ≡ leave_flow outcome (set_last_time (pkt.tv_sec + 1) f) flows
    bidir : ra'.bidir ≡ ra.bidir
    seppaths : ra'.seppaths ≡ ra.seppaths

  process_flow-IsLeft :
      (expt : Bool) (rule_id : ℕ) (pkt : Packet) (ra ra' : RuleActions S) (c : Chosen S)
      (out : List Stored)
      → process_flow expt rule_id pkt ra c ≡ some (ra', out)
      → IsLeft pkt ra ra' (enter_flow ra c).0 (enter_flow ra c).1
  unfolding process_flow
  process_flow-IsLeft expt rule_id pkt ra ra' c out e =
      let f = set_last_time (pkt.tv_sec + 1) (enter_flow ra c).0 in
      let l = flow_label (length c.key % 65536) f in
      elim (Option-cases (run_actions expt rule_id ra.rule l pkt f.actions)) [
        | inl d ↦ cc (rw d at e)
        | inr (o, d) ↦
            let same = ap (λ k. k.0) (some_inj (rw d at e)) in
            record {
              outcome = o;
              left = ap (λ t. t.flows) (sym same);
              bidir = ap (λ t. t.bidir) (sym same);
              seppaths = ap (λ t. t.seppaths) (sym same);
            }
      ]

  enter_flow_new :
      (ra : RuleActions S) (c : Chosen S)
      → c.flow ≡ none
      → get_flow c.key ra.flows ≡ none
      → ((enter_flow ra c).0.key_data ≡ c.key) × ((enter_flow ra c).1 ≡ (add_flow c.key ra.flows).1)
  unfolding enter_flow new_entry
  enter_flow_new ra c h a = rw h (ap (λ t. t.key_data) (add_flow_is_new c.key ra.flows a), refl)

  process_new_other :
      (expt : Bool) (rule_id : ℕ) (pkt : Packet) (ra ra' : RuleActions S) (c : Chosen S)
      (k : List ℕ) (out : List Stored)
      → c.flow ≡ none
      → get_flow c.key ra.flows ≡ none
      → c.key ≢ k
      → process_flow expt rule_id pkt ra c ≡ some (ra', out)
      → get_flow k ra'.flows ≡ get_flow k ra.flows
  unfolding set_last_time
  process_new_other expt rule_id pkt ra ra' c k out h a other e =
      let left = process_flow-IsLeft expt rule_id pkt ra ra' c out e in
      let (key, flows) = enter_flow_new ra c h a in
      rw left.left (
        leave_flow_other k left.outcome (set_last_time (pkt.tv_sec + 1) (enter_flow ra c).0)
          (enter_flow ra c).1 (λ q. other (sym key ∙ q))
        ∙ rw flows (get_flow-add_flow_other c.key k ra.flows other))

  new_key :
      (ra : RuleActions S) (r : ℕ) (m n : List ℕ)
      → (choose_flow ra r m n).flow ≡ none
      → ra.bidir ≡ true
      → ra.seppaths ≡ false
      → ((choose_flow ra r m n).key ≡ other_key r n m)
        × (get_flow m ra.flows ≡ none)
        × (get_flow n ra.flows ≡ none)
  unfolding choose_flow choose reverse_match
  new_key ra r m n h b s = elim (Option-cases (get_flow m ra.flows)) [
    | inr (f, e) ↦ cc (rw (choose_flow, choose, e) at h)
    | inl e ↦ elim (Option-cases (get_flow n ra.flows)) [
      | inr (f, d) ↦ ground arith
      | inl d ↦ ground arith
    ]
  ]

  module _ (ra : RuleActions S) (b : ra.bidir ≡ true) (s : ra.seppaths ≡ false) where
    choose_flow_forward :
        (r : ℕ) (m n : List ℕ) (f : FlowInfo S)
        → get_flow m ra.flows ≡ some f
        → choose_flow ra r m n ≡ record { flow = some f; key = m; reverse = r }
    unfolding choose_flow choose
    choose_flow_forward r m n f h = rw h

    choose_flow_backward :
        (r : ℕ) (m n : List ℕ) (f : FlowInfo S)
        → get_flow m ra.flows ≡ none
        → get_flow n ra.flows ≡ some f
        → choose_flow ra r m n ≡ record { flow = some f; key = m; reverse = 1 }
    unfolding choose_flow choose reverse_match
    choose_flow_backward r m n f a h = ground arith

  other_absent :
      (ra : RuleActions S) (r : ℕ) (m n : List ℕ)
      → get_flow m ra.flows ≡ none
      → get_flow n ra.flows ≡ none
      → get_flow (other_key r m n) ra.flows ≡ none
  other_absent ra r m n a b = elim (Bool-cases (r == 0)) [ inl e ↦ rw e b | inr e ↦ rw e a ]

  -- A flow that is at one of two keys is at the first if the second has none.
  found_first :
      (fc : FlowCreator S) (r : ℕ) (m n : List ℕ) (f : FlowInfo S)
      → get_flow (other_key r m n) fc ≡ none
      → (get_flow m fc ≡ some f) ⊎ (get_flow n fc ≡ some f)
      → get_flow (other_key r n m) fc ≡ some f
  found_first fc r m n f absent there = elim (Bool-cases (r == 0)) [
    | inl e ↦
        let gone : get_flow n fc ≡ none = rw e at absent in
        elim there [ inl t ↦ rw e t | inr t ↦ cc (gone, t) ]
    | inr e ↦
        let gone : get_flow m fc ≡ none = rw e at absent in
        elim there [ inl t ↦ cc (gone, t) | inr t ↦ rw e t ]
  ]

  -- For a bidirectional rule without separate paths, let a packet with the different keys `m` and
  -- `n` find no flow, and let a flow `f` be at one of the two keys afterwards: no module exported it.
  -- Then `f` stands at the key that the classifier's direction asks for. From then on a packet with
  -- that key first finds `f` and keeps its direction, and a packet with the two keys the other way
  -- round finds the same `f` and is marked as going backward.
  pub process_auto-conversation :
      (expt : Bool) (rule_id : ℕ) (pkt pkt' : Packet) (ra ra' : RuleActions S) (m n : List ℕ)
      (out : List Stored) (f : FlowInfo S)
      → ra.bidir ≡ true
      → ra.seppaths ≡ false
      → flow_keys_of pkt.meta ra.bidir ra.seppaths ra.flist ≡ some (m, n)
      → m ≢ n
      → (choose_flow ra pkt.meta.reverse m n).flow ≡ none
      → process_auto expt rule_id pkt ra ≡ some (ra', pkt', out)
      → let first = other_key pkt.meta.reverse n m in
        let second = other_key pkt.meta.reverse m n in
        (get_flow m ra'.flows ≡ some f) ⊎ (get_flow n ra'.flows ≡ some f)
        → (r : ℕ)
        → (get_flow first ra'.flows ≡ some f)
          × (choose_flow ra' r first second ≡ record { flow = some f; key = first; reverse = r })
          × (choose_flow ra' r second first ≡ record { flow = some f; key = second; reverse = 1 })
  unfolding process_auto
  process_auto-conversation expt rule_id pkt pkt' ra ra' m n out f b s keys d none_there e at_one
        r =
      let r₀ = pkt.meta.reverse in
      let c = choose_flow ra r₀ m n in
      let first = other_key r₀ n m in
      let second = other_key r₀ m n in
      let (key, no_m, no_n) = new_key ra r₀ m n none_there b s in
      elim (Option-cases (process_flow expt rule_id (with_reverse c.reverse pkt) ra c)) [
        | inl g ↦ cc (rw (keys, g) at e)
        | inr ((ra₁, out₁), g) ↦
            let same : ra₁ ≡ ra' = ap (λ k. k.0) (some_inj (rw (keys, g) at e)) in
            let run : process_flow expt rule_id (with_reverse c.reverse pkt) ra c
                ≡ some (ra', out₁) =
              rw same at g in
            let left =
              process_flow-IsLeft expt rule_id (with_reverse c.reverse pkt) ra ra' c out₁ run in
            let unchanged =
              process_new_other expt rule_id (with_reverse c.reverse pkt) ra ra' c second out₁
                none_there (choose_flow-absent ra r₀ m n none_there)
                (λ q. other_differs r₀ m n d (sym key ∙ q)) run in
            let absent = unchanged ∙ other_absent ra r₀ m n no_m no_n in
            let there = found_first ra'.flows r₀ m n f absent at_one in
            (
              there,
              choose_flow_forward ra' (left.bidir ∙ b) (left.seppaths ∙ s) r first second f there,
              choose_flow_backward ra' (left.bidir ∙ b) (left.seppaths ∙ s) r second first f absent
                  there,
            )
      ]
