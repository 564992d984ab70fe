-- ===== src/PacketProcessor/Running.antt =====
-- A rule with flows at a packet in `processPacket` of src/netmate/PacketProcessor.cc.
use netmate_flowcalc.Common.{
  ℕ, suc, ◌+◌, ◌%◌, ◌<◌, ◌≡◌, is_empty, ◌≤◌, refl, ◌∙◌, Bool, true, false, List, length, arith,
  Bool-cases, Option-cases, inl, inr, Returns,
}
use netmate_flowcalc.ProcModule.{Packet}
use netmate_flowcalc.IdSource.{u64_mod}
use netmate_flowcalc.FlowCreator.{FlowInfo, FlowCreator, delete_flow, write_flow, set_last_time}
use netmate_flowcalc.FlowCreator.Lookup.{IsValid, free_id_unique}
use netmate_flowcalc.PacketProcessor.{RuleActions}
use netmate_flowcalc.PacketProcessor.Process.{
  Outcome, choose_flow, enter_flow, run_actions, with_reverse,
}
use netmate_flowcalc.PacketProcessor.Dispatch.{
  count_packet, process_rule, process_flow, process_auto, leave_flow, flow_label,
}
use netmate_flowcalc.PacketProcessor.Key.{flow_keys_of}
use netmate_flowcalc.PacketProcessor.Flows.{
  AllLive, IsReady, IsEntered, run_actions-Returns, enter_flow-IsEntered,
}

-- What the processor does not change of a packet.
abbrev pub IsSamePacket : Packet → Packet → Type 0
IsSamePacket pkt pkt' = (pkt'.meta.offs ≡ pkt.meta.offs) × (pkt'.meta.matches ≡ pkt.meta.matches)

module _ {S : Type 0} where
  -- A rule with flows whose tables are valid, that still has `k` flow ids.
  pub record IsRunning (k : ℕ) (ra : RuleActions S) : Type 0 where
    pub auto : ra.auto_flows ≡ true
    pub valid : IsValid (IsReady (length ra.actions)) ra.flows
    pub ids_left : ra.flows.id_source.num + k < u64_mod

  -- What a packet does not change.
  pub record IsSameRule (ra ra' : RuleActions S) : Type 0 where
    pub actions : ra'.actions ≡ ra.actions
    pub bidir : ra'.bidir ≡ ra.bidir
    pub seppaths : ra'.seppaths ≡ ra.seppaths
    pub flist : ra'.flist ≡ ra.flist

  leave_flow_num :
      (o : Outcome S) (f : FlowInfo S) (flows : FlowCreator S)
      → flows.id_source.unique ≡ 1
      → (leave_flow o f flows).id_source.num ≡ flows.id_source.num
  unfolding leave_flow delete_flow write_flow
  leave_flow_num o f flows u = elim (Bool-cases o.reset) [
    | inl e ↦ rw (e, free_id_unique flows.id_source f.flow_id u)
    | inr e ↦ rw e
  ]

  leave_flow-IsValid :
      (n : ℕ) (o : Outcome S) (time : ℕ) (f : FlowInfo S) (flows : FlowCreator S)
      → IsEntered n f flows
      → length o.actions ≡ length f.actions
      → (o.reset ≡ false → AllLive o.actions)
      → IsValid (IsReady n) (leave_flow o (set_last_time time f) flows)
  unfolding leave_flow set_last_time
  leave_flow-IsValid n o time f flows entered l live = elim (Bool-cases o.reset) [
    | inl e ↦ rw e (entered.deleted (record (set_last_time time f) { new_flow = 0 }) refl)
    | inr e ↦ rw e (
        entered.written _ refl refl (record { live = live e; as_many = l ∙ entered.ready.as_many }))
  ]

  process_flow-Returns :
      (expt : Bool) (rule_id : ℕ) (pkt : Packet) (k r : ℕ) (ra : RuleActions S) (m n : List ℕ)
      → IsRunning (suc k) ra
      → Returns
          (process_flow expt rule_id pkt ra (choose_flow ra r m n))
          (λ (ra', out). IsRunning k ra' × IsSameRule ra ra')
  unfolding process_flow set_last_time
  process_flow-Returns expt rule_id pkt k r ra m n h =
      let c = choose_flow ra r m n in
      let (f, flows) = enter_flow ra c in
      let (entered, bound) = enter_flow-IsEntered ra r m n h.valid (omega (arith, h.ids_left)) in
      let ok =
        run_actions-Returns expt rule_id ra.rule
          (flow_label (length c.key % 65536) (set_last_time (pkt.tv_sec + 1) f)) pkt f.actions
          entered.ready.live in
      elim (Option-cases (
        run_actions expt rule_id ra.rule
          (flow_label (length c.key % 65536) (set_last_time (pkt.tv_sec + 1) f)) pkt f.actions)) [
            | inl e ↦ absurd (rw e at ok)
            | inr (o, e) ↦
                let (l, live) = (rw e at ok) in
                rw e (
                  record {
                    auto = h.auto;
                    valid =
                        leave_flow-IsValid (length ra.actions) o (pkt.tv_sec + 1) f flows entered l
                          live;
                    ids_left = omega (
                      arith,
                      h.ids_left,
                      bound,
                      leave_flow_num o (set_last_time (pkt.tv_sec + 1) f) flows entered.unique,
                    );
                  },
                  record { actions = refl; bidir = refl; seppaths = refl; flist = refl },
                )
          ]

  -- The headers that the keys are read from are there.
  abbrev pub HasKeys : Packet → RuleActions S → Type 0
  HasKeys pkt ra = Returns (flow_keys_of pkt.meta ra.bidir ra.seppaths ra.flist) (λ keys. Unit {0})

  pub process_auto-Returns :
      (expt : Bool) (rule_id : ℕ) (pkt : Packet) (k : ℕ) (ra : RuleActions S)
      → IsRunning (suc k) ra
      → HasKeys pkt ra
      → Returns
          (process_auto expt rule_id pkt ra)
          (λ (ra', pkt', out). IsRunning k ra' × IsSameRule ra ra' × IsSamePacket pkt pkt')
  unfolding process_auto with_reverse
  process_auto-Returns expt rule_id pkt k ra h p =
      elim (Option-cases (flow_keys_of pkt.meta ra.bidir ra.seppaths ra.flist)) [
        | inl e ↦ absurd (rw e at p)
        | inr ((m, n), e) ↦
            let c = choose_flow ra pkt.meta.reverse m n in
            let ok =
              process_flow-Returns expt rule_id (with_reverse c.reverse pkt) k pkt.meta.reverse ra m
                n h in
            elim (Option-cases (process_flow expt rule_id (with_reverse c.reverse pkt) ra c)) [
              | inl d ↦ absurd (rw d at ok)
              | inr ((ra', out), d) ↦ let (r, s) = (rw d at ok) in rw (e, d) (r, s, (refl, refl))
            ]
      ]

  pub fewer : (j k : ℕ) (ra : RuleActions S) → j ≤ k → IsRunning k ra → IsRunning j ra
  fewer j k ra le h = record {
    auto = h.auto;
    valid = h.valid;
    ids_left = omega (arith, h.ids_left);
  }

  process_counted :
      (expt : Bool) (rule_id : ℕ) (pkt : Packet) (k : ℕ) (ra : RuleActions S)
      → IsRunning (suc k) ra
      → HasKeys pkt ra
      → Returns
          (process_auto expt rule_id pkt (count_packet pkt ra))
          (λ (ra', pkt', out). IsRunning k ra' × IsSameRule ra ra' × IsSamePacket pkt pkt')
  unfolding count_packet
  process_counted expt rule_id pkt k ra h p =
      let counted : IsRunning (suc k) (count_packet pkt ra) = record {
        auto = h.auto;
        valid = h.valid;
        ids_left = h.ids_left;
      } in
      let ok = process_auto-Returns expt rule_id pkt k (count_packet pkt ra) counted p in
      elim (Option-cases (process_auto expt rule_id pkt (count_packet pkt ra))) [
        | inl e ↦ absurd (rw e at ok)
        | inr ((ra', pkt', out), e) ↦
            let (r, s, same) = (rw e at ok) in
            rw e (
              r,
              record {
                actions = s.actions;
                bidir = s.bidir;
                seppaths = s.seppaths;
                flist = s.flist;
              },
              same,
            )
      ]

  pub process_rule-Returns :
      (expt : Bool) (rule_id : ℕ) (pkt : Packet) (k : ℕ) (ra : RuleActions S)
      → IsRunning (suc k) ra
      → HasKeys pkt ra
      → Returns
          (process_rule expt rule_id pkt ra)
          (λ (ra', pkt', out). IsRunning k ra' × IsSameRule ra ra' × IsSamePacket pkt pkt')
  unfolding process_rule
  process_rule-Returns expt rule_id pkt k ra h p = elim (Bool-cases (is_empty ra.actions)) [
    | inl e ↦ rw e (
      fewer k (suc k) ra (omega arith) h,
      record { actions = refl; bidir = refl; seppaths = refl; flist = refl },
      (refl, refl),
    )
    | inr e ↦ simp (e, h.auto) (process_counted expt rule_id pkt k ra h p)
  ]
