-- ===== src/PacketProcessor/Dispatch.antt =====
-- `processPacket` of src/netmate/PacketProcessor.cc: a packet at one rule, and at all rules matched.
use netmate_flowcalc.Common.{
  ℕ, zero, suc, ◌+◌, ◌%◌, ◌^◌, Bool, List, [], ◌++◌, Option, some, ◌>>=◌, if◌then◌else◌, length,
  take, get_elem?, set, is_empty,
}
use netmate_flowcalc.ProcModule.{Packet}
use netmate_flowcalc.FlowCreator.{FlowInfo, FlowCreator, delete_flow, write_flow, set_last_time}
use netmate_flowcalc.PacketProcessor.{RuleActions}
use netmate_flowcalc.PacketProcessor.Process.{
  Chosen, Outcome, Label, Stored, choose_flow, enter_flow, run_actions, with_reverse,
}
use netmate_flowcalc.PacketProcessor.Key.{flow_keys_of}

-- addFlowData(size, data, flowKeyLen, NULL, 0, 0), where the key is empty.
abbrev pub plain_label : Label
plain_label = record { key = []; new_flow = 0; flow_id = 0 }

module _ {S : Type 0} where
  -- `packets` and `bytes` are unsigned long long.
  unfoldable pub count_packet : Packet → RuleActions S → RuleActions S
  count_packet pkt ra = record ra {
    packets = (ra.packets + 1) % 2 ^ 64;
    bytes = (ra.bytes + pkt.cap_len) % 2 ^ 64;
  }

  -- The table after the modules have run: the flow is deleted after an export, or written back.
  unfoldable pub leave_flow : Outcome S → FlowInfo S → FlowCreator S → FlowCreator S
  unfolding delete_flow write_flow
  leave_flow o f flows =
      if o.reset
      then delete_flow (record f { new_flow = 0 }) flows
      else write_flow f.key_data (record f { actions = o.actions }) flows

  -- `flowKeyLen` bytes of `keyData` go into an export.
  unfoldable pub flow_label : ℕ → FlowInfo S → Label
  flow_label key_len f = record {
    key = take key_len f.key_data;
    new_flow = f.new_flow;
    flow_id = f.flow_id;
  }

  unfoldable pub process_flow :
      Bool → ℕ → Packet → RuleActions S → Chosen S → Option (RuleActions S × List Stored)
  unfolding enter_flow run_actions leave_flow flow_label set_last_time
  process_flow expt rule_id pkt ra c = do
    let (f₀, flows) = enter_flow ra c
    let f = set_last_time (pkt.tv_sec + 1) f₀
    let key_len = length c.key % 65536
    o ← run_actions expt rule_id ra.rule (flow_label key_len f) pkt f.actions
    some (
      record ra { flow_key_len = key_len; flows = leave_flow o f flows; last_pkt = pkt.tv_sec + 1 },
      o.stored,
    )

  -- A rule without flows has the modules' data itself.
  unfoldable pub process_plain :
      Bool → ℕ → Packet → RuleActions S → Option (RuleActions S × List Stored)
  unfolding run_actions
  process_plain expt rule_id pkt ra = do
    o ← run_actions expt rule_id ra.rule plain_label pkt ra.actions
    some (
      record ra {
        actions = o.actions;
        new_flow = if o.reset then 0 else ra.new_flow;
        last_pkt = pkt.tv_sec + 1;
      },
      o.stored,
    )

  -- The keys, the lookup and the modules of a rule with flows.
  unfoldable pub process_auto :
      Bool → ℕ → Packet → RuleActions S → Option (RuleActions S × Packet × List Stored)
  process_auto expt rule_id pkt ra = do
    (mvalues, rmvalues) ← flow_keys_of pkt.meta ra.bidir ra.seppaths ra.flist
    let c = choose_flow ra pkt.meta.reverse mvalues rmvalues
    (ra', stored) ← process_flow expt rule_id (with_reverse c.reverse pkt) ra c
    some (ra', with_reverse c.reverse pkt, stored)

  -- The body of the loop over the matched rules. A deleted rule has no actions.
  unfoldable pub process_rule :
      Bool → ℕ → Packet → RuleActions S → Option (RuleActions S × Packet × List Stored)
  process_rule expt rule_id pkt ra =
      if is_empty ra.actions
      then some (ra, pkt, [])
      else if ra.auto_flows
      then process_auto expt rule_id pkt (count_packet pkt ra)
      else do
        (ra', stored) ← process_plain expt rule_id pkt (count_packet pkt ra)
        some (ra', pkt, stored)

-- The members that change: the rules by their uid, whether there is an exporter, and the flow
-- records that it was given.
pub record PacketProcessor (S : Type 0) : Type 0 where
  pub rules : List (RuleActions S)
  pub expt : Bool
  pub stored : List Stored

module _ {S : Type 0} where
  -- One matched rule.
  unfoldable pub process_match :
      ℕ → Packet × PacketProcessor S → Option (Packet × PacketProcessor S)
  unfolding process_rule
  process_match rule_id (pkt, pp) = do
    ra ← get_elem? pp.rules rule_id
    (ra', pkt', out) ← process_rule pp.expt rule_id pkt ra
    some (pkt', record pp { rules = set pp.rules rule_id ra'; stored = pp.stored ++ out })

  -- The matches from `i` on, `n` of them.
  unfoldable pub process_matches :
      ℕ → ℕ → Packet × PacketProcessor S → Option (Packet × PacketProcessor S)
  unfolding process_match
  process_matches i zero s = some s
  process_matches i (suc n) (pkt, pp) = do
    s ← process_match (pkt.meta.matches i) (pkt, pp)
    process_matches (i + 1) n s

  unfoldable pub process_packet : Packet → PacketProcessor S → Option (Packet × PacketProcessor S)
  unfolding process_matches
  process_packet pkt pp = process_matches 0 pkt.meta.match_cnt (pkt, pp)
