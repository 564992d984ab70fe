-- ===== src/PacketProcessor/Process.antt =====
-- The steps of `processPacket` of src/netmate/PacketProcessor.cc: the lookup of a flow and the loop
-- over the modules.
use Prim.Native.String.{String}
use netmate_flowcalc.Common.{
  ℕ, Bool, true, false, List, [], ◌∷◌, ◌++◌, Option, none, some, ◌==◌, ◌>>=◌, if◌then◌else◌,
}
use netmate_flowcalc.Common.Int.{ℤ, pos, negsuc}
use netmate_flowcalc.MetricData.{MetricData, make_metric, add_flow_data}
use netmate_flowcalc.ProcModule.{Packet, ProcModule, PpAction}
use netmate_flowcalc.FlowCreator.{FlowInfo, FlowCreator, get_flow, add_flow}
use netmate_flowcalc.PacketProcessor.{RuleActions, Rule}

-- rmvalues[rmval_len-1] = 2
unfoldable pub set_last : List ℕ → List ℕ
set_last [] = []
set_last (b ∷ []) = 2 ∷ []
set_last (b ∷ c ∷ bs) = b ∷ set_last (c ∷ bs)

-- A flow record with the metric data of one module, as it is given to `storeData`. The set of the
-- export modules is the list that it is made from.
pub record Stored : Type 0 where
  pub rule_id : ℕ
  pub enames : List String
  pub rule_name : String
  pub final : ℕ
  pub metric : MetricData

-- The answer of a lookup: the flow, the key for a new flow, and `meta->reverse`.
pub record Chosen (S : Type 0) : Type 0 where
  pub flow : Option (FlowInfo S)
  pub key : List ℕ
  pub reverse : ℕ

-- What the loop over the modules leaves.
pub record Outcome (S : Type 0) : Type 0 where
  pub actions : List (PpAction S)
  pub stored : List Stored
  pub reset : Bool

unfoldable pub is_one : ℤ → Bool
is_one (pos n) = n == 1
is_one (negsuc n) = false

-- What is written beside the data of a module: the flow's key, `newFlow` and `flowId`.
pub record Label : Type 0 where
  pub key : List ℕ
  pub new_flow : ℕ
  pub flow_id : ℕ

unfoldable pub with_reverse : ℕ → Packet → Packet
with_reverse r pkt = record pkt { meta = record pkt.meta { reverse = r } }

module _ {S : Type 0} where
  -- The reverse match, after no flow was found at `mvalues`.
  unfoldable pub reverse_match :
      FlowCreator S → Bool → ℕ → List ℕ → List ℕ → Option (FlowInfo S) → Chosen S
  unfolding set_last get_flow
  reverse_match flows seppaths reverse mvalues rmvalues (some f) =
      if seppaths
      then record {
        flow = get_flow (set_last rmvalues) flows;
        key = set_last rmvalues;
        reverse = 1;
      }
      else record { flow = some f; key = mvalues; reverse = 1 }
  reverse_match flows seppaths reverse mvalues rmvalues none = record {
    flow = none;
    key = if reverse == 0 then mvalues else rmvalues;
    reverse = reverse;
  }

  -- The lookups of both keys.
  unfoldable pub choose :
      FlowCreator S → Bool → Bool → ℕ → List ℕ → List ℕ → Option (FlowInfo S) → Chosen S
  unfolding reverse_match get_flow
  choose flows bidir seppaths reverse mvalues rmvalues (some f) = record {
    flow = some f;
    key = mvalues;
    reverse = reverse;
  }
  choose flows bidir seppaths reverse mvalues rmvalues none =
      if bidir
      then reverse_match flows seppaths reverse mvalues rmvalues (get_flow rmvalues flows)
      else record { flow = none; key = mvalues; reverse = reverse }

  unfoldable pub choose_flow : RuleActions S → ℕ → List ℕ → List ℕ → Chosen S
  unfolding choose get_flow
  choose_flow ra reverse mvalues rmvalues =
      choose ra.flows ra.bidir ra.seppaths reverse mvalues rmvalues (get_flow mvalues ra.flows)

  -- The modules of a new flow, each with flow data of its own.
  unfoldable pub init_actions : List (PpAction S) → List (PpAction S)
  init_actions [] = []
  init_actions (a ∷ acts) =
      record {
        module_of = a.module_of;
        flow_data = some (a.module_of.init_flow_rec a.params).1;
        params = a.params;
      }
      ∷ init_actions acts

  -- The flow of the packet, added if there was none, and the table with it.
  unfoldable pub enter_flow : RuleActions S → Chosen S → FlowInfo S × FlowCreator S
  unfolding add_flow init_actions
  enter_flow ra c = elim c.flow [
    | some f ↦ (f, ra.flows)
    | none ↦
        let (f, flows) = add_flow c.key ra.flows in
        (record f { actions = f.actions ++ init_actions ra.actions }, flows)
  ]

  -- The flow record of a module that asks for an export.
  unfoldable pub export_record : ℕ → Rule → Label → ProcModule S → List ℕ → Stored
  unfolding add_flow_data make_metric
  export_record rule_id rule l m bytes = record {
    rule_id = rule_id;
    enames = rule.exports;
    rule_name = rule.rule_name;
    final = 1;
    metric = add_flow_data bytes l.key l.new_flow l.flow_id (make_metric m.mod_name);
  }

  -- One module: after an export its flow data is destroyed.
  unfoldable pub run_action :
      Bool → ℕ → Rule → Label → Packet → PpAction S → Option (PpAction S × List Stored × Bool)
  unfolding is_one export_record
  run_action expt rule_id rule l pkt a = do
    s ← a.flow_data
    let (do_export, s') = a.module_of.process_packet pkt s
    some (
        if is_one do_export
        then (
          record a { flow_data = none },
          if expt
              then export_record rule_id rule l a.module_of (a.module_of.export_data s').0 ∷ []
              else [],
          true,
        )
        else (record a { flow_data = some s' }, [], false))

  unfoldable pub run_actions :
      Bool → ℕ → Rule → Label → Packet → List (PpAction S) → Option (Outcome S)
  unfolding run_action
  run_actions expt rule_id rule l pkt [] =
      some (record { actions = []; stored = []; reset = false })
  run_actions expt rule_id rule l pkt (a ∷ acts) = do
    (a', out, reset) ← run_action expt rule_id rule l pkt a
    rest ← run_actions expt rule_id rule l pkt acts
    some (record {
      actions = a' ∷ rest.actions;
      stored = out ++ rest.stored;
      reset = if reset then true else rest.reset;
    })
