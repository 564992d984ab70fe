-- ===== src/PacketProcessor/Export.antt =====
-- `exportRule` and `ruleTimeout` of src/netmate/PacketProcessor.cc: the flow records of a rule, and
-- the end of flows that are idle.
pub mod Idle
pub mod Metrics
pub mod Sweep
pub mod Timeout
use netmate_flowcalc.Common.{
  ℕ, ◌+◌, ◌%◌, ◌^◌, Bool, true, false, ◌||◌, List, [], ◌∷◌, Option, none, some, ◌==◌, ltb, leb,
  ◌>>=◌, if◌then◌else◌, take, is_empty,
}
use netmate_flowcalc.MetricData.{MetricData, make_metric, add_flow_data}
use netmate_flowcalc.ProcModule.{ProcModule, PpAction}
use netmate_flowcalc.FlowCreator.{FlowInfo, FlowCreator, write_flow, delete_at}
use netmate_flowcalc.PacketProcessor.{RuleActions}

-- (time_t)(last + ival) <= now: the sum is unsigned and wraps, and half of its values are negative.
unfoldable pub is_past : ℕ → ℕ → ℕ → Bool
is_past last ival now = let t = (last + ival) % 2 ^ 64 in if ltb t (2 ^ 63) then leb t now else true

module _ {S : Type 0} where
  -- One object of metric data for each module.
  unfoldable pub make_metrics : List (PpAction S) → List MetricData
  unfolding make_metric
  make_metrics [] = []
  make_metrics (a ∷ acts) = make_metric a.module_of.mod_name ∷ make_metrics acts

  -- The loop over the modules of a flow. `newFlow` is reset with the first of them; a flow with
  -- more modules than the rule would leave the array `md`.
  unfoldable pub export_actions :
      Bool
      → List ℕ
      → ℕ
      → ℕ
      → List (PpAction S)
      → List MetricData
      → Option (List (PpAction S) × List MetricData)
  unfolding add_flow_data
  export_actions ending key new_flow flow_id [] md = some ([], md)
  export_actions ending key new_flow flow_id (a ∷ acts) [] = none
  export_actions ending key new_flow flow_id (a ∷ acts) (m ∷ md) = do
    s ← a.flow_data
    let (bytes, s') = a.module_of.export_data s
    (acts', md') ← export_actions ending key 0 flow_id acts md
    some (
      record a { flow_data = if ending then none else some s' } ∷ acts',
      add_flow_data bytes key new_flow flow_id m ∷ md',
    )

  -- Whether a flow is exported: every one if `now` is 0, else those that are idle.
  unfoldable pub is_due : ℕ → ℕ → FlowInfo S → Bool
  unfolding is_past
  is_due now ival f = now == 0 || is_past f.last_pkt ival now

  -- A flow that is due: its modules, and then its end if there is a `now`.
  unfoldable pub export_flow :
      ℕ
      → ℕ
      → List ℕ
      → FlowInfo S
      → FlowCreator S × List MetricData
      → Option (FlowCreator S × List MetricData)
  export_flow now key_len key f (fc, md) = do
    (acts, md') ←
        export_actions (ltb 0 now) (take key_len f.key_data) f.new_flow f.flow_id f.actions md
    let f' = record f { actions = acts; new_flow = if is_empty acts then f.new_flow else 0 }
    some (if ltb 0 now then delete_at key f' fc else write_flow key f' fc, md')

  -- The loop over the flows, with the entries that are left to visit.
  unfoldable pub export_flows :
      ℕ
      → ℕ
      → ℕ
      → List (List ℕ × FlowInfo S)
      → FlowCreator S × List MetricData
      → Option (FlowCreator S × List MetricData)
  export_flows now ival key_len [] st = some st
  export_flows now ival key_len ((key, f) ∷ rest) st = do
    st' ← if is_due now ival f then export_flow now key_len key f st else some st
    export_flows now ival key_len rest st'

  -- The modules of a rule without flows. With a `now` their data is reset.
  unfoldable pub export_plain :
      Bool → ℕ → List (PpAction S) → Option (List (PpAction S) × List MetricData)
  unfolding add_flow_data make_metric
  export_plain ending new_flow [] = some ([], [])
  export_plain ending new_flow (a ∷ acts) = do
    s ← a.flow_data
    let (bytes, s') = a.module_of.export_data s
    (acts', md) ← export_plain ending new_flow acts
    some (
      record a { flow_data = some (if ending then a.module_of.reset_flow_rec s' else s') } ∷ acts',
      add_flow_data bytes [] new_flow 0 (make_metric a.module_of.mod_name) ∷ md,
    )

  -- The end of `exportRule`: a rule that is idle itself is marked so.
  unfoldable pub mark_idle : ℕ → ℕ → RuleActions S → RuleActions S
  unfolding is_past
  mark_idle now ival ra =
      if is_past ra.last_pkt ival now then record ra { last_pkt = 0; flow_key_len = 0 } else ra

  unfoldable pub export_auto : ℕ → ℕ → RuleActions S → Option (RuleActions S × List MetricData)
  export_auto now ival ra = do
    (fc, md) ←
        export_flows now ival ra.flow_key_len ra.flows.flows (ra.flows, make_metrics ra.actions)
    some (mark_idle now ival (record ra { flows = fc }), md)

  -- `exportRule`: the rule, and the metric data that is added to the flow record.
  unfoldable pub export_rule : ℕ → ℕ → RuleActions S → Option (RuleActions S × List MetricData)
  export_rule now ival ra = if ra.auto_flows then export_auto now ival ra else do
    (acts, md) ← export_plain (ltb 0 now) ra.new_flow ra.actions
    some (mark_idle now ival (record ra { actions = acts; new_flow = 0 }), md)

  -- Whether the loop of `ruleTimeout` finds a flow that has expired.
  unfoldable pub any_past : ℕ → ℕ → List (List ℕ × FlowInfo S) → Bool
  unfolding is_past
  any_past now ival [] = false
  any_past now ival ((key, f) ∷ rest) =
      let later = any_past now ival rest in if is_past f.last_pkt ival now then true else later

  -- 0 for a timeout, 1 for a rule that stays as it is, or the time of the last packet.
  unfoldable pub rule_timeout : RuleActions S → ℕ → ℕ → ℕ
  rule_timeout ra ival now =
      if ltb 0 ra.last_pkt
      then if ra.auto_flows
        then if any_past now ival ra.flows.flows then 0 else 1
        else if is_past ra.last_pkt ival now
        then 0
        else ra.last_pkt
      else 1
