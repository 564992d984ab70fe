-- ===== src/PacketProcessor/Rules.antt =====
-- `addRule`, `delRule` and `timeout` of src/netmate/PacketProcessor.cc. The loader of modules is a
-- parameter: it gives a processing module, another kind of module, or throws. An error that is
-- thrown leaves the table of rules as it was; it is `none`, and so is a call that frees flow data
-- which is already freed.
pub mod Lifetime
pub mod Dangling
use Prim.Native.String.{String}
use netmate_flowcalc.Common.{
  ℕ, zero, suc, ◌+◌, ◌-◌, Bool, true, false, List, [], ◌∷◌, ◌++◌, Option, none, some, ◌==◌, ltb,
  ◌>>=◌, if◌then◌else◌, length, get_elem?, set, replicate, map,
}
use netmate_flowcalc.Common.Int.{ℤ}
use netmate_flowcalc.ProcModule.{ProcModule, PpAction, ConfigParam}
use netmate_flowcalc.FlowCreator.{FlowInfo, FlowCreator, make_flows, write_flow}
use netmate_flowcalc.PacketProcessor.{RuleActions, Rule}
use netmate_flowcalc.PacketProcessor.Key.{Filter}
use netmate_flowcalc.PacketProcessor.Process.{is_one}

-- action_t
pub record Action : Type 0 where
  pub name : String
  pub conf : List ConfigParam

-- What the processor reads of the Rule that it is given.
pub record RuleSpec : Type 0 where
  pub uid : ℕ
  pub rule : Rule
  pub actions : List Action
  pub auto_flows : Bool
  pub bidir : Bool
  pub seppaths : Bool
  pub flist : List Filter

-- ProcTimerEvent
pub record TimerEvent : Type 0 where
  pub rid : ℕ
  pub actid : ℕ
  pub tm : ℕ

-- The answer of `getModule`.
pub data Loaded (S : Type 0) : Type 0 where
  thrown : Loaded S
  other_kind : Loaded S
  proc : ProcModule S → Loaded S

-- What the loop over the actions of a rule collects; `wants_bidir` says that `setBidir` was called.
pub record Collected (S : Type 0) : Type 0 where
  pub actions : List (PpAction S)
  pub timers : List TimerEvent
  pub wants_bidir : Bool

timer_events : ℕ → ℕ → List ℕ → List TimerEvent
timer_events rid actid [] = []
timer_events rid actid (t ∷ ts) =
    record { rid = rid; actid = actid; tm = t } ∷ timer_events rid actid ts

module _ {S : Type 0} where
  -- An action with its module's first flow data.
  unfoldable pub start_action : ProcModule S → List ConfigParam → PpAction S
  start_action m params = record {
    module_of = m;
    flow_data = some (m.init_flow_rec params).1;
    params = params;
  }

  collect_proc : ℕ → ℕ → ProcModule S → List ConfigParam → Collected S → Collected S
  unfolding timer_events start_action is_one
  collect_proc rid cnt m params c =
      let (ret, s) = m.init_flow_rec params in
      record {
        actions = start_action m params ∷ c.actions;
        timers = timer_events rid cnt (m.get_timers s) ++ c.timers;
        wants_bidir = if is_one ret then true else c.wants_bidir;
      }

  unfoldable pub collect_one :
      ℕ → ℕ → List ConfigParam → Collected S → Loaded S → Option (Collected S)
  unfolding collect_proc
  collect_one rid cnt params c thrown = none
  collect_one rid cnt params c other_kind = some c
  collect_one rid cnt params c (proc m) = some (collect_proc rid cnt m params c)

  -- The loop; `cnt` counts every action, whatever its kind.
  unfoldable pub collect : (String → Loaded S) → ℕ → ℕ → List Action → Option (Collected S)
  collect loader rid cnt [] = some (record { actions = []; timers = []; wants_bidir = false })
  collect loader rid cnt (a ∷ rest) = do
    c ← collect loader rid (cnt + 1) rest
    collect_one rid cnt a.conf c (loader a.name)

  -- The entry for a rule. `bidir` is what the rule says before its modules are asked.
  unfoldable pub make_entry : RuleSpec → List (PpAction S) → RuleActions S
  make_entry r acts = record {
    last_pkt = 0;
    packets = 0;
    bytes = 0;
    actions = acts;
    auto_flows = r.auto_flows;
    bidir = r.bidir;
    seppaths = r.seppaths;
    new_flow = 1;
    rule = r.rule;
    flow_key_len = 0;
    flist = r.flist;
    flows = make_flows;
  }

  -- An entry that `resize` makes, and that `delRule` leaves. Its pointers are NULL; with no actions
  -- nothing follows them.
  unfoldable pub blank : Rule → RuleActions S
  blank rule = record {
    last_pkt = 0;
    packets = 0;
    bytes = 0;
    actions = [];
    auto_flows = false;
    bidir = false;
    seppaths = false;
    new_flow = 0;
    rule = rule;
    flow_key_len = 0;
    flist = [];
    flows = make_flows;
  }

  unfoldable pub grow : ℕ → Rule → List (RuleActions S) → List (RuleActions S)
  unfolding blank
  grow uid rule rules = rules ++ replicate (uid + 1 - length rules) (blank rule)

  -- `addRule`: the table, the rule's flag `bidir` afterwards, and the timer events.
  unfoldable pub add_rule :
      (String → Loaded S)
      → RuleSpec
      → List (RuleActions S)
      → Option (List (RuleActions S) × Bool × List TimerEvent)
  add_rule loader r rules = do
    c ← collect loader r.uid 0 r.actions
    some (
      set (grow r.uid r.rule rules) r.uid (make_entry r c.actions),
      if c.wants_bidir then true else r.bidir,
      c.timers,
    )

  -- `destroyFlowRec` for each action.
  unfoldable pub destroy_all : List (PpAction S) → Option Bool
  destroy_all [] = some true
  destroy_all (a ∷ acts) = do s ← a.flow_data; destroy_all acts

  unfoldable pub destroy_flows : List (List ℕ × FlowInfo S) → Option Bool
  unfolding destroy_all
  destroy_flows [] = some true
  destroy_flows ((k, f) ∷ es) = do done ← destroy_all f.actions; destroy_flows es

  -- The entry after `delRule`. The counters of packets and bytes stay.
  unfoldable pub cleared : RuleActions S → RuleActions S
  unfolding blank
  cleared ra = record (blank ra.rule) { packets = ra.packets; bytes = ra.bytes }

  unfoldable pub del_rule : ℕ → List (RuleActions S) → Option (List (RuleActions S))
  del_rule uid rules = do
    ra ← get_elem? rules uid
    flows_done ← if ra.auto_flows then destroy_flows ra.flows.flows else some true
    actions_done ← destroy_all ra.actions
    some (set rules uid (cleared ra))

  -- `timeout` of one module.
  unfoldable pub fire : ℕ → ℕ → List (PpAction S) → Option (List (PpAction S))
  fire actid tm acts = do
    a ← get_elem? acts actid
    s ← a.flow_data
    some (set acts actid (record a { flow_data = some (a.module_of.timeout tm s) }))

  fire_flows : ℕ → ℕ → List (List ℕ × FlowInfo S) → FlowCreator S → Option (FlowCreator S)
  unfolding fire write_flow
  fire_flows actid tm [] fc = some fc
  fire_flows actid tm ((k, f) ∷ es) fc = do
    acts ← fire actid tm f.actions
    fire_flows actid tm es (write_flow k (record f { actions = acts }) fc)

  fire_rule : ℕ → ℕ → RuleActions S → Option (RuleActions S)
  unfolding fire_flows fire
  fire_rule actid tm ra =
      if ra.auto_flows
      then (fire_flows actid tm ra.flows.flows ra.flows >>= (λ fc. some (record ra { flows = fc })))
      else (fire actid tm ra.actions >>= (λ acts. some (record ra { actions = acts })))

  -- The timer `tm` of a rule's module, in every flow of the rule if it has flows.
  unfoldable pub timeout : TimerEvent → List (RuleActions S) → Option (List (RuleActions S))
  unfolding fire_rule
  timeout e rules = do
    ra ← get_elem? rules e.rid
    ra' ← fire_rule e.actid e.tm ra
    some (set rules e.rid ra')
