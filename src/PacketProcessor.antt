-- ===== src/PacketProcessor.antt =====
-- src/netmate/PacketProcessor.h and PacketProcessor.cc: the rules with their modules, and the flows
-- that packets are counted in. A function that follows a pointer to freed flow data, indexes out of
-- bounds or reads before the packet gives `none`; the theorems say when none of these happens.
-- Loading of modules, the lock, the profiling and the debug output are left out, as is SWAP_HACK,
-- which is not defined.
pub mod Key
pub mod Process
pub mod Dispatch
pub mod Flows
pub mod Running
pub mod Sequence
pub mod Directions
pub mod Export
pub mod Rules
mod Tests
use Prim.Native.String.{String}
use netmate_flowcalc.Common.{
  ℕ, suc, ◌+◌, ◌%◌, Bool, true, false, ◌&&◌, not, List, [], ◌∷◌, ◌++◌, Option, none, some, ◌==◌,
  if◌then◌else◌, get_elem?, set,
}
use netmate_flowcalc.Common.Int.{ℤ, pos, negsuc}
use netmate_flowcalc.ProcModule.{Packet, ProcModule, PpAction, ConfigParam}
use netmate_flowcalc.FlowCreator.{FlowCreator}
use netmate_flowcalc.PacketProcessor.Key.{Filter}

-- What the processor reads of a rule: its name and the names of its export modules.
pub record Rule : Type 0 where
  pub rule_name : String
  pub exports : List String

-- ruleActions_t. `flow_key_len` is kept as the source does; the flags are Booleans.
pub record RuleActions (S : Type 0) : Type 0 where
  pub last_pkt : ℕ
  pub packets : ℕ
  pub bytes : ℕ
  pub actions : List (PpAction S)
  pub auto_flows : Bool
  pub bidir : Bool
  pub seppaths : Bool
  pub new_flow : ℕ
  pub rule : Rule
  pub flow_key_len : ℕ
  pub flist : List Filter
  pub flows : FlowCreator S
