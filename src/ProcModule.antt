-- ===== src/ProcModule.antt =====
-- src/include/ProcModuleInterface.h and metadata.h: what the packet processor sees of a packet, and
-- the functions of a processing module. Modules are loaded from shared objects, so their functions
-- are a parameter, with the type `S` of the flow data that they keep.
use Prim.Native.String.{String}
use netmate_flowcalc.Common.{ℕ, List, Option}
use netmate_flowcalc.Common.Int.{ℤ}
use netmate_flowcalc.Classifier.{MetaData}

-- metaData_t: the classifier's part, with the captured and the full length and
-- the time.
pub record Packet : Type 0 where
  pub meta : MetaData
  pub cap_len : ℕ
  pub len : ℕ
  pub tv_sec : ℕ
  pub tv_usec : ℕ

-- configParam_t, with the end of the array left out.
pub record ConfigParam : Type 0 where
  pub name : String
  pub value : String

-- A module with its ProcModuleInterface_t; `get_timers` gives the ids of the timers up to the end
-- mark. The functions return the flow data as they leave it.
pub record ProcModule (S : Type 0) : Type 0 where
  pub mod_name : String
  pub init_flow_rec : List ConfigParam → ℤ × S
  pub process_packet : Packet → S → ℤ × S
  pub export_data : S → List ℕ × S
  pub reset_flow_rec : S → S
  pub timeout : ℕ → S → S
  pub get_timers : S → List ℕ

-- ppaction_t. The flow data is `none` once `destroyFlowRec` has freed it.
pub record PpAction (S : Type 0) : Type 0 where
  pub module_of : ProcModule S
  pub flow_data : Option S
  pub params : List ConfigParam
