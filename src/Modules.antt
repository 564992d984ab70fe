-- ===== src/Modules.antt =====
-- Processing modules of src/proc_modules as the processor calls them. The buffer that a module
-- exports from, and the state of the functions that write to it, are parameters: they hold what an
-- earlier export left. `malloc` always gives memory.
pub mod Count
pub mod PktLen
mod Tests
use netmate_flowcalc.Common.{List, [], ◌∷◌}
use netmate_flowcalc.ProcModule.{Packet, ProcModule}

-- The flow data after packets, as `processPacket` of the processor calls the module.
unfoldable pub feed : {S : Type 0} → ProcModule S → List Packet → S → S
feed m [] s = s
feed m (p ∷ ps) s = feed m ps (m.process_packet p s).1
