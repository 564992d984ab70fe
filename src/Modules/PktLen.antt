-- ===== src/Modules/PktLen.antt =====
-- src/proc_modules/pktlen.c: the shortest, the longest and the mean packet length.
pub mod Summary
use netmate_flowcalc.Common.{ℕ, ◌+◌, ◌/◌, ◌%◌, ◌^◌, List, [], ◌∷◌, ◌==◌, ltb, if◌then◌else◌}
use netmate_flowcalc.Common.Int.{ℤ, pos}
use netmate_flowcalc.ExportList.{TypeInfo, uint16}
use netmate_flowcalc.ExportData.{Writer, add_uint16, start_export, end_export}
use netmate_flowcalc.ProcModule.{Packet, ProcModule, ConfigParam}

-- struct moduleData
pub record ModuleData : Type 0 where
  pub min : ℕ
  pub max : ℕ
  pub packets : ℕ
  pub bytes : ℕ

abbrev pub export_info : List TypeInfo
export_info =
    record { type = uint16; name = "minlen" }
    ∷ record { type = uint16; name = "maxlen" }
    ∷ record { type = uint16; name = "avglen" }
    ∷ []

-- The extremes with a further length; it is taken as it is for the first packet.
unfoldable pub extremes : ℕ → ModuleData → ModuleData
extremes len d = if d.packets == 0 then record d { min = len; max = len } else record d {
  min = if ltb len d.min then len else d.min;
  max = if ltb d.max len then len else d.max;
}

-- `len` is an unsigned short; the counters are unsigned long long.
unfoldable pub process_packet : Packet → ModuleData → ℤ × ModuleData
unfolding extremes
process_packet pkt d =
    let len = pkt.len % 65536 in
    let e = extremes len d in
    (pos 0, record e { packets = (d.packets + 1) % 2 ^ 64; bytes = (d.bytes + len) % 2 ^ 64 })

abbrev pub empty_data : ModuleData
empty_data = record { min = 0; max = 0; packets = 0; bytes = 0 }

unfoldable pub init_flow_rec : List ConfigParam → ℤ × ModuleData
init_flow_rec params = (pos 0, empty_data)

-- The mean that is exported, an unsigned short.
unfoldable pub avg : ModuleData → ℕ
avg d = if d.packets == 0 then 0 else d.bytes / d.packets % 65536

-- `exportData` starts the next interval.
unfoldable pub export_data : (ℕ → ℕ) → Writer → ModuleData → List ℕ × ModuleData
unfolding add_uint16 start_export end_export avg
export_data buf w d =
    let w₁ = add_uint16 d.min (start_export buf w) in
    let w₂ = add_uint16 d.max w₁ in let w₃ = add_uint16 (avg d) w₂ in (end_export w₃, empty_data)

-- `func`, for this module: `resetFlowRec` does nothing, and there are no timers.
unfoldable pub pktlen : (ℕ → ℕ) → Writer → ProcModule ModuleData
unfolding process_packet init_flow_rec export_data
pktlen buf w = record {
  mod_name = "pktlen";
  init_flow_rec = init_flow_rec;
  process_packet = process_packet;
  export_data = export_data buf w;
  reset_flow_rec = λ d. d;
  timeout = λ timer_id d. d;
  get_timers = λ d. [];
}
