-- ===== src/Modules/Count.antt =====
-- src/proc_modules/count.c: packets, volume, and the first and the last time.
pub mod Totals
use netmate_flowcalc.Common.{ℕ, ◌+◌, ◌%◌, ◌^◌, List, [], ◌∷◌, ◌==◌, if◌then◌else◌}
use netmate_flowcalc.Common.Int.{ℤ, pos}
use netmate_flowcalc.ExportList.{TypeInfo, uint32}
use netmate_flowcalc.ExportData.{Writer, add_uint32, start_export, end_export}
use netmate_flowcalc.ProcModule.{Packet, ProcModule, ConfigParam}

-- struct timeval
pub record Time : Type 0 where
  pub tv_sec : ℕ
  pub tv_usec : ℕ

-- struct accData_t; a counter is the 64 bits of its `long`.
pub record AccData : Type 0 where
  pub packets : ℕ
  pub bytes : ℕ
  pub first : Time
  pub last : Time

abbrev pub export_info : List TypeInfo
export_info =
    record { type = uint32; name = "packets" }
    ∷ record { type = uint32; name = "volume" }
    ∷ record { type = uint32; name = "first_time" }
    ∷ record { type = uint32; name = "first_time_us" }
    ∷ record { type = uint32; name = "last_time" }
    ∷ record { type = uint32; name = "last_time_us" }
    ∷ []

unfoldable pub process_packet : Packet → AccData → ℤ × AccData
process_packet pkt d =
    let now : Time = record { tv_sec = pkt.tv_sec; tv_usec = pkt.tv_usec } in
    (
      pos 0,
      record {
        packets = (d.packets + 1) % 2 ^ 64;
        bytes = (d.bytes + pkt.len) % 2 ^ 64;
        first = if d.packets == 0 then now else d.first;
        last = now;
      },
    )

-- `resetFlowRec`
unfoldable pub reset_flow_rec : AccData → AccData
reset_flow_rec d = record {
  packets = 0;
  bytes = 0;
  first = record { tv_sec = 0; tv_usec = 0 };
  last = record { tv_sec = 0; tv_usec = 0 };
}

-- `initFlowRec`, where `malloced` is what the memory holds.
unfoldable pub init_flow_rec : AccData → List ConfigParam → ℤ × AccData
unfolding reset_flow_rec
init_flow_rec malloced params = (pos 0, reset_flow_rec malloced)

unfoldable pub export_data : (ℕ → ℕ) → Writer → AccData → List ℕ × AccData
unfolding add_uint32 start_export end_export
export_data exp_data w d =
    let w₁ = add_uint32 d.packets (start_export exp_data w) in
    let w₂ = add_uint32 d.bytes w₁ in
    let w₃ = add_uint32 d.first.tv_sec w₂ in
    let w₄ = add_uint32 d.first.tv_usec w₃ in
    let w₅ = add_uint32 d.last.tv_sec w₄ in
    let w₆ = add_uint32 d.last.tv_usec w₅ in (end_export w₆, d)

-- `func`, for this module: it has no timers.
unfoldable pub count : (ℕ → ℕ) → Writer → AccData → ProcModule AccData
unfolding process_packet reset_flow_rec init_flow_rec export_data
count exp_data w malloced = record {
  mod_name = "count";
  init_flow_rec = init_flow_rec malloced;
  process_packet = process_packet;
  export_data = export_data exp_data w;
  reset_flow_rec = reset_flow_rec;
  timeout = λ timer_id d. d;
  get_timers = λ d. [];
}
