-- ===== src/MetricData/Misplaced.antt =====
-- A number of 64 bits behind one of 32 bits, as the module src/proc_modules/jitter.c exports it.
use netmate_flowcalc.MetricData.Reader.{get_next_flow, init_export, get_next_list}
use Prim.Native.String.{String}
use netmate_flowcalc.Common.{ℕ, ◌≡◌, refl, List, [], ◌∷◌, some}
use netmate_flowcalc.Common.Int.{pos}
use netmate_flowcalc.ExportList.{uint32, uint64}
use netmate_flowcalc.ExportData.{Writer, le_bytes, add_uint32, add_uint64, start_export, end_export}
use netmate_flowcalc.MetricData.{make_metric, add_flow_data}
use netmate_flowcalc.MetricData.RoundTrip.{read_value, read_row, read_first}

-- Let a module write a number of 32 bits and then one of 64 bits, for columns of these types. The
-- reader finds the first, but for the second it takes the four bytes that were in the module's
-- buffer before, which the alignment to 64 bits has left out, and the lower half of the number.
pub read_first_misplaced :
    (mn l₁ l₂ : String) (old : ℕ → ℕ) (w : Writer) (a v : ℕ) (key : List ℕ) (new_flow flow_id : ℕ)
    → read_first 3 (record {
      metric =
          add_flow_data
            (end_export (add_uint64 v (add_uint32 a (start_export old w))))
            key
            new_flow
            flow_id
            (make_metric mn);
      export_lists =
          record {
            cols = record { type = uint32; name = l₁ } ∷ record { type = uint64; name = l₂ } ∷ [];
            nrows = 1;
          }
          ∷ [];
      list_number = 0;
      flow_number = 0;
      col = 0;
    })
      ≡ some (
        pos 1,
        some (flow_id, new_flow),
        le_bytes 4 a ∷ (old 4 ∷ old 5 ∷ old 6 ∷ old 7 ∷ le_bytes 4 v) ∷ [],
      )
unfolding read_first add_flow_data end_export get_next_list init_export get_next_flow add_uint64
    add_uint32 start_export make_metric read_row read_value
read_first_misplaced mn l₁ l₂ old w a v key new_flow flow_id = refl
