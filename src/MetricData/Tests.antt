-- ===== src/MetricData/Tests.antt =====
-- A row with a port, a text, a number and a block, and the row of the jitter module.
use netmate_flowcalc.Common.{ℕ, ◌≡◌, refl, [], ◌∷◌, some, arith}
use netmate_flowcalc.Common.Int.{pos}
use netmate_flowcalc.ExportList.{uint16, uint32, uint64, string, binary}
use netmate_flowcalc.ExportData.{
  le_bytes, Writer, add_uint16, add_uint32, add_uint64, add_string, add_binary, start_export,
  end_export,
}
use netmate_flowcalc.MetricData.{make_metric, add_flow_data}
use netmate_flowcalc.MetricData.Values.{word, text, blob, item_bytes}
use netmate_flowcalc.MetricData.RoundTrip.{read_first, read_first-add_items}
use netmate_flowcalc.MetricData.Misplaced.{read_first_misplaced}

-- The module's buffer before.
abbrev old : ℕ → ℕ
old i = 170

abbrev writer : Writer
writer = record { dest = old; pos = 0; listlen = 0; listpos = 0 }

read_first-add_items_example :
    read_first 5 (record {
      metric =
          add_flow_data
            (end_export (
              add_binary (1 ∷ 2 ∷ []) (
                add_uint32 70000
                  (add_string (104 ∷ 105 ∷ []) (add_uint16 443 (start_export old writer))))))
            []
            1
            7
            (make_metric "test");
      export_lists =
          record {
            cols =
                record { type = uint16; name = "port" }
                ∷ record { type = string; name = "host" }
                ∷ record { type = uint32; name = "bytes" }
                ∷ record { type = binary; name = "head" }
                ∷ [];
            nrows = 1;
          }
          ∷ [];
      list_number = 0;
      flow_number = 0;
      col = 0;
    })
    ≡ some (
      pos 1,
      some (7, 1),
      (187 ∷ 1 ∷ []) ∷ (104 ∷ 105 ∷ []) ∷ (112 ∷ 17 ∷ 1 ∷ 0 ∷ []) ∷ (1 ∷ 2 ∷ []) ∷ [],
    )
unfolding item_bytes
read_first-add_items_example =
    read_first-add_items "test" old writer (word uint16 443)
      (text (104 ∷ 105 ∷ []) ∷ word uint32 70000 ∷ blob (1 ∷ 2 ∷ []) ∷ [])
      (record { type = uint16; name = "port" }
        ∷ record { type = string; name = "host" }
        ∷ record { type = uint32; name = "bytes" }
        ∷ record { type = binary; name = "head" }
        ∷ [])
      [] [] 1 7 0 0 (tt, (((λ e. omega arith), ((λ e. omega arith), tt)), (tt, (omega arith, tt))))
      (refl, (refl, (refl, (refl, tt))))

read_first_misplaced_example :
    read_first 3 (record {
      metric =
          add_flow_data
            (end_export (add_uint64 258 (add_uint32 3 (start_export old writer))))
            []
            1
            7
            (make_metric "jitter");
      export_lists =
          record {
            cols =
                record { type = uint32; name = "packets" }
                ∷ record { type = uint64; name = "diff_min" }
                ∷ [];
            nrows = 1;
          }
          ∷ [];
      list_number = 0;
      flow_number = 0;
      col = 0;
    })
    ≡ some (
      pos 1,
      some (7, 1),
      (3 ∷ 0 ∷ 0 ∷ 0 ∷ []) ∷ (170 ∷ 170 ∷ 170 ∷ 170 ∷ 2 ∷ 1 ∷ 0 ∷ 0 ∷ []) ∷ [],
    )
unfolding le_bytes
read_first_misplaced_example =
    read_first_misplaced "jitter" "packets" "diff_min" old writer 3 258 [] 1 7
