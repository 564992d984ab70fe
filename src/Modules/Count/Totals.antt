-- ===== src/Modules/Count/Totals.antt =====
-- What an export module reads of the totals that the module src/proc_modules/count.c keeps.
use netmate_flowcalc.Common.{
  ℕ, suc, ◌+◌, ◌%◌, ◌^◌, ◌<◌, ◌≡◌, refl, ap, ◌∙◌, false, List, [], ◌∷◌, some, ◌==◌, length, map,
  arith,
}
use netmate_flowcalc.Common.Int.{pos}
use netmate_flowcalc.ExportList.{ExportTable, uint32}
use netmate_flowcalc.ExportData.{Writer, le_bytes}
use netmate_flowcalc.ProcModule.{Packet, ConfigParam}
use netmate_flowcalc.MetricData.{make_metric, add_flow_data}
use netmate_flowcalc.MetricData.Values.{word, item_bytes}
use netmate_flowcalc.MetricData.RoundTrip.{read_first, read_first-add_items}
use netmate_flowcalc.Modules.{feed}
use netmate_flowcalc.Modules.Count.{AccData, Time, count, export_info}

-- The lengths of the packets together.
abbrev pub volume : List Packet → ℕ
volume [] = 0
volume (p ∷ ps) = p.len + volume ps

abbrev pub time_of : Packet → Time
time_of p = record { tv_sec = p.tv_sec; tv_usec = p.tv_usec }

-- The time of the last of the packets, or `t` if there is none.
abbrev pub last_time : Time → List Packet → Time
last_time t [] = t
last_time t (p ∷ ps) = last_time (time_of p) ps

abbrev totals : ℕ → ℕ → Time → Time → AccData
totals n b f l = record { packets = n; bytes = b; first = f; last = l }

module _ (exp_data : ℕ → ℕ) (w : Writer) (malloced : AccData) where
  later_packets :
      (ps : List Packet) (n b : ℕ) (f l : Time)
      → 0 < n
      → n + length ps < 2 ^ 63
      → b + volume ps < 2 ^ 63
      → feed (count exp_data w malloced) ps (totals n b f l)
        ≡ totals (n + length ps) (b + volume ps) f (last_time l ps)
  unfolding feed count
  later_packets [] n b f l h i j =
      let same : n + 0 ≡ n = omega arith in
      let same_bytes : b + 0 ≡ b = omega arith in rw (same, same_bytes) refl
  later_packets (p ∷ ps) n b f l h i j =
      let differ : (n == 0) ≡ false = ground arith in
      let more : n + 1 + length ps ≡ n + suc (length ps) = omega arith in
      let bytes : b + p.len + volume ps ≡ b + (p.len + volume ps) = omega arith in
      let later =
        later_packets ps (n + 1) (b + p.len) f (time_of p) (omega arith) (omega arith)
          (omega arith) in
      let no_wrap : (n + 1) % 2 ^ 64 ≡ n + 1 = omega arith in
      let bytes_fit : (b + p.len) % 2 ^ 64 ≡ b + p.len = omega arith in
      rw (differ, no_wrap, bytes_fit) (later ∙ rw (more, bytes) refl)

  fed :
      (p : Packet) (ps : List Packet) (params : List ConfigParam)
      → length (p ∷ ps) < 2 ^ 63
      → volume (p ∷ ps) < 2 ^ 63
      → let m = count exp_data w malloced in
        feed m (p ∷ ps) (m.init_flow_rec params).1
        ≡ totals (length (p ∷ ps)) (volume (p ∷ ps)) (time_of p) (last_time (time_of p) ps)
  unfolding feed count
  fed p ps params i j =
      let start : 1 + length ps ≡ suc (length ps) = omega arith in
      let fits : (0 + p.len) % 2 ^ 64 ≡ p.len = omega arith in
      ap (λ b. feed (count exp_data w malloced) ps (totals 1 b (time_of p) (time_of p))) fits
      ∙ later_packets ps 1 p.len (time_of p) (time_of p) (omega arith) (omega arith) (omega arith)
      ∙ rw start refl

  -- Let the processor initialise the flow data of this module, call it for one packet or more, and
  -- pass on what it exports, where their number and the sum of their lengths are below 2^63. Then an
  -- export module that reads 4 bytes for each column, as netai_arff does, gets the number of the
  -- packets, the sum of their lengths, and the times of the first and of the last packet, each as its
  -- lower 32 bits.
  pub read_first-count :
      (p : Packet) (ps : List Packet) (params : List ConfigParam) (more : List ExportTable)
      (key : List ℕ) (new_flow flow_id : ℕ)
      → length (p ∷ ps) < 2 ^ 63
      → volume (p ∷ ps) < 2 ^ 63
      → let m = count exp_data w malloced in
        read_first 7 (record {
          metric =
              add_flow_data
                (m.export_data (feed m (p ∷ ps) (m.init_flow_rec params).1)).0
                key
                new_flow
                flow_id
                (make_metric m.mod_name);
          export_lists = record { cols = export_info; nrows = 1 } ∷ more;
          list_number = 0;
          flow_number = 0;
          col = 0;
        })
        ≡ some (
          pos 1,
          some (flow_id, new_flow),
          map (le_bytes 4) (
              length (p ∷ ps)
              ∷ volume (p ∷ ps)
              ∷ p.tv_sec
              ∷ p.tv_usec
              ∷ (last_time (time_of p) ps).tv_sec
              ∷ (last_time (time_of p) ps).tv_usec
              ∷ []),
        )
  unfolding count feed item_bytes
  read_first-count p ps params more key new_flow flow_id i j =
      let end = last_time (time_of p) ps in
      rw (fed p ps params i j) (
        read_first-add_items "count" exp_data w (word uint32 (suc (length ps)))
          (word uint32 (p.len + volume ps)
            ∷ word uint32 p.tv_sec
            ∷ word uint32 p.tv_usec
            ∷ word uint32 end.tv_sec
            ∷ word uint32 end.tv_usec
            ∷ [])
          export_info more key new_flow flow_id 0 0 (tt, (tt, (tt, (tt, (tt, (tt, tt))))))
          (refl, (refl, (refl, (refl, (refl, (refl, tt)))))))
