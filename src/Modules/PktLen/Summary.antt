-- ===== src/Modules/PktLen/Summary.antt =====
-- What the module src/proc_modules/pktlen.c exports of an interval.
use native.Mathlib.Nat.{div-lt_iff_lt-mul}
use netmate_flowcalc.Common.{
  ℕ, suc, ◌+◌, ◌*◌, ◌/◌, ◌%◌, ◌^◌, ◌<◌, ◌≡◌, refl, ap, subst, ◌∙◌, false, List, [], ◌∷◌, some, ◌==◌,
  ltb, if◌then◌else◌, length, map, arith,
}
use netmate_flowcalc.Common.Int.{pos}
use netmate_flowcalc.ExportList.{ExportTable, uint16}
use netmate_flowcalc.ExportData.{Writer, le_bytes}
use netmate_flowcalc.ProcModule.{Packet}
use netmate_flowcalc.MetricData.{make_metric, add_flow_data}
use netmate_flowcalc.MetricData.Values.{word, item_bytes}
use netmate_flowcalc.MetricData.RoundTrip.{read_first, read_first-add_items}
use netmate_flowcalc.Modules.{feed}
use netmate_flowcalc.Modules.PktLen.{ModuleData, pktlen, export_info, empty_data, avg}

-- A length as an unsigned short.
abbrev pub short_len : Packet → ℕ
short_len p = p.len % 65536

abbrev pub shortest : ℕ → List Packet → ℕ
shortest m [] = m
shortest m (p ∷ ps) = shortest (if ltb (short_len p) m then short_len p else m) ps

abbrev pub longest : ℕ → List Packet → ℕ
longest m [] = m
longest m (p ∷ ps) = longest (if ltb m (short_len p) then short_len p else m) ps

abbrev pub volume : List Packet → ℕ
volume [] = 0
volume (p ∷ ps) = short_len p + volume ps

abbrev state : ℕ → ℕ → ℕ → ℕ → ModuleData
state lo hi n b = record { min = lo; max = hi; packets = n; bytes = b }

module _ (buf : ℕ → ℕ) (w : Writer) where
  later_packets :
      (ps : List Packet) (lo hi n b : ℕ)
      → 0 < n
      → n + length ps < 2 ^ 48
      → b < n * 65536
      → feed (pktlen buf w) ps (state lo hi n b)
        ≡ state (shortest lo ps) (longest hi ps) (n + length ps) (b + volume ps)
  unfolding feed pktlen
  later_packets [] lo hi n b p h v =
      let same : n + 0 ≡ n = omega arith in
      let same_bytes : b + 0 ≡ b = omega arith in rw (same, same_bytes) refl
  later_packets (p ∷ ps) lo hi n b pos_n h v =
      let differ : (n == 0) ≡ false = ground arith in
      let next : (n + 1) % 2 ^ 64 ≡ n + 1 = omega arith in
      let next_bytes : (b + p.len % 65536) % 2 ^ 64 ≡ b + p.len % 65536 = omega arith in
      let more : n + 1 + length ps ≡ n + suc (length ps) = omega arith in
      let bytes : b + p.len % 65536 + volume ps ≡ b + (p.len % 65536 + volume ps) = omega arith in
      let later =
        later_packets ps (if ltb (short_len p) lo then short_len p else lo)
          (if ltb hi (short_len p) then short_len p else hi) (n + 1) (b + p.len % 65536)
          (omega arith) (omega arith) (omega arith) in
      rw (differ, next, next_bytes) (later ∙ rw (more, bytes) refl)

volume_bound : (ps : List Packet) → volume ps < length ps * 65536 + 1
volume_bound [] = omega arith
volume_bound (p ∷ ps) = omega (arith, volume_bound ps)

mean_fits : (b n : ℕ) → 0 < n → b < 65536 * n → b / n % 65536 ≡ b / n
mean_fits b n p h = let bound : b / n < 65536 = (div-lt_iff_lt-mul p).1 h in omega (arith, bound)

module _ (buf : ℕ → ℕ) (w : Writer) where
  interval :
      (p : Packet) (ps : List Packet)
      → length (p ∷ ps) < 2 ^ 48
      → feed (pktlen buf w) (p ∷ ps) empty_data
        ≡ state
            (shortest (short_len p) ps)
            (longest (short_len p) ps)
            (length (p ∷ ps))
            (volume (p ∷ ps))
  unfolding feed pktlen
  interval p ps h =
      let first : short_len p ≡ (0 + short_len p) % 2 ^ 64 = omega arith in
      let start : 1 + length ps ≡ length (p ∷ ps) = omega arith in
      let lo = shortest (short_len p) ps in
      let hi = longest (short_len p) ps in
      subst
        (λ b.
          feed (pktlen buf w) ps (state (short_len p) (short_len p) 1 b)
          ≡ state lo hi (length (p ∷ ps)) (volume (p ∷ ps)))
        first
        (later_packets buf w ps (short_len p) (short_len p) 1 (short_len p) (omega arith)
            (omega arith) (omega arith)
          ∙ ap (λ n. state lo hi n (volume (p ∷ ps))) start)

  -- Let the processor call this module for an interval of one packet or more, fewer than 2^48, from
  -- the flow data of a new flow or of an export on. Then an export module reads the least and the
  -- greatest of the lengths, as unsigned shorts, and their mean rounded down, and the next interval
  -- starts with the flow data of a new flow.
  pub read_first-pktlen :
      (p : Packet) (ps : List Packet) (more : List ExportTable) (key : List ℕ)
      (new_flow flow_id : ℕ)
      → length (p ∷ ps) < 2 ^ 48
      → let m = pktlen buf w in
        let (bytes, next) = m.export_data (feed m (p ∷ ps) empty_data) in
        (read_first 4 (record {
          metric = add_flow_data bytes key new_flow flow_id (make_metric m.mod_name);
          export_lists = record { cols = export_info; nrows = 1 } ∷ more;
          list_number = 0;
          flow_number = 0;
          col = 0;
        })
          ≡ some (
            pos 1,
            some (flow_id, new_flow),
            map (le_bytes 2) (
                shortest (short_len p) ps
                ∷ longest (short_len p) ps
                ∷ volume (p ∷ ps) / length (p ∷ ps)
                ∷ []),
          ))
        × (next ≡ empty_data)
  unfolding pktlen feed item_bytes avg
  read_first-pktlen p ps more key new_flow flow_id h =
      let lo = shortest (short_len p) ps in
      let hi = longest (short_len p) ps in
      let counted : (suc (length ps) == 0) ≡ false = ground arith in
      let mean =
        mean_fits (volume (p ∷ ps)) (length (p ∷ ps)) (omega arith)
          (omega (arith, volume_bound ps)) in
      (
        rw (interval p ps h, counted, mean)
            (read_first-add_items "pktlen" buf w (word uint16 lo)
              (word uint16 hi ∷ word uint16 (volume (p ∷ ps) / length (p ∷ ps)) ∷ []) export_info
              more key new_flow flow_id 0 0 (tt, (tt, (tt, tt))) (refl, (refl, (refl, tt)))),
        refl,
      )
