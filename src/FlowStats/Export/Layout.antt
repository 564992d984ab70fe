-- ===== src/FlowStats/Export/Layout.antt =====
-- What an export module reads of the statistics that netai_flowstats.c exports.
use Prim.Native.String.{String}
use netmate_flowcalc.Common.{
  ℕ, ◌≡◌, refl, true, List, [], ◌∷◌, ◌++◌, some, ◌&&◌, map, ◌%◌, ◌-◌, ◌*◌, ◌/◌, ◌^◌, ◌||◌, ◌==◌,
  ltb, if◌then◌else◌, Bool-cases, inl, inr, some_inj, ap,
}
use netmate_flowcalc.Common.Int.{pos}
use netmate_flowcalc.ExportList.{ExportTable, int32, uint32, uint64}
use netmate_flowcalc.ExportData.{
  Writer, le_bytes, aligned, add_aligned, add_int32, add_uint32, add_uint64, start_export,
  end_export,
}
use netmate_flowcalc.MetricData.{make_metric, add_flow_data}
use netmate_flowcalc.MetricData.Values.{word, item_bytes}
use netmate_flowcalc.MetricData.RoundTrip.{read_first, read_first-add_items}
use netmate_flowcalc.FlowStats.{sub_u64}
use netmate_flowcalc.FlowStats.Record.{FlowData, get_last}
use netmate_flowcalc.FlowStats.Export.{
  Arithmetic, totals, lengths, length_dev, iats, active_times, idle_times, subflows, flags, headers,
  add_values, add_uint32s, add_int32s, add_uint64s, end_active, is_exported, sides_ok, periods_ok,
  export_data, export_info,
}

module _ {F : Type 0} (ar : Arithmetic F) where
  open ar use {sub_f, mul_f, div_f, sqrt_f, trunc}
  open ar.sums use {add_f, of_int}

  -- The mean and the standard deviation of `n` values, without their fractions, from their sum and
  -- the sum of their squares. The deviation of fewer than two is 0.
  abbrev pub average : F → ℕ → ℕ
  average sum n = trunc (div_f sum (of_int n))

  abbrev pub deviation : F → F → ℕ → ℕ
  deviation sqsum sum n =
      if ltb n 2
      then 0
      else trunc (sqrt_f (div_f (sub_f sqsum (div_f (mul_f sum sum) (of_int n))) (of_int (n - 1))))

  -- A length is -1 where there are no packets, and a time is 0 where there are no intervals.
  abbrev pub length_of : ℕ → ℕ → ℕ
  length_of n v = if n == 0 then 2 ^ 32 - 1 else v

  abbrev pub time_of : ℕ → ℕ → ℕ
  time_of n v = if n == 0 then 0 else v

  -- The active period that the last packet of the flow ends.
  abbrev pub last_period : FlowData F → ℕ
  last_period d = sub_u64 (get_last d) d.lactive_start

  -- The values in the order of the columns: those of 32 bits, of 64 bits, and of 32 bits again. The
  -- mean of the forward lengths is cast to 16 bits, that of the backward ones is not.
  abbrev pub first_words : FlowData F → List ℕ
  first_words d =
      d.f.packets
      ∷ d.f.bytes
      ∷ d.b.packets
      ∷ d.b.bytes
      ∷ length_of d.f.packets d.f.min_pktl
      ∷ length_of d.f.packets (average d.f.pktl_sum d.f.packets % 65536)
      ∷ length_of d.f.packets d.f.max_pktl
      ∷ deviation d.f.pktl_sqsum d.f.pktl_sum d.f.packets
      ∷ length_of d.b.packets d.b.min_pktl
      ∷ length_of d.b.packets (average d.b.pktl_sum d.b.packets)
      ∷ length_of d.b.packets d.b.max_pktl
      ∷ deviation d.b.pktl_sqsum d.b.pktl_sum d.b.packets
      ∷ []

  abbrev pub long_words : FlowData F → List ℕ
  long_words d =
      let p = last_period d in
      let a = d.active in
      time_of d.f.ivals d.f.min_iat
      ∷ time_of d.f.ivals (average d.f.iat_sum d.f.ivals)
      ∷ time_of d.f.ivals d.f.max_iat
      ∷ deviation d.f.iat_sqsum d.f.iat_sum d.f.ivals
      ∷ time_of d.b.ivals d.b.min_iat
      ∷ time_of d.b.ivals (average d.b.iat_sum d.b.ivals)
      ∷ time_of d.b.ivals d.b.max_iat
      ∷ deviation d.b.iat_sqsum d.b.iat_sum d.b.ivals
      ∷ sub_u64 (get_last d) d.first
      ∷ (if ltb p a.min_time || a.min_time == 0 then p else a.min_time)
      ∷ average (add_f a.time (of_int p)) a.count
      ∷ (if ltb a.max_time p then p else a.max_time)
      ∷ deviation (add_f a.sqsum (of_int (p * p % 2 ^ 64))) (add_f a.time (of_int p)) a.count
      ∷ d.idle.min_time
      ∷ (if ltb 0 d.idle.count then average d.idle.time d.idle.count else 0)
      ∷ d.idle.max_time
      ∷ deviation d.idle.sqsum d.idle.time d.idle.count
      ∷ []

  abbrev pub last_words : FlowData F → List ℕ
  last_words d =
      let n = d.active.count in
      (if ltb 0 n then d.f.packets / n else 0)
      ∷ (if ltb 0 n then d.f.bytes / n else 0)
      ∷ (if ltb 0 n then d.b.packets / n else 0)
      ∷ (if ltb 0 n then d.b.bytes / n else 0)
      ∷ d.f.psh_cnt
      ∷ d.b.psh_cnt
      ∷ d.f.urg_cnt
      ∷ d.b.urg_cnt
      ∷ d.f.total_hlen
      ∷ d.b.total_hlen
      ∷ []

  -- The calls that write the values, one after the other.
  read_values :
      (exp_data : ℕ → ℕ) (w : Writer) (d : FlowData F) (more : List ExportTable) (mn : String)
      (key : List ℕ) (new_flow flow_id : ℕ)
      → read_first 40 (record {
        metric =
            add_flow_data
              (end_export (add_values ar d (end_active ar d) (start_export exp_data w)))
              key
              new_flow
              flow_id
              (make_metric mn);
        export_lists = record { cols = export_info; nrows = 1 } ∷ more;
        list_number = 0;
        flow_number = 0;
        col = 0;
      })
        ≡ some (
          pos 1,
          some (flow_id, new_flow),
          map (le_bytes 4) (first_words d)
              ++ map (le_bytes 8) (long_words d)
              ++ map (le_bytes 4) (last_words d),
        )
  unfolding end_active totals lengths length_dev iats active_times idle_times subflows flags headers
      add_values add_uint32s add_int32s add_uint64s add_int32 add_uint32 add_uint64 add_aligned
      aligned le_bytes item_bytes start_export
  read_values exp_data w d more mn key new_flow flow_id =
      let words = map (word uint32) in
      let ints = map (word int32) in
      let longs = map (word uint64) in
      read_first-add_items mn exp_data w (word uint32 d.f.packets)
        (words (d.f.bytes ∷ d.b.packets ∷ d.b.bytes ∷ [])
          ++ ints (lengths ar (λ n. n % 65536) d.f)
          ++ words (length_dev ar d.f)
          ++ ints (lengths ar (λ n. n) d.b)
          ++ words (length_dev ar d.b)
          ++ longs (long_words d)
          ++ words (last_words d))
        export_info more key new_flow flow_id 0 0
        (
          tt,
          (
            tt,
            (
              tt,
              (
                tt,
                (
                  tt,
                  (
                    tt,
                    (
                      tt,
                      (
                        tt,
                        (
                          tt,
                          (
                            tt,
                            (
                              tt,
                              (
                                tt,
                                (
                                  refl,
                                  (
                                    refl,
                                    (
                                      refl,
                                      (
                                        refl,
                                        (
                                          refl,
                                          (
                                            refl,
                                            (
                                              refl,
                                              (
                                                refl,
                                                (
                                                  refl,
                                                  (
                                                    refl,
                                                    (
                                                      refl,
                                                      (
                                                        refl,
                                                        (
                                                          refl,
                                                          (
                                                            refl,
                                                            (
                                                            refl,
                                                            (
                                                            refl,
                                                            (
                                                            refl,
                                                            (
                                                            tt,
                                                            (
                                                            tt,
                                                            (
                                                            tt,
                                                            (
                                                            tt,
                                                            (tt, (tt, (tt, (tt, (tt, (tt, tt)))))),
                                                            ),
                                                            ),
                                                            ),
                                                            ),
                                                            ),
                                                            ),
                                                            ),
                                                          ),
                                                        ),
                                                      ),
                                                    ),
                                                  ),
                                                ),
                                              ),
                                            ),
                                          ),
                                        ),
                                      ),
                                    ),
                                  ),
                                ),
                              ),
                            ),
                          ),
                        ),
                      ),
                    ),
                  ),
                ),
              ),
            ),
          ),
        )
        (
          refl,
          (
            refl,
            (
              refl,
              (
                refl,
                (
                  refl,
                  (
                    refl,
                    (
                      refl,
                      (
                        refl,
                        (
                          refl,
                          (
                            refl,
                            (
                              refl,
                              (
                                refl,
                                (
                                  refl,
                                  (
                                    refl,
                                    (
                                      refl,
                                      (
                                        refl,
                                        (
                                          refl,
                                          (
                                            refl,
                                            (
                                              refl,
                                              (
                                                refl,
                                                (
                                                  refl,
                                                  (
                                                    refl,
                                                    (
                                                      refl,
                                                      (
                                                        refl,
                                                        (
                                                          refl,
                                                          (
                                                            refl,
                                                            (
                                                            refl,
                                                            (
                                                            refl,
                                                            (
                                                            refl,
                                                            (
                                                            refl,
                                                            (
                                                            refl,
                                                            (
                                                            refl,
                                                            (
                                                            refl,
                                                            (
                                                            refl,
                                                            (
                                                            refl,
                                                            (refl, (refl, (refl, (refl, tt)))),
                                                            ),
                                                            ),
                                                            ),
                                                            ),
                                                            ),
                                                            ),
                                                            ),
                                                            ),
                                                            ),
                                                          ),
                                                        ),
                                                      ),
                                                    ),
                                                  ),
                                                ),
                                              ),
                                            ),
                                          ),
                                        ),
                                      ),
                                    ),
                                  ),
                                ),
                              ),
                            ),
                          ),
                        ),
                      ),
                    ),
                  ),
                ),
              ),
            ),
          ),
        )

  -- Let a flow be valid and last long enough, so that it is exported, and let no assertion fail.
  -- Then an export module that reads each column by its own size, as netai_arff does, gets 39 values
  -- computed from the record of the flow: packets and bytes of both directions, least, mean and
  -- greatest length and time between packets with their deviations, the duration, the active periods
  -- with the one that the last packet ends, the idle periods, the averages of a subflow, flags and
  -- header lengths. The integers of 64 bits are found although the reader aligns them to 32 bits,
  -- since an even number of words stands in front of them.
  pub read_first-export_data :
      (exp_data : ℕ → ℕ) (w : Writer) (d d' : FlowData F) (bytes : List ℕ) (more : List ExportTable)
      (mn : String) (key : List ℕ) (new_flow flow_id : ℕ)
      → is_exported ar d ≡ true
      → export_data ar exp_data w d ≡ some (bytes, d')
      → read_first 40 (record {
        metric = add_flow_data bytes key new_flow flow_id (make_metric mn);
        export_lists = record { cols = export_info; nrows = 1 } ∷ more;
        list_number = 0;
        flow_number = 0;
        col = 0;
      })
        ≡ some (
          pos 1,
          some (flow_id, new_flow),
          map (le_bytes 4) (first_words d)
              ++ map (le_bytes 8) (long_words d)
              ++ map (le_bytes 4) (last_words d),
        )
  unfolding export_data
  read_first-export_data exp_data w d d' bytes more mn key new_flow flow_id e h =
      elim (Bool-cases (sides_ok ar d && periods_ok ar (end_active ar d))) [
        | inr c ↦ cc (rw (export_data, e, c) at h)
        | inl c ↦
            let same : end_export (add_values ar d (end_active ar d) (start_export exp_data w))
                ≡ bytes =
              ap (λ t. t.0) (some_inj (rw (export_data, e, c) at h)) in
            rw (← same) (read_values exp_data w d more mn key new_flow flow_id)
      ]
