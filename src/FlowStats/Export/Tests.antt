-- ===== src/FlowStats/Export/Tests.antt =====
-- The export of a flow with two packets of 60 bytes in one direction. A `double` stands as a
-- number; the square root is only taken of 0.
use netmate_flowcalc.Common.{
  ℕ, ◌+◌, ◌-◌, ◌*◌, ◌/◌, ◌≡◌, refl, true, [], ◌∷◌, ◌++◌, some, map, ltb, leb,
}
use netmate_flowcalc.Common.Int.{pos}
use netmate_flowcalc.ExportData.{Writer, le_bytes, start_export, end_export}
use netmate_flowcalc.MetricData.{make_metric, add_flow_data}
use netmate_flowcalc.MetricData.RoundTrip.{read_first}
use netmate_flowcalc.FlowStats.Tcp.{initial}
use netmate_flowcalc.FlowStats.Record.{FlowData, Side, no_side, no_periods}
use netmate_flowcalc.FlowStats.Export.{
  headers, flags, subflows, idle_times, active_times, iats, length_dev, lengths, totals, periods_ok,
  sides_ok, Arithmetic, add_values, end_active, is_exported, export_data, export_info, minus_one,
}
use netmate_flowcalc.FlowStats.Export.Layout.{read_first-export_data}

abbrev numbers : Arithmetic ℕ
numbers = record {
  sums = record { zero_f = 0; add_f = ◌+◌; of_int = λ n. n };
  sub_f = ◌-◌;
  mul_f = ◌*◌;
  div_f = ◌/◌;
  sqrt_f = λ n. n;
  trunc = λ n. n;
  is_positive = λ n. ltb 0 n;
  leb_f = leb;
}

abbrev forward : Side ℕ
forward = record {
  packets = 2;
  bytes = 120;
  min_pktl = 60;
  pktl_sum = 120;
  pktl_sqsum = 7200;
  max_pktl = 60;
  min_iat = 5;
  max_iat = 5;
  iat_sum = 5;
  iat_sqsum = 25;
  last = 1005;
  ivals = 1;
  psh_cnt = 0;
  urg_cnt = 0;
  total_hlen = 56;
}

abbrev flow : FlowData ℕ
flow = record {
  f = forward;
  b = no_side numbers.sums;
  first = 1000;
  lactive_start = 1000;
  active = record { count = 1; time = 0; min_time = 0; max_time = 0; sqsum = 0 };
  idle = no_periods numbers.sums;
  cstate = initial;
  sstate = initial;
  valid = 1;
  tcp_has_data = 0;
  idle_threshold = 62000000;
  min_duration = 0;
  time_cap = 100000000;
}

abbrev writer : Writer
writer = record { dest = λ i. 170; pos = 3; listlen = 0; listpos = 0 }

flow_exported : is_exported numbers flow ≡ true
unfolding is_exported
flow_exported = refl

flow_passes :
    export_data numbers (λ i. 170) writer flow
    ≡ some (
      end_export
          (add_values numbers flow (end_active numbers flow) (start_export (λ i. 170) writer)),
      end_active numbers flow,
    )
unfolding export_data is_exported sides_ok periods_ok end_active
flow_passes = refl

read_first-export_data_example :
    read_first 40 (record {
      metric =
          add_flow_data
            (end_export
              (add_values numbers flow (end_active numbers flow) (start_export (λ i. 170) writer)))
            []
            1
            7
            (make_metric "netai_flowstats");
      export_lists = record { cols = export_info; nrows = 1 } ∷ [];
      list_number = 0;
      flow_number = 0;
      col = 0;
    })
    ≡ some (
      pos 1,
      some (7, 1),
      map
            (le_bytes 4)
            (2 ∷ 120 ∷ 0 ∷ 0 ∷ 60 ∷ 60 ∷ 60 ∷ 0 ∷ minus_one ∷ minus_one ∷ minus_one ∷ 0 ∷ [])
          ++ map
              (le_bytes 8)
              (5 ∷ 5 ∷ 5 ∷ 0 ∷ 0 ∷ 0 ∷ 0 ∷ 0 ∷ 5 ∷ 5 ∷ 5 ∷ 5 ∷ 0 ∷ 0 ∷ 0 ∷ 0 ∷ 0 ∷ [])
          ++ map (le_bytes 4) (2 ∷ 120 ∷ 0 ∷ 0 ∷ 0 ∷ 0 ∷ 0 ∷ 0 ∷ 56 ∷ 0 ∷ []),
    )
unfolding end_active totals lengths length_dev iats active_times idle_times subflows flags headers
read_first-export_data_example =
    read_first-export_data numbers (λ i. 170) writer flow (end_active numbers flow)
      (end_export
        (add_values numbers flow (end_active numbers flow) (start_export (λ i. 170) writer)))
      [] "netai_flowstats" [] 1 7 flow_exported flow_passes
