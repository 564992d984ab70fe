-- ===== src/Modules/Tests.antt =====
-- Three packets at the modules.
use netmate_flowcalc.Common.{ℕ, ◌≡◌, [], ◌∷◌, some, arith}
use netmate_flowcalc.Common.Int.{pos}
use netmate_flowcalc.ExportData.{Writer, le_bytes}
use netmate_flowcalc.Classifier.{MetaData}
use netmate_flowcalc.ProcModule.{Packet}
use netmate_flowcalc.MetricData.{make_metric, add_flow_data}
use netmate_flowcalc.MetricData.RoundTrip.{read_first}
use netmate_flowcalc.Modules.{feed}
use netmate_flowcalc.Modules.Count
use netmate_flowcalc.Modules.Count.Totals.{read_first-count}
use netmate_flowcalc.Modules.PktLen
use netmate_flowcalc.Modules.PktLen.Summary.{read_first-pktlen}

abbrev meta : MetaData
meta = record { offs = λ i. pos 0; payload = λ i. 0; reverse = 0; match_cnt = 1; matches = λ i. 0 }

abbrev packet : ℕ → ℕ → Packet
packet len time = record { meta = meta; cap_len = 60; len = len; tv_sec = time; tv_usec = 5 }

abbrev old : ℕ → ℕ
old i = 170

abbrev writer : Writer
writer = record { dest = old; pos = 12; listlen = 0; listpos = 0 }

abbrev malloced : Count.AccData
malloced = record {
  packets = 9;
  bytes = 9;
  first = record { tv_sec = 9; tv_usec = 9 };
  last = record { tv_sec = 9; tv_usec = 9 };
}

read_first-count_example :
    read_first 7 (record {
      metric =
          add_flow_data
            ((Count.count old writer malloced).export_data (
              feed
                (Count.count old writer malloced)
                (packet 300 20 ∷ packet 40 21 ∷ packet 1500 30 ∷ [])
                ((Count.count old writer malloced).init_flow_rec []).1)).0
            []
            1
            7
            (make_metric "count");
      export_lists = record { cols = Count.export_info; nrows = 1 } ∷ [];
      list_number = 0;
      flow_number = 0;
      col = 0;
    })
    ≡ some (
      pos 1,
      some (7, 1),
      (3 ∷ 0 ∷ 0 ∷ 0 ∷ [])
          ∷ (48 ∷ 7 ∷ 0 ∷ 0 ∷ [])
          ∷ (20 ∷ 0 ∷ 0 ∷ 0 ∷ [])
          ∷ (5 ∷ 0 ∷ 0 ∷ 0 ∷ [])
          ∷ (30 ∷ 0 ∷ 0 ∷ 0 ∷ [])
          ∷ (5 ∷ 0 ∷ 0 ∷ 0 ∷ [])
          ∷ [],
    )
unfolding le_bytes Count.count
read_first-count_example =
    read_first-count old writer malloced (packet 300 20) (packet 40 21 ∷ packet 1500 30 ∷ []) [] []
      [] 1 7 (omega arith) (omega arith)

read_first-pktlen_example :
    (read_first 4 (record {
      metric =
          add_flow_data
            ((PktLen.pktlen old writer).export_data (
              feed
                (PktLen.pktlen old writer)
                (packet 300 20 ∷ packet 40 21 ∷ packet 1500 30 ∷ [])
                PktLen.empty_data)).0
            []
            1
            7
            (make_metric "pktlen");
      export_lists = record { cols = PktLen.export_info; nrows = 1 } ∷ [];
      list_number = 0;
      flow_number = 0;
      col = 0;
    })
      ≡ some (pos 1, some (7, 1), (40 ∷ 0 ∷ []) ∷ (220 ∷ 5 ∷ []) ∷ (101 ∷ 2 ∷ []) ∷ []))
    × (((PktLen.pktlen old writer).export_data (
          feed
            (PktLen.pktlen old writer)
            (packet 300 20 ∷ packet 40 21 ∷ packet 1500 30 ∷ [])
            PktLen.empty_data)).1
        ≡ PktLen.empty_data)
unfolding le_bytes PktLen.pktlen
read_first-pktlen_example =
    read_first-pktlen old writer (packet 300 20) (packet 40 21 ∷ packet 1500 30 ∷ []) [] [] 1 7
      (omega arith)
