-- ===== src/FlowStats/Tests.antt =====
-- Runs of the flow statistics, and their theorems at concrete packets. A `double` stands as a number.
use netmate_flowcalc.Common.{ℕ, ◌+◌, ◌≡◌, refl, true, List, [], ◌∷◌, ◌==◌, if◌then◌else◌}
use netmate_flowcalc.FlowStats.{Double, Packet}
use netmate_flowcalc.FlowStats.Tcp.{Segment, TcpState, initial, established, update_state, is_set}
use netmate_flowcalc.FlowStats.Tcp.Handshake.{occur, own_syn, other_synack, own_ack, handshake}
use netmate_flowcalc.FlowStats.Record.{FlowData, no_side, no_periods}
use netmate_flowcalc.FlowStats.Process.Run.{run}

abbrev doubles : Double ℕ
doubles = record { zero_f = 0; add_f = ◌+◌; of_int = λ n. n }

abbrev segments : List Segment
segments =
    record { flags = 2; pdir = 0 }
    ∷ record { flags = 0x12; pdir = 1 }
    ∷ record { flags = 0x10; pdir = 0 }
    ∷ []

client_established : netmate_flowcalc.FlowStats.Tcp.run initial 0 segments ≡ established
unfolding netmate_flowcalc.FlowStats.Tcp.run update_state is_set
client_established = refl

handshake_example : occur 0 (own_syn ∷ other_synack ∷ own_ack ∷ []) segments ≡ true
handshake_example = handshake 0 segments client_established

-- A UDP packet of 60 bytes behind an Ethernet header.
abbrev udp_byte : ℕ → ℕ
udp_byte i =
    if i == 14
    then 0x45
    else if i == 17
    then 60
    else if i == 23
    then 17
    else if i == 39
    then 40
    else 0

abbrev udp_at : ℕ → ℕ → Packet
udp_at t r = record {
  tv_sec = t;
  tv_usec = 0;
  net = 14;
  trans = 34;
  reverse = r;
  payload = udp_byte;
}

abbrev raw : FlowData ℕ
raw = record {
  f = no_side doubles;
  b = no_side doubles;
  first = 0;
  lactive_start = 0;
  active = no_periods doubles;
  idle = no_periods doubles;
  cstate = initial;
  sstate = initial;
  valid = 0;
  tcp_has_data = 0;
  idle_threshold = 62000000;
  min_duration = 0;
  time_cap = 0xFFFF_FFFF_FFFF_FFFF;
}

abbrev packets : List Packet
packets = udp_at 101 1 ∷ udp_at 200 0 ∷ udp_at 199 0 ∷ []
