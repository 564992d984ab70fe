-- ===== src/FlowStats/Process.antt =====
-- `processPacket` of netai_flowstats.c. A difference that its tests keep from being negative is
-- written as one of numbers.
pub mod Invariant
pub mod Headers
pub mod Run
pub mod Intervals
use netmate_flowcalc.Common.{
  ℕ, ◌+◌, ◌-◌, ◌*◌, ◌^◌, Bool, true, false, ◌&&◌, ◌||◌, not, ◌==◌, ltb, leb, if◌then◌else◌,
}
use netmate_flowcalc.FlowStats.{
  Double, Packet, u32, u64, sub_u64, len, now, iphlen, proto, tcp_flags, tcphlen, udplen,
}
use netmate_flowcalc.FlowStats.Tcp.{
  TcpState, established, closed, update_state, is_set, tcp_psh, tcp_urg,
}
use netmate_flowcalc.FlowStats.Record.{Side, Periods, FlowData, get_last}

-- A failed `assert` ends the meter, and the overflow of a signed counter is not defined. Otherwise the
-- return value, where 1 asks for an export at once, and the record after the call.
pub data Outcome (F : Type 0) : Type 0 where
  aborted : Outcome F
  undefined : Outcome F
  done : ℕ → FlowData F → Outcome F

is_established : TcpState → Bool
is_established established = true
is_established _ = false

is_closed : TcpState → Bool
is_closed closed = true
is_closed _ = false

module _ {F : Type 0} where
  -- The fields of the packet's direction.
  pub on_side : Packet → (Side F → Side F) → FlowData F → FlowData F
  on_side p g d = if p.reverse == 0 then record d { f = g d.f } else record d { b = g d.b }

  abbrev add_hlen : ℕ → Side F → Side F
  add_hlen n s = record s { total_hlen = u32 (s.total_hlen + n) }

  count_icmp : Packet → FlowData F → FlowData F
  count_icmp p d =
      if d.valid == 0 && proto p == 1
      then on_side p (add_hlen 8) (record d { valid = d.valid + 1 })
      else d

  count_udp : Packet → FlowData F → FlowData F
  count_udp p d =
      if d.valid == 0 && proto p == 17
      then on_side p (add_hlen 8)
          (record d { valid = if ltb 8 (udplen p) then d.valid + 1 else d.valid })
      else d

  update_states : Packet → FlowData F → FlowData F
  update_states p d = record d {
    cstate = update_state d.cstate (tcp_flags p) 0 p.reverse;
    sstate = update_state d.sstate (tcp_flags p) 1 p.reverse;
  }

  mark_data : Packet → FlowData F → FlowData F
  unfolding is_established
  mark_data p d =
      if (is_established d.cstate || is_established d.sstate) && ltb (iphlen p + tcphlen p) (len p)
      then record d { tcp_has_data = d.tcp_has_data + 1 }
      else d

  mark_valid : Packet → FlowData F → FlowData F
  mark_valid p d =
      if not (d.tcp_has_data == 0)
        && (ltb d.time_cap (now p - d.first) || ltb 0 d.f.packets && ltb 0 d.b.packets)
      then record d { valid = d.valid + 1 }
      else d

  check_valid : Packet → FlowData F → FlowData F
  check_valid p d = if d.valid == 0 then mark_valid p (mark_data p d) else d

  count_flags : Packet → Side F → Side F
  count_flags p s = record s {
    psh_cnt = if is_set tcp_psh (tcp_flags p) then u32 (s.psh_cnt + 1) else s.psh_cnt;
    urg_cnt = if is_set tcp_urg (tcp_flags p) then u32 (s.urg_cnt + 1) else s.urg_cnt;
  }

  -- The first packet, or one within the time cap.
  flags_within_cap : Packet → FlowData F → FlowData F
  flags_within_cap p d =
      if d.first == 0 || leb (now p - d.first) d.time_cap then on_side p (count_flags p) d else d

  count_tcp : Packet → FlowData F → FlowData F
  count_tcp p d =
      if proto p == 6
      then on_side p (add_hlen (tcphlen p)) (flags_within_cap p (check_valid p (update_states p d)))
      else d

  -- All that is done before the test of the time cap.
  pub count_headers : Packet → FlowData F → FlowData F
  count_headers p d = count_tcp p (count_udp p (count_icmp p (on_side p (add_hlen (iphlen p)) d)))

  pub beyond_cap : Packet → FlowData F → Bool
  beyond_cap p d = ltb 0 d.first && ltb d.time_cap (now p - d.first)

  -- The `int32_t` count of the active or the idle periods cannot hold one more, and a gap adds one.
  pub overflows : Packet → FlowData F → Bool
  overflows p d =
      not (d.first == 0)
      && ltb d.idle_threshold (now p - get_last d)
      && (leb (2 ^ 31 - 1) d.active.count || leb (2 ^ 31 - 1) d.idle.count)

  -- 1 asks for an export.
  pub export_now : Packet → FlowData F → ℕ
  unfolding is_closed
  export_now p d = if proto p == 6 && is_closed d.cstate && is_closed d.sstate then 1 else 0

module _ {F : Type 0} (fl : Double F) where
  open fl use {add_f, of_int}

  pub add_period : ℕ → Periods F → Periods F
  add_period diff s = record {
    count = s.count + 1;
    time = add_f s.time (of_int diff);
    min_time = if ltb diff s.min_time || s.min_time == 0 then diff else s.min_time;
    max_time = if ltb s.max_time diff then diff else s.max_time;
    sqsum = add_f s.sqsum (of_int (u64 (diff * diff)));
  }

  -- A gap above the threshold ends an active period.
  pub idle_gap : Packet → FlowData F → FlowData F
  idle_gap p d = record d {
    idle = add_period (now p - get_last d) d.idle;
    active = add_period (sub_u64 (get_last d) d.lactive_start) d.active;
    f = record d.f { last = 0 };
    b = record d.b { last = 0 };
    lactive_start = now p;
  }

  pub open_period : Packet → FlowData F → FlowData F
  open_period p d =
      if d.first == 0
      then record d { first = now p; active = record d.active { count = 1 }; lactive_start = now p }
      else if ltb d.idle_threshold (now p - get_last d)
      then idle_gap p d
      else d

  -- The packet's length. The product in `int`, which overflows from 46341 bytes on, is not wrapped.
  pub count_length : Packet → Side F → Side F
  count_length p s = record s {
    min_pktl = if ltb (len p) s.min_pktl || s.min_pktl == 0 then len p else s.min_pktl;
    max_pktl = if ltb s.max_pktl (len p) then len p else s.max_pktl;
    pktl_sum = add_f s.pktl_sum (of_int (len p));
    pktl_sqsum = add_f s.pktl_sqsum (of_int (len p * len p));
  }

  -- The time since the last packet of the direction; `min_iat` and `max_iat` keep 32 bits of it.
  pub count_interval : ℕ → Side F → Side F
  count_interval diff s = record s {
    min_iat = if ltb diff s.min_iat || s.min_iat == 0 then u32 diff else s.min_iat;
    max_iat = if ltb s.max_iat diff then u32 diff else s.max_iat;
    iat_sum = add_f s.iat_sum (of_int diff);
    iat_sqsum = add_f s.iat_sqsum (of_int (u64 (diff * diff)));
    ivals = u32 (s.ivals + 1);
  }

  pub count_packet : Packet → Side F → Side F
  count_packet p s =
      let t =
        if ltb 0 s.last
        then count_interval (now p - s.last) (count_length p s)
        else count_length p s in
      record t { last = now p; packets = u32 (t.packets + 1); bytes = u32 (t.bytes + len p) }

  -- What a packet within the time cap adds.
  pub account : Packet → FlowData F → FlowData F
  account p d = on_side p (count_packet p) (open_period p d)

  pub process_packet : Packet → FlowData F → Outcome F
  process_packet p d =
      if ltb (now p) d.first
      then aborted
      else if ltb (now p) (get_last d)
      then done 0 d
      else if beyond_cap p (count_headers p d)
      then done (export_now p (count_headers p d)) (count_headers p d)
      else if overflows p (count_headers p d)
      then undefined
      else done (export_now p (account p (count_headers p d))) (account p (count_headers p d))
