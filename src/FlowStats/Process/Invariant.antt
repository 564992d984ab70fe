-- ===== src/FlowStats/Process/Invariant.antt =====
-- What holds of a flow record after any packets.
use netmate_flowcalc.Common.{
  ℕ, ◌+◌, ◌-◌, ◌^◌, ◌<◌, ◌≤◌, ◌≡◌, refl, inl, inr, false, arith, ltb, ◌==◌, Bool-cases, ==_iff,
  ltb→lt,
}
use netmate_flowcalc.FlowStats.{Double, Packet, len, now, tcphlen, iphlen, proto}
use netmate_flowcalc.FlowStats.Record.{Side, Periods, FlowData, get_last}
use netmate_flowcalc.FlowStats.Process.{
  on_side, count_icmp, count_udp, count_tcp, count_headers, beyond_cap, add_period, idle_gap,
  open_period, count_length, count_interval, count_packet, account, add_hlen, update_states,
  mark_data, mark_valid, check_valid, count_flags, flags_within_cap,
}

pub record IsSide {F : Type 0} (s : Side F) : Type 0 where
  pub unseen : s.packets ≡ 0 → (s.ivals ≡ 0) × (s.last ≡ 0)
  pub fewer_ivals : 0 < s.packets → s.ivals < s.packets
  pub min_pos : 0 < s.packets → 0 < s.min_pktl
  pub min_le : s.min_pktl ≤ s.max_pktl

pub record IsPeriods {F : Type 0} (s : Periods F) : Type 0 where
  pub min_le : s.min_time ≤ s.max_time

pub record IsConsistent {F : Type 0} (d : FlowData F) : Type 0 where
  pub f_side : IsSide d.f
  pub b_side : IsSide d.b
  pub active_periods : IsPeriods d.active
  pub idle_periods : IsPeriods d.idle
  pub fresh :
      d.first ≡ 0
      → (d.f.packets ≡ 0) × (d.b.packets ≡ 0) × (d.active.count ≡ 0) × (d.idle.count ≡ 0)
  pub seen : 0 < d.first → 0 < get_last d
  pub starts : 0 < d.first → (d.first ≤ d.lactive_start) × (d.lactive_start ≤ get_last d)
  pub capped : 0 < d.first → get_last d ≤ d.first + d.time_cap
  pub bounded : get_last d < 2 ^ 64
  pub alternate : 0 < d.first → d.active.count ≡ d.idle.count + 1
  pub few_periods : d.active.count ≤ d.f.packets + d.b.packets
  pub idle_unused : d.idle.count ≡ 0 → d.idle.min_time ≡ 0
  pub idle_above : 0 < d.idle.count → d.idle_threshold < d.idle.min_time

module _ {F : Type 0} where
  hlen-IsConsistent :
      (p : Packet) (n : ℕ) (d : FlowData F)
      → IsConsistent d
      → IsConsistent (on_side p (add_hlen n) d)
  unfolding on_side get_last
  hlen-IsConsistent p n d v = ground arith

  icmp-IsConsistent : (p : Packet) (d : FlowData F) → IsConsistent d → IsConsistent (count_icmp p d)
  unfolding count_icmp on_side get_last
  icmp-IsConsistent p d v = ground arith

  udp-IsConsistent : (p : Packet) (d : FlowData F) → IsConsistent d → IsConsistent (count_udp p d)
  unfolding count_udp on_side get_last
  udp-IsConsistent p d v = ground arith

  states-IsConsistent :
      (p : Packet) (d : FlowData F) → IsConsistent d → IsConsistent (update_states p d)
  unfolding update_states get_last
  states-IsConsistent p d v = ground arith

  data-IsConsistent : (p : Packet) (d : FlowData F) → IsConsistent d → IsConsistent (mark_data p d)
  unfolding mark_data get_last
  data-IsConsistent p d v = ground arith

  mark-IsConsistent : (p : Packet) (d : FlowData F) → IsConsistent d → IsConsistent (mark_valid p d)
  unfolding mark_valid get_last
  mark-IsConsistent p d v = ground arith

  valid-IsConsistent :
      (p : Packet) (d : FlowData F) → IsConsistent d → IsConsistent (check_valid p d)
  unfolding check_valid
  valid-IsConsistent p d v = elim (Bool-cases (d.valid == 0)) [
    | inl e ↦ rw e (mark-IsConsistent p _ (data-IsConsistent p d v))
    | inr e ↦ rw e v
  ]

  flags-IsConsistent :
      (p : Packet) (d : FlowData F) → IsConsistent d → IsConsistent (flags_within_cap p d)
  unfolding flags_within_cap on_side count_flags get_last
  flags-IsConsistent p d v = ground arith

  tcp-IsConsistent : (p : Packet) (d : FlowData F) → IsConsistent d → IsConsistent (count_tcp p d)
  unfolding count_tcp
  tcp-IsConsistent p d v = elim (Bool-cases (proto p == 6)) [
    | inl e ↦ rw e (
        hlen-IsConsistent p (tcphlen p) _
          (flags-IsConsistent p _ (valid-IsConsistent p _ (states-IsConsistent p d v))))
    | inr e ↦ rw e v
  ]

  pub headers-IsConsistent :
      (p : Packet) (d : FlowData F) → IsConsistent d → IsConsistent (count_headers p d)
  unfolding count_headers
  headers-IsConsistent p d v =
      tcp-IsConsistent p _
        (udp-IsConsistent p _ (icmp-IsConsistent p _ (hlen-IsConsistent p (iphlen p) d v)))

module _ {F : Type 0} (fl : Double F) where
  -- A first packet, or one that is neither reordered nor beyond the time cap.
  abbrev pub InTime : Packet → FlowData F → Type 0
  InTime p d = (d.first ≤ now p) × (get_last d ≤ now p) × (beyond_cap p d ≡ false)

  -- The packet can be counted without a wrap.
  abbrev pub HasRoom : FlowData F → Type 0
  HasRoom d = (d.f.packets + 1 < 2 ^ 32) × (d.b.packets + 1 < 2 ^ 32)

  packet-IsSide :
      (p : Packet) (s : Side F)
      → IsSide s
      → 0 < len p
      → s.packets + 1 < 2 ^ 32
      → 0 < now p
      → IsSide (count_packet fl p s)
  unfolding count_packet count_length count_interval
  packet-IsSide p s v l r n = ground arith

  -- Between the two stages of `account`.
  record IsOpen (p : Packet) (d : FlowData F) : Type 0 where
    f_side : IsSide d.f
    b_side : IsSide d.b
    active_periods : IsPeriods d.active
    idle_periods : IsPeriods d.idle
    started : 0 < d.first
    starts : (d.first ≤ d.lactive_start) × (d.lactive_start ≤ now p)
    lasts : (d.f.last ≤ now p) × (d.b.last ≤ now p)
    capped : now p ≤ d.first + d.time_cap
    alternate : d.active.count ≡ d.idle.count + 1
    few_periods : d.active.count ≤ d.f.packets + d.b.packets + 1
    idle_unused : d.idle.count ≡ 0 → d.idle.min_time ≡ 0
    idle_above : 0 < d.idle.count → d.idle_threshold < d.idle.min_time

  first-IsOpen :
      (p : Packet) (d : FlowData F)
      → IsConsistent d
      → 0 < now p
      → get_last d ≤ now p
      → d.first ≡ 0
      → IsOpen p (record d {
        first = now p;
        active = record d.active { count = 1 };
        lactive_start = now p;
      })
  unfolding get_last
  first-IsOpen p d v n l z = ground arith

  gap-IsOpen :
      (p : Packet) (d : FlowData F)
      → IsConsistent d
      → InTime p d
      → 0 < d.first
      → d.idle_threshold < now p - get_last d
      → IsOpen p (idle_gap fl p d)
  unfolding idle_gap add_period beyond_cap
  gap-IsOpen p d v t s g = ground arith

  same-IsOpen :
      (p : Packet) (d : FlowData F) → IsConsistent d → InTime p d → 0 < d.first → IsOpen p d
  unfolding beyond_cap get_last
  same-IsOpen p d v t s = ground arith

  opened-IsOpen :
      (p : Packet) (d : FlowData F)
      → IsConsistent d
      → 0 < now p
      → InTime p d
      → IsOpen p (open_period fl p d)
  unfolding open_period
  opened-IsOpen p d v n t = elim (Bool-cases (d.first == 0)) [
    | inl e ↦ rw e (first-IsOpen p d v n t.1 (omega (arith, (==_iff d.first 0).0 e)))
    | inr e ↦
        let s : 0 < d.first = ground arith in
        elim (Bool-cases (ltb d.idle_threshold (now p - get_last d))) [
          | inl g ↦ rw (e, g) (gap-IsOpen p d v t s (ltb→lt _ _ g))
          | inr g ↦ rw (e, g) (same-IsOpen p d v t s)
        ]
  ]

  last-packet : (p : Packet) (s : Side F) → (count_packet fl p s).last ≡ now p
  unfolding count_packet
  last-packet p s = refl

  pub packets-packet :
      (p : Packet) (s : Side F)
      → s.packets + 1 < 2 ^ 32
      → (count_packet fl p s).packets ≡ s.packets + 1
  unfolding count_packet count_length count_interval
  packets-packet p s r = ground arith

  counted-IsConsistent :
      (p : Packet) (d : FlowData F)
      → IsOpen p d
      → 0 < len p
      → 0 < now p
      → now p < 2 ^ 64
      → HasRoom d
      → IsConsistent (on_side p (count_packet fl p) d)
  unfolding on_side get_last
  counted-IsConsistent p d v l n m r = ground (
    arith,
    packet-IsSide p d.f v.f_side l r.0 n,
    packet-IsSide p d.b v.b_side l r.1 n,
    last-packet p d.f,
    last-packet p d.b,
    packets-packet p d.f r.0,
    packets-packet p d.b r.1,
  )

  pub account-IsConsistent :
      (p : Packet) (d : FlowData F)
      → IsConsistent d
      → 0 < len p
      → 0 < now p
      → now p < 2 ^ 64
      → HasRoom (open_period fl p d)
      → InTime p d
      → IsConsistent (account fl p d)
  unfolding account
  account-IsConsistent p d v l n m r t =
      counted-IsConsistent p (open_period fl p d) (opened-IsOpen p d v n t) l n m r
