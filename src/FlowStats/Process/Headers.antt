-- ===== src/FlowStats/Process/Headers.antt =====
-- What the part of `processPacket` before the time cap leaves alone.
use netmate_flowcalc.Common.{ℕ, ◌≡◌, ◌∙◌, inl, inr, arith, ◌==◌, Bool-cases}
use netmate_flowcalc.FlowStats.{Packet, tcphlen, iphlen, proto}
use netmate_flowcalc.FlowStats.Record.{FlowData}
use netmate_flowcalc.FlowStats.Process.{
  on_side, count_icmp, count_udp, count_tcp, count_headers, add_hlen, update_states, mark_data,
  mark_valid, check_valid, count_flags, flags_within_cap,
}

module _ {F : Type 0} where
  -- What the headers leave alone.
  pub record Same (d e : FlowData F) : Type 0 where
    pub f_packets : e.f.packets ≡ d.f.packets
    pub b_packets : e.b.packets ≡ d.b.packets
    pub f_last : e.f.last ≡ d.f.last
    pub b_last : e.b.last ≡ d.b.last
    pub first : e.first ≡ d.first

  Same-trans : {d e g : FlowData F} → Same d e → Same e g → Same d g
  Same-trans s t = record {
    f_packets = t.f_packets ∙ s.f_packets;
    b_packets = t.b_packets ∙ s.b_packets;
    f_last = t.f_last ∙ s.f_last;
    b_last = t.b_last ∙ s.b_last;
    first = t.first ∙ s.first;
  }

  module _ (p : Packet) (d : FlowData F) where
    hlen-Same : (n : ℕ) → Same d (on_side p (add_hlen n) d)
    unfolding on_side
    hlen-Same n = ground arith

    icmp-Same : Same d (count_icmp p d)
    unfolding count_icmp on_side
    icmp-Same = ground arith

    udp-Same : Same d (count_udp p d)
    unfolding count_udp on_side
    udp-Same = ground arith

    data-Same : Same d (mark_data p d)
    unfolding mark_data
    data-Same = ground arith

    mark-Same : Same d (mark_valid p d)
    unfolding mark_valid
    mark-Same = ground arith

    states-Same : Same d (update_states p d)
    unfolding update_states
    states-Same = ground arith

    flags-Same : Same d (flags_within_cap p d)
    unfolding flags_within_cap on_side count_flags
    flags-Same = ground arith

    refl-Same : Same d d
    refl-Same = ground arith

  valid-Same : (p : Packet) (d : FlowData F) → Same d (check_valid p d)
  unfolding check_valid
  valid-Same p d = elim (Bool-cases (d.valid == 0)) [
    | inl e ↦ rw e (Same-trans (data-Same p d) (mark-Same p _))
    | inr e ↦ rw e (refl-Same p d)
  ]

  tcp-Same : (p : Packet) (d : FlowData F) → Same d (count_tcp p d)
  unfolding count_tcp
  tcp-Same p d = elim (Bool-cases (proto p == 6)) [
    | inl e ↦ rw e (
        Same-trans (states-Same p d)
          (Same-trans (valid-Same p _) (Same-trans (flags-Same p _) (hlen-Same p _ (tcphlen p)))))
    | inr e ↦ rw e (refl-Same p d)
  ]

  pub headers-Same : (p : Packet) (d : FlowData F) → Same d (count_headers p d)
  unfolding count_headers
  headers-Same p d =
      Same-trans (hlen-Same p d (iphlen p))
        (Same-trans (icmp-Same p _) (Same-trans (udp-Same p _) (tcp-Same p _)))
