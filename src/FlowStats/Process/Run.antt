-- ===== src/FlowStats/Process/Run.antt =====
-- A flow record fed with a list of packets.
use netmate_flowcalc.Common.{
  ℕ, ◌+◌, ◌^◌, ◌<◌, ◌≤◌, ◌≡◌, inl, inr, true, false, List, [], ◌∷◌, Option, none, some, arith, ltb,
  ◌==◌, if◌then◌else◌, Bool-cases, ltb→lt,
}
use netmate_flowcalc.FlowStats.{Double, Packet, len, now}
use netmate_flowcalc.FlowStats.Record.{FlowData, get_last}
use netmate_flowcalc.FlowStats.Process.{
  aborted, undefined, overflows, done, on_side, count_headers, beyond_cap, idle_gap, open_period,
  account, process_packet, export_now,
}
use netmate_flowcalc.FlowStats.Process.Headers.{Same, headers-Same}
use netmate_flowcalc.FlowStats.Process.Invariant.{
  IsConsistent, headers-IsConsistent, packets-packet, account-IsConsistent, HasRoom,
}

module _ {F : Type 0} (fl : Double F) where
  -- The number of packets counted.
  abbrev pub counted : FlowData F → ℕ
  counted d = d.f.packets + d.b.packets

  open-packets :
      (p : Packet) (d : FlowData F)
      → ((open_period fl p d).f.packets ≡ d.f.packets)
        × ((open_period fl p d).b.packets ≡ d.b.packets)
        × ((open_period fl p d).first ≡ (if d.first == 0 then now p else d.first))
  unfolding open_period idle_gap
  open-packets p d = ground arith

  account-counts :
      (p : Packet) (d : FlowData F)
      → HasRoom fl d
      → (counted (account fl p d) ≡ counted d + 1)
        × ((account fl p d).first ≡ (if d.first == 0 then now p else d.first))
  unfolding account on_side
  account-counts p d r = ground (
    arith,
    open-packets p d,
    packets-packet fl p (open_period fl p d).f,
    packets-packet fl p (open_period fl p d).b,
  )

  -- The record `e` that a packet makes of `d`.
  pub record Fed (p : Packet) (d e : FlowData F) : Type 0 where
    pub consistent : IsConsistent e
    pub counts : counted e ≤ counted d + 1
    pub first : e.first ≡ (if d.first == 0 then now p else d.first)

  -- What the packet must be: not empty, with a time of its own, and not before the flow.
  pub record Fits (p : Packet) (d : FlowData F) : Type 0 where
    pub filled : 0 < len p
    pub timed : 0 < now p
    pub later : d.first ≤ now p

  now_bound : (p : Packet) → now p < 2 ^ 64
  unfolding now
  now_bound p = omega arith

  first_get_last : (d : FlowData F) → IsConsistent d → d.first ≡ 0 → get_last d ≡ 0
  unfolding get_last
  first_get_last d v e = ground arith

  Same-get_last : (d e : FlowData F) → Same d e → get_last e ≡ get_last d
  unfolding get_last
  Same-get_last d e s = ground arith

  reordered-Fed : (p : Packet) (d : FlowData F) → IsConsistent d → now p < get_last d → Fed p d d
  reordered-Fed p d v l = ground (arith, first_get_last d v)

  beyond-first : (p : Packet) (d : FlowData F) → beyond_cap p d ≡ true → 0 < d.first
  unfolding beyond_cap
  beyond-first p d e = ground arith

  beyond-Fed :
      (p : Packet) (d : FlowData F)
      → IsConsistent d
      → beyond_cap p (count_headers p d) ≡ true
      → Fed p d (count_headers p d)
  beyond-Fed p d v e =
      let s = headers-Same p d in
      let c = headers-IsConsistent p d v in ground (arith, beyond-first p (count_headers p d) e)

  account-Fed :
      (p : Packet) (d : FlowData F)
      → IsConsistent d
      → Fits p d
      → counted d + 1 < 2 ^ 31
      → get_last d ≤ now p
      → beyond_cap p (count_headers p d) ≡ false
      → Fed p d (account fl p (count_headers p d))
  account-Fed p d v w r l e =
      let s = headers-Same p d in
      let c = headers-IsConsistent p d v in
      let o = open-packets p (count_headers p d) in
      let a =
        account-IsConsistent fl p (count_headers p d) c w.filled w.timed (now_bound p)
          (omega arith, omega arith) (omega arith, omega (arith, Same-get_last d _ s), e) in
      ground (arith, account-counts p (count_headers p d))

  -- A count of periods below the number of packets has room for one more.
  no_overflow :
      (p : Packet) (d : FlowData F)
      → IsConsistent d
      → counted d + 1 < 2 ^ 31
      → overflows p d ≡ false
  unfolding overflows
  no_overflow p d v r = ground arith

  headers-no_overflow :
      (p : Packet) (d : FlowData F)
      → IsConsistent d
      → counted d + 1 < 2 ^ 31
      → overflows p (count_headers p d) ≡ false
  headers-no_overflow p d v r =
      let s = headers-Same p d in
      no_overflow p (count_headers p d) (headers-IsConsistent p d v) (ground arith)

  -- A packet that is not before the flow does not abort, and the record stays consistent.
  pub process_packet-Fed :
      (p : Packet) (d : FlowData F)
      → IsConsistent d
      → Fits p d
      → counted d + 1 < 2 ^ 31
      → (r : ℕ) × (e : FlowData F) × (process_packet fl p d ≡ done r e) × Fed p d e
  unfolding process_packet
  process_packet-Fed p d v w r = elim (Bool-cases (ltb (now p) (get_last d))) [
    | inl e ↦
        let k : ltb (now p) d.first ≡ false = ground arith in
        (0, d, rw (k, e), reordered-Fed p d v (ltb→lt _ _ e))
    | inr e ↦
        let k : ltb (now p) d.first ≡ false = ground arith in
        elim (Bool-cases (beyond_cap p (count_headers p d))) [
          | inl b ↦ (
            export_now p (count_headers p d),
            count_headers p d,
            rw (k, e, b),
            beyond-Fed p d v b,
          )
          | inr b ↦ (
            export_now p (account fl p (count_headers p d)),
            account fl p (count_headers p d),
            rw (k, e, b, headers-no_overflow p d v r),
            account-Fed p d v w r (ground arith) b,
          )
        ]
  ]

  -- The record after some packets; `none` if an `assert` fails or a signed counter overflows.
  pub run : FlowData F → List Packet → Option (FlowData F)
  run d [] = some d
  run d (p ∷ ps) = elim (process_packet fl p d) [
    | aborted ↦ none
    | undefined ↦ none
    | done r e ↦ run e ps
  ]

  -- No packet is empty, has the time 0 or lies before `t`.
  abbrev pub AllFit : ℕ → List Packet → Type 0
  AllFit t [] = Unit {0}
  AllFit t (p ∷ ps) = (0 < len p) × (0 < now p) × (t ≤ now p) × AllFit t ps
