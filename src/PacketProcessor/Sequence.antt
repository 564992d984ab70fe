-- ===== src/PacketProcessor/Sequence.antt =====
-- `processPacket` of src/netmate/PacketProcessor.cc on any sequence of packets, each with all the rules
-- that it matched.
use netmate_flowcalc.Common.{
  ℕ, zero, suc, ◌+◌, ◌≤◌, ◌<◌, ◌≡◌, ◌⊎◌, refl, sym, ap, ◌∙◌, Bool, true, List, [], ◌∷◌, Option,
  some, ◌>>=◌, arith, length, is_empty, get_elem?, set, get_elem?-set_self, get_elem?-set_ne,
  Option-cases, eq_or_ne, inl, inr, some_inj, Returns, subst,
}
use netmate_flowcalc.ProcModule.{Packet}
use netmate_flowcalc.PacketProcessor.{RuleActions}
use netmate_flowcalc.PacketProcessor.Dispatch.{
  PacketProcessor, process_rule, process_match, process_matches, process_packet,
}
use netmate_flowcalc.PacketProcessor.Key.{Filter, flow_keys_of}
use netmate_flowcalc.PacketProcessor.Key.Size.{AreShort, AreInside, flow_keys_of-fits}
use netmate_flowcalc.PacketProcessor.Running.{
  IsRunning, IsSamePacket, HasKeys, fewer, process_rule-Returns,
}

-- The attributes that the filters name do not start before any of the packets.
abbrev pub AllInside : List Packet → List Filter → Type 0
AllInside [] fs = Unit {0}
AllInside (pkt ∷ pkts) fs = AreInside pkt.meta.offs fs × AllInside pkts fs

-- The rules that the packets matched are among `n` rules.
abbrev pub AllMatched : ℕ → List Packet → Type 0
AllMatched n [] = Unit {0}
AllMatched n (pkt ∷ pkts) =
    ((j : ℕ) → j < pkt.meta.match_cnt → pkt.meta.matches j < n) × AllMatched n pkts

-- How many rules the packets matched together.
abbrev pub all_matches : List Packet → ℕ
all_matches [] = 0
all_matches (pkt ∷ pkts) = pkt.meta.match_cnt + all_matches pkts

module _ {S : Type 0} where
  -- A deleted rule, or one with flows whose tables are valid, which has `k` flow ids left and at most
  -- 28 filters of at most 32 bytes each.
  abbrev pub CanTake : ℕ → List Packet → RuleActions S → Type 0
  CanTake k pkts ra =
      (is_empty ra.actions ≡ true)
      ⊎ (IsRunning k ra × AreShort ra.flist × (length ra.flist ≤ 28) × AllInside pkts ra.flist)

  abbrev pub AllCanTake : ℕ → List Packet → List (RuleActions S) → Type 0
  AllCanTake k pkts rules =
      (i : ℕ) (ra : RuleActions S) → get_elem? rules i ≡ some ra → CanTake k pkts ra

  keys_there :
      (pkt : Packet) (ra : RuleActions S)
      → AreShort ra.flist
      → length ra.flist ≤ 28
      → AreInside pkt.meta.offs ra.flist
      → HasKeys pkt ra
  keys_there pkt ra s n t =
      let ok = flow_keys_of-fits pkt.meta ra.bidir ra.seppaths ra.flist s n t in
      elim (Option-cases (flow_keys_of pkt.meta ra.bidir ra.seppaths ra.flist)) [
        | inl e ↦ absurd (rw e at ok)
        | inr (keys, e) ↦ rw e tt
      ]

  rule-CanTake :
      (expt : Bool) (rule_id : ℕ) (pkt : Packet) (pkts : List Packet) (k : ℕ) (ra : RuleActions S)
      → CanTake (suc k) (pkt ∷ pkts) ra
      → Returns
          (process_rule expt rule_id pkt ra)
          (λ (ra', pkt', out). CanTake k (pkt' ∷ pkts) ra' × IsSamePacket pkt pkt')
  unfolding process_rule
  rule-CanTake expt rule_id pkt pkts k ra (inl e) = rw e (inl e, (refl, refl))
  rule-CanTake expt rule_id pkt pkts k ra (inr (h, s, n, (t, ts))) =
      let ok = process_rule-Returns expt rule_id pkt k ra h (keys_there pkt ra s n t) in
      elim (Option-cases (process_rule expt rule_id pkt ra)) [
        | inl e ↦ absurd (rw e at ok)
        | inr ((ra', pkt', out), e) ↦
            let (r, same, kept) = (rw e at ok) in
            rw e (
              inr (
                r,
                subst AreShort (sym same.flist) s,
                subst (λ fs. length fs ≤ 28) (sym same.flist) n,
                subst (λ fs. AreInside pkt'.meta.offs fs × AllInside pkts fs) (sym same.flist)
                    (subst (λ o. AreInside o ra.flist) (sym kept.0) t, ts),
              ),
              kept,
            )
      ]

  found_at :
      (rules : List (RuleActions S)) (i : ℕ)
      → i < length rules
      → (ra : RuleActions S) × (get_elem? rules i ≡ some ra)
  found_at [] i h = absurd (omega arith)
  found_at (r ∷ rules) zero h = (r, refl)
  found_at (r ∷ rules) (suc i) h = found_at rules i (omega arith)

  length-set :
      (rules : List (RuleActions S)) (i : ℕ) (ra : RuleActions S)
      → length (set rules i ra) ≡ length rules
  length-set [] i ra = refl
  length-set (r ∷ rules) zero ra = refl
  length-set (r ∷ rules) (suc i) ra = ap suc (length-set rules i ra)

  fewer-CanTake :
      (k : ℕ) (pkt pkt' : Packet) (pkts : List Packet) (ra : RuleActions S)
      → IsSamePacket pkt pkt'
      → CanTake (suc k) (pkt ∷ pkts) ra
      → CanTake k (pkt' ∷ pkts) ra
  fewer-CanTake k pkt pkt' pkts ra same (inl e) = inl e
  fewer-CanTake k pkt pkt' pkts ra same (inr (h, s, n, (t, ts))) = inr (
    fewer k (suc k) ra (omega arith) h,
    s,
    n,
    (subst (λ o. AreInside o ra.flist) (sym same.0) t, ts),
  )

  set-AllCanTake :
      (k i : ℕ) (pkt pkt' : Packet) (pkts : List Packet) (rules : List (RuleActions S))
      (ra' : RuleActions S)
      → i < length rules
      → IsSamePacket pkt pkt'
      → AllCanTake (suc k) (pkt ∷ pkts) rules
      → CanTake k (pkt' ∷ pkts) ra'
      → AllCanTake k (pkt' ∷ pkts) (set rules i ra')
  set-AllCanTake k i pkt pkt' pkts rules ra' l same h c j ra e = elim (eq_or_ne i j) [
    | inl q ↦
        let there = get_elem?-set_self rules i ra' l in
        subst (CanTake k (pkt' ∷ pkts))
          (some_inj (sym there ∙ ap (get_elem? (set rules i ra')) q ∙ e)) c
    | inr q ↦
        fewer-CanTake k pkt pkt' pkts ra same (h j ra (sym (get_elem?-set_ne rules ra' q) ∙ e))
  ]

  match-AllCanTake :
      (i : ℕ) (pkt : Packet) (pkts : List Packet) (k : ℕ) (pp : PacketProcessor S)
      → i < length pp.rules
      → AllCanTake (suc k) (pkt ∷ pkts) pp.rules
      → Returns (process_match i (pkt, pp)) (λ (pkt', pp').
        AllCanTake k (pkt' ∷ pkts) pp'.rules
        × (length pp'.rules ≡ length pp.rules)
        × IsSamePacket pkt pkt')
  unfolding process_match
  match-AllCanTake i pkt pkts k pp l h =
      let (ra, there) = found_at pp.rules i l in
      let ok = rule-CanTake pp.expt i pkt pkts k ra (h i ra there) in
      elim (Option-cases (process_rule pp.expt i pkt ra)) [
        | inl e ↦ absurd (rw e at ok)
        | inr ((ra', pkt', out), e) ↦
            let (c, same) = (rw e at ok) in
            rw (there, e)
              (
                set-AllCanTake k i pkt pkt' pkts pp.rules ra' l same h c,
                length-set pp.rules i ra',
                same,
              )
      ]

  matches-AllCanTake :
      (i n : ℕ) (pkt : Packet) (pkts : List Packet) (k : ℕ) (pp : PacketProcessor S)
      → ((j : ℕ) → j < n → pkt.meta.matches (i + j) < length pp.rules)
      → AllCanTake (n + k) (pkt ∷ pkts) pp.rules
      → Returns (process_matches i n (pkt, pp)) (λ (pkt', pp').
        AllCanTake k (pkt' ∷ pkts) pp'.rules × (length pp'.rules ≡ length pp.rules))
  unfolding process_matches
  matches-AllCanTake i zero pkt pkts k pp b h =
      let none_used : 0 + k ≡ k = omega arith in
      (subst (λ n. AllCanTake n (pkt ∷ pkts) pp.rules) none_used h, refl)
  matches-AllCanTake i (suc n) pkt pkts k pp b h =
      let at : i + 0 ≡ i = omega arith in
      let first : pkt.meta.matches i < length pp.rules =
        subst (λ x. pkt.meta.matches x < length pp.rules) at (b 0 (omega arith)) in
      let one_used : suc n + k ≡ suc (n + k) = omega arith in
      let enough = subst (λ x. AllCanTake x (pkt ∷ pkts) pp.rules) one_used h in
      let ok = match-AllCanTake (pkt.meta.matches i) pkt pkts (n + k) pp first enough in
      elim (Option-cases (process_match (pkt.meta.matches i) (pkt, pp))) [
        | inl e ↦ absurd (rw e at ok)
        | inr ((pkt₁, pp₁), e) ↦
            let (h₁, l₁, same) = (rw e at ok) in
            let bounds : (j : ℕ) → j < n → pkt₁.meta.matches (i + 1 + j) < length pp₁.rules = λ j u.
              let next : i + 1 + j ≡ i + suc j = omega arith in
              rw (l₁, same.1, next) (b (suc j) (omega arith)) in
            let later = matches-AllCanTake (i + 1) n pkt₁ pkts k pp₁ bounds h₁ in
            elim (Option-cases (process_matches (i + 1) n (pkt₁, pp₁))) [
              | inl d ↦ absurd (rw d at later)
              | inr ((pkt₂, pp₂), d) ↦ let (h₂, l₂) = (rw d at later) in rw (e, d) (h₂, l₂ ∙ l₁)
            ]
      ]

  -- The packets one after the other.
  pub process_packets : List Packet → PacketProcessor S → Option (PacketProcessor S)
  process_packets [] pp = some pp
  process_packets (pkt ∷ pkts) pp = do (pkt', pp') ← process_packet pkt pp; process_packets pkts pp'

  left-AllCanTake :
      (k : ℕ) (pkt : Packet) (pkts : List Packet) (rules : List (RuleActions S))
      → AllCanTake k (pkt ∷ pkts) rules
      → AllCanTake k pkts rules
  left-AllCanTake k pkt pkts rules h i ra e = elim (h i ra e) [
    | inl empty ↦ inl empty
    | inr (r, s, n, t) ↦ inr (r, s, n, t.1)
  ]

  -- Let each rule of the processor be a deleted one or a rule with flows whose tables are valid, with
  -- at most 28 filters of at most 32 bytes each, and let no plain rule be among them. Let the packets
  -- match rules of the table and let the attributes that the filters name not start before the
  -- packet. Then `processPacket` takes all packets, as long as the flow ids do not wrap: both keys
  -- fit their buffers, and no pointer to freed flow data is followed, whatever the modules do and
  -- whenever they ask for an export. Afterwards each rule is again a deleted one or has valid tables:
  -- each flow stands at its own key with an id of its own and live data for every module.
  pub process_packets-Returns :
      (k : ℕ) (pkts : List Packet) (pp : PacketProcessor S)
      → AllCanTake (all_matches pkts + k) pkts pp.rules
      → AllMatched (length pp.rules) pkts
      → Returns (process_packets pkts pp) (λ pp'. AllCanTake k [] pp'.rules)
  unfolding process_packets process_packet
  process_packets-Returns k [] pp h b =
      let none_used : 0 + k ≡ k = omega arith in subst (λ n. AllCanTake n [] pp.rules) none_used h
  process_packets-Returns k (pkt ∷ pkts) pp h (b, bs) =
      let same : pkt.meta.match_cnt + all_matches pkts + k
          ≡ pkt.meta.match_cnt + (all_matches pkts + k) =
        omega arith in
      let enough = subst (λ n. AllCanTake n (pkt ∷ pkts) pp.rules) same h in
      let ok =
        matches-AllCanTake 0 pkt.meta.match_cnt pkt pkts (all_matches pkts + k) pp
          (λ j u.
            let at : 0 + j ≡ j = omega arith in
            subst (λ x. pkt.meta.matches x < length pp.rules) (sym at) (b j u))
          enough in
      elim (Option-cases (process_matches 0 pkt.meta.match_cnt (pkt, pp))) [
        | inl e ↦ absurd (rw e at ok)
        | inr ((pkt', pp'), e) ↦
            let (h', l) = (rw e at ok) in
            let left = left-AllCanTake (all_matches pkts + k) pkt' pkts pp'.rules h' in
            rw e
              (process_packets-Returns k pkts pp' left (subst (λ n. AllMatched n pkts) (sym l) bs))
      ]
