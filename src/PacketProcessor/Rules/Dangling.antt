-- ===== src/PacketProcessor/Rules/Dangling.antt =====
-- What becomes of a rule without flows when one of its modules asks for an export.
use netmate_flowcalc.Common.{
  ℕ, ◌≡◌, ◌≢◌, refl, sym, ap, ◌∙◌, Bool, true, false, List, [], ◌∷◌, none, some, if◌then◌else◌,
  Bool-cases, Option-cases, inl, inr, some_inj, subst,
}
use netmate_flowcalc.ProcModule.{Packet, PpAction}
use netmate_flowcalc.PacketProcessor.{RuleActions, Rule}
use netmate_flowcalc.PacketProcessor.Process.{
  Stored, Label, Outcome, run_actions, run_action, is_one,
}
use netmate_flowcalc.PacketProcessor.Dispatch.{process_plain, plain_label}

reset_later : (r s : Bool) → (if r then true else s) ≡ true → r ≡ false → s ≡ true
reset_later true s h q = cc q
reset_later false s h q = h

module _ {S : Type 0} where
  run_action_dangling :
      (expt : Bool) (uid : ℕ) (rule : Rule) (l l' : Label) (pkt pkt' : Packet) (a a' : PpAction S)
      (out : List Stored)
      → run_action expt uid rule l pkt a ≡ some (a', out, true)
      → run_action expt uid rule l' pkt' a' ≡ none
  unfolding run_action
  run_action_dangling expt uid rule l l' pkt pkt' a a' out e = elim (Option-cases a.flow_data) [
    | inl d ↦ cc (rw d at e)
    | inr (s, d) ↦ elim (Bool-cases (is_one (a.module_of.process_packet pkt s).0)) [
      | inr g ↦ cc (ap (λ t. t.2) (some_inj (rw (d, g) at e)))
      | inl g ↦
          let gone : none ≡ a'.flow_data = ap (λ t. t.0.flow_data) (some_inj (rw (d, g) at e)) in
          rw (← gone)
    ]
  ]

  rest_dangling :
      (expt : Bool) (uid : ℕ) (rule : Rule) (l' : Label) (pkt' : Packet) (a' : PpAction S)
      (reset : Bool) (acts : List (PpAction S))
      → (reset ≡ true → run_action expt uid rule l' pkt' a' ≡ none)
      → (reset ≡ false → run_actions expt uid rule l' pkt' acts ≡ none)
      → run_actions expt uid rule l' pkt' (a' ∷ acts) ≡ none
  unfolding run_actions
  rest_dangling expt uid rule l' pkt' a' true acts h g = rw (h refl)
  rest_dangling expt uid rule l' pkt' a' false acts h g =
      elim (Option-cases (run_action expt uid rule l' pkt' a')) [
        | inl d ↦ rw d
        | inr (r, d) ↦ rw (d, g refl)
      ]

  -- After a module asked for an export its flow data is gone, so the next run over the modules
  -- follows a freed pointer.
  run_actions_dangling :
      (expt : Bool) (uid : ℕ) (rule : Rule) (l l' : Label) (pkt pkt' : Packet)
      (acts : List (PpAction S)) (o : Outcome S)
      → run_actions expt uid rule l pkt acts ≡ some o
      → o.reset ≡ true
      → run_actions expt uid rule l' pkt' o.actions ≡ none
  unfolding run_actions
  run_actions_dangling expt uid rule l l' pkt pkt' [] o e h = cc (ap (λ t. t.reset) (some_inj e), h)
  run_actions_dangling expt uid rule l l' pkt pkt' (a ∷ acts) o e h =
      elim (Option-cases (run_action expt uid rule l pkt a)) [
        | inl d ↦ cc (rw d at e)
        | inr ((a', out, reset), d) ↦ elim (Option-cases (run_actions expt uid rule l pkt acts)) [
          | inl g ↦ cc (rw (d, g) at e)
          | inr (o₁, g) ↦
              let same = some_inj (rw (d, g) at e) in
              subst (λ t. run_actions expt uid rule l' pkt' t.actions ≡ none) same
                (rest_dangling expt uid rule l' pkt' a' reset o₁.actions
                  (λ q. run_action_dangling expt uid rule l l' pkt pkt' a a' out (rw q at d))
                  (λ q.
                    run_actions_dangling expt uid rule l l' pkt pkt' acts o₁ g
                      (reset_later reset o₁.reset (ap (λ t. t.reset) same ∙ h) q)))
        ]
      ]

  plain_reset :
      (expt : Bool) (uid : ℕ) (pkt : Packet) (ra ra' : RuleActions S) (out : List Stored)
      → process_plain expt uid pkt ra ≡ some (ra', out)
      → ra.new_flow ≢ 0
      → ra'.new_flow ≡ 0
      → ((o : Outcome S) × (run_actions expt uid ra.rule plain_label pkt ra.actions ≡ some o)
          × (o.reset ≡ true)
          × (ra'.actions ≡ o.actions)
          × (ra'.rule ≡ ra.rule))
  unfolding process_plain
  plain_reset expt uid pkt ra ra' out e h g =
      elim (Option-cases (run_actions expt uid ra.rule plain_label pkt ra.actions)) [
        | inl d ↦ cc (rw d at e)
        | inr (o, d) ↦
            let same = ap (λ t. t.0) (some_inj (rw d at e)) in
            elim (Bool-cases o.reset) [
              | inl r ↦ (o, d, r, ap (λ t. t.actions) (sym same), ap (λ t. t.rule) (sym same))
              | inr r ↦
                  let kept : (if o.reset then 0 else ra.new_flow) ≡ ra'.new_flow =
                    ap (λ t. t.new_flow) same in
                  absurd (h ((rw r at kept) ∙ g))
            ]
      ]

  -- Let a rule without flows count a packet, and let one of its modules ask for an export then, so
  -- that the flag `newFlow`, set before, is 0 afterwards. Then every later run over the modules of
  -- the rule, as `processPacket` does at the next packet, follows a pointer to freed flow data.
  pub process_plain_dangles :
      (expt : Bool) (uid : ℕ) (pkt pkt' : Packet) (ra ra' : RuleActions S) (out : List Stored)
      → process_plain expt uid pkt ra ≡ some (ra', out)
      → ra.new_flow ≢ 0
      → ra'.new_flow ≡ 0
      → process_plain expt uid pkt' ra' ≡ none
  unfolding process_plain
  process_plain_dangles expt uid pkt pkt' ra ra' out e h g =
      let (o, run, reset, acts, rule) = plain_reset expt uid pkt ra ra' out e h g in
      let d =
        run_actions_dangling expt uid ra.rule plain_label plain_label pkt pkt' ra.actions o run
          reset in
      let q : run_actions expt uid ra'.rule plain_label pkt' ra'.actions ≡ none =
        rw (rule, acts) d in
      rw (process_plain, q)
