-- ===== src/PacketProcessor/Export/Metrics.antt =====
-- The metric data that `exportRule` of src/netmate/PacketProcessor.cc collects, module by module.
use netmate_flowcalc.Common.{
  ℕ, zero, suc, ◌<◌, ◌≡◌, refl, sym, ap, ◌∙◌, Bool, true, false, List, [], ◌∷◌, Option, none, some,
  ◌==◌, ltb, ◌||◌, if◌then◌else◌, take, length, get_elem?, arith, Bool-cases, Option-cases, inl, inr,
  some_inj, subst, lt→ltb,
}
use netmate_flowcalc.Common.Maps.{AllFound}
use netmate_flowcalc.MetricData.{MetricData, add_flow_data}
use netmate_flowcalc.ProcModule.{ProcModule, PpAction}
use netmate_flowcalc.FlowCreator.{FlowInfo, FlowCreator, flow_keys, get_flow, write_flow, delete_at}
use netmate_flowcalc.FlowCreator.Lookup.{IsValid}
use netmate_flowcalc.PacketProcessor.Flows.{IsReady}
use netmate_flowcalc.PacketProcessor.Export.{is_past, is_due, export_actions, export_flow, export_flows}
use netmate_flowcalc.PacketProcessor.Export.Idle.{export_actions-Returns}

module _ {S : Type 0} where
  abbrev added_data : List ℕ → ℕ → ℕ → ProcModule S → Option S → MetricData → MetricData
  added_data key new_flow flow_id p none m = m
  added_data key new_flow flow_id p (some s) m =
      add_flow_data (p.export_data s).0 key new_flow flow_id m

  -- What one action of a flow adds to the metric data of its module.
  abbrev added : List ℕ → ℕ → ℕ → Option (PpAction S) → MetricData → MetricData
  added key new_flow flow_id none m = m
  added key new_flow flow_id (some a) m =
      added_data key new_flow flow_id a.module_of a.flow_data m

  -- What the flows that are idle at `now` add to the metric data of module `j`, one after the other:
  -- the export of their flow data, with the flow's key and id. Only the first module is told whether
  -- the flow is new.
  abbrev pub data_of :
      ℕ → ℕ → ℕ → ℕ → List (List ℕ × FlowInfo S) → MetricData → MetricData
  data_of now ival key_len j [] m = m
  data_of now ival key_len j ((key, f) ∷ es) m =
      data_of now ival key_len j es
        (if is_past f.last_pkt ival now
        then added (take key_len f.key_data) (if j == 0 then f.new_flow else 0) f.flow_id
          (get_elem? f.actions j) m
        else m)

  actions_step :
      (ending : Bool) (key : List ℕ) (new_flow flow_id : ℕ) (a : PpAction S)
      (acts acts' : List (PpAction S)) (m₀ : MetricData) (md md' : List MetricData)
      → export_actions ending key new_flow flow_id (a ∷ acts) (m₀ ∷ md) ≡ some (acts', md')
      → (s : S) × (acts₁ : List (PpAction S)) × (md₁ : List MetricData)
        × (a.flow_data ≡ some s)
        × (export_actions ending key 0 flow_id acts md ≡ some (acts₁, md₁))
        × (md' ≡ add_flow_data (a.module_of.export_data s).0 key new_flow flow_id m₀ ∷ md₁)
  unfolding export_actions
  actions_step ending key new_flow flow_id a acts acts' m₀ md md' e =
      elim (Option-cases a.flow_data) [
        | inl x ↦ cc (rw x at e)
        | inr (s, x) ↦ elim (Option-cases (export_actions ending key 0 flow_id acts md)) [
          | inl d ↦ cc (rw (x, d) at e)
          | inr ((acts₁, md₁), d) ↦
              (s, acts₁, md₁, x, d, sym (ap (λ t. t.1) (some_inj (rw (x, d) at e))))
        ]
      ]

  actions_at :
      (ending : Bool) (key : List ℕ) (new_flow flow_id j : ℕ) (acts acts' : List (PpAction S))
      (md md' : List MetricData) (m : MetricData)
      → length md ≡ length acts
      → export_actions ending key new_flow flow_id acts md ≡ some (acts', md')
      → get_elem? md j ≡ some m
      → get_elem? md' j
        ≡ some (added key (if j == 0 then new_flow else 0) flow_id (get_elem? acts j) m)
  actions_at ending key new_flow flow_id j acts acts' [] md' m l e h = cc h
  actions_at ending key new_flow flow_id j [] acts' (m₀ ∷ md) md' m l e h = absurd (omega (arith, l))
  actions_at ending key new_flow flow_id zero (a ∷ acts) acts' (m₀ ∷ md) md' m l e h =
      let (s, acts₁, md₁, x, d, same) =
        actions_step ending key new_flow flow_id a acts acts' m₀ md md' e in
      let front = ap (λ t. get_elem? t 0) same in
      simp x
        (front
          ∙ ap (λ t. some (add_flow_data (a.module_of.export_data s).0 key new_flow flow_id t))
            (some_inj h))
  actions_at ending key new_flow flow_id (suc j) (a ∷ acts) acts' (m₀ ∷ md) md' m l e h =
      let (s, acts₁, md₁, x, d, same) =
        actions_step ending key new_flow flow_id a acts acts' m₀ md md' e in
      let later =
        actions_at ending key 0 flow_id j acts acts₁ md md₁ m (omega (arith, l)) d h in
      let old : ◌≡◌ {A = ℕ} (if j == 0 then 0 else 0) 0 = ground arith in
      let differ : (suc j == 0) ≡ false = ground arith in
      rw differ (ap (λ t. get_elem? t (suc j)) same ∙ (rw old at later))

  -- Each flow has flow data for `n` modules.
  abbrev pub AllReady : ℕ → List (List ℕ × FlowInfo S) → Type 0
  AllReady n [] = Unit {0}
  AllReady n ((k, f) ∷ es) = IsReady n f × AllReady n es

  flow_at :
      (now ival key_len n j : ℕ) (key : List ℕ) (f : FlowInfo S) (fc fc' : FlowCreator S)
      (md md' : List MetricData) (m : MetricData)
      → IsReady n f
      → length md ≡ n
      → export_flow now key_len key f (fc, md) ≡ some (fc', md')
      → get_elem? md j ≡ some m
      → (get_elem? md' j
          ≡ some (
            added (take key_len f.key_data) (if j == 0 then f.new_flow else 0) f.flow_id
              (get_elem? f.actions j) m))
        × (length md' ≡ n)
  unfolding export_flow
  flow_at now ival key_len n j key f fc fc' md md' m r l e h =
      let kd = take key_len f.key_data in
      let many : length md ≡ length f.actions = l ∙ sym r.as_many in
      let ok =
        export_actions-Returns (ltb 0 now) kd f.new_flow f.flow_id f.actions md r.live many in
      elim (Option-cases (export_actions (ltb 0 now) kd f.new_flow f.flow_id f.actions md)) [
        | inl d ↦ absurd (rw d at ok)
        | inr ((acts, md₁), d) ↦
            let same : md₁ ≡ md' = ap (λ t. t.1) (some_inj (rw d at e)) in
            let at =
              actions_at (ltb 0 now) kd f.new_flow f.flow_id j f.actions acts md md₁ m many d h in
            (ap (λ t. get_elem? t j) (sym same) ∙ at, ap length (sym same) ∙ (rw d at ok) ∙ l)
      ]

  pub flows_at :
      (now ival key_len n j : ℕ) (es : List (List ℕ × FlowInfo S)) (fc fc' : FlowCreator S)
      (md md' : List MetricData) (m : MetricData)
      → 0 < now
      → AllReady n es
      → length md ≡ n
      → export_flows now ival key_len es (fc, md) ≡ some (fc', md')
      → get_elem? md j ≡ some m
      → get_elem? md' j ≡ some (data_of now ival key_len j es m)
  unfolding export_flows is_due
  flows_at now ival key_len n j [] fc fc' md md' m p r l e h =
      ap (λ t. get_elem? t.1 j) (sym (some_inj e)) ∙ h
  flows_at now ival key_len n j ((key, f) ∷ es) fc fc' md md' m p (r, rs) l e h =
      let later : (now == 0) ≡ false = ground arith in
      elim (Bool-cases (is_past f.last_pkt ival now)) [
        | inr q ↦ simp q (flows_at now ival key_len n j es fc fc' md md' m p rs l (simp (later, q) at e) h)
        | inl q ↦ elim (Option-cases (export_flow now key_len key f (fc, md))) [
          | inl d ↦ cc (simp (later, q, d) at e)
          | inr ((fc₁, md₁), d) ↦
              let (at, l₁) = flow_at now ival key_len n j key f fc fc₁ md md₁ m r l d h in
              simp q
                (flows_at now ival key_len n j es fc₁ fc' md₁ md' _ p rs l₁
                  (simp (later, q, d) at e) at)
        ]
      ]

  pub entries-AllReady :
      (n : ℕ) (fc : FlowCreator S) (es : List (List ℕ × FlowInfo S))
      → IsValid (IsReady n) fc
      → AllFound flow_keys fc.flows es
      → AllReady n es
  unfolding get_flow
  entries-AllReady n fc [] v h = tt
  entries-AllReady n fc ((k, f) ∷ es) v (h, hs) =
      (v.holds k f h, entries-AllReady n fc es v hs)
