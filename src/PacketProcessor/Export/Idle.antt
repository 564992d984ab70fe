-- ===== src/PacketProcessor/Export/Idle.antt =====
-- The steps of an export at a time `now`.
use netmate_flowcalc.Common.{
  ℕ, suc, ◌≡◌, refl, sym, ap, ◌∙◌, Bool, true, List, [], ◌∷◌, ltb, take, length, arith,
  Option-cases, inl, inr, Returns,
}
use netmate_flowcalc.IdSource.{free_id}
use netmate_flowcalc.Common.Maps.{erase}
use netmate_flowcalc.MetricData.{MetricData}
use netmate_flowcalc.ProcModule.{PpAction}
use netmate_flowcalc.FlowCreator.{FlowInfo, FlowCreator, flow_keys, delete_at, delete_flow}
use netmate_flowcalc.FlowCreator.Lookup.{free_id_unique}
use netmate_flowcalc.PacketProcessor.Flows.{AllLive, IsReady}
use netmate_flowcalc.PacketProcessor.Export.{
  is_past, is_due, export_actions, export_flow, make_metrics,
}

module _ {S : Type 0} where
  pub export_actions-Returns :
      (ending : Bool) (key : List ℕ) (new_flow flow_id : ℕ) (acts : List (PpAction S))
      (md : List MetricData)
      → AllLive acts
      → length md ≡ length acts
      → Returns
          (export_actions ending key new_flow flow_id acts md)
          (λ (acts', md'). length md' ≡ length md)
  unfolding export_actions
  export_actions-Returns ending key new_flow flow_id [] md h l = refl
  export_actions-Returns ending key new_flow flow_id (a ∷ acts) [] h l = ground arith
  export_actions-Returns ending key new_flow flow_id (a ∷ acts) (m ∷ md) (h, hs) l =
      let ih = export_actions-Returns ending key 0 flow_id acts md hs (omega (arith, l)) in
      elim (Option-cases a.flow_data) [
        | inl e ↦ absurd (h e)
        | inr (s, e) ↦ elim (Option-cases (export_actions ending key 0 flow_id acts md)) [
          | inl d ↦ absurd (rw d at ih)
          | inr (r, d) ↦ rw (e, d) (ap suc (rw d at ih))
        ]
      ]

  pub length-make_metrics : (acts : List (PpAction S)) → length (make_metrics acts) ≡ length acts
  unfolding make_metrics
  length-make_metrics [] = refl
  length-make_metrics (a ∷ acts) = ap suc (length-make_metrics acts)

  pub delete_at-delete_flow :
      (key : List ℕ) (f : FlowInfo S) (fc : FlowCreator S)
      → f.key_data ≡ key
      → delete_flow f fc ≡ delete_at key f fc
  unfolding delete_at delete_flow
  delete_at-delete_flow key f fc h =
      ap
        (λ k. record {
          id_source = free_id fc.id_source f.flow_id;
          flows = erase flow_keys k fc.flows;
        })
        h

  pub delete_at_num :
      (key : List ℕ) (f : FlowInfo S) (fc : FlowCreator S)
      → fc.id_source.unique ≡ 1
      → (delete_at key f fc).id_source.num ≡ fc.id_source.num
  unfolding delete_at
  delete_at_num key f fc u = ap (λ s. s.num) (free_id_unique fc.id_source f.flow_id u)

  module _ (now ival key_len n : ℕ) (positive : ltb 0 now ≡ true) where
    -- A flow that is due is deleted, and every module's metric data has gone on.
    pub export_flow-Returns :
        (key : List ℕ) (f : FlowInfo S) (fc : FlowCreator S) (md : List MetricData)
        → IsReady n f
        → length md ≡ n
        → Returns
            (export_flow now key_len key f (fc, md))
            (λ (fc', md'). (fc' ≡ delete_at key f fc) × (length md' ≡ n))
    unfolding export_flow delete_at
    export_flow-Returns key f fc md r l =
        let k = take key_len f.key_data in
        let ok =
          export_actions-Returns (ltb 0 now) k f.new_flow f.flow_id f.actions md r.live
            (l ∙ sym r.as_many) in
        elim (Option-cases (export_actions (ltb 0 now) k f.new_flow f.flow_id f.actions md)) [
          | inl e ↦ absurd (rw e at ok)
          | inr ((acts, md'), e) ↦ let m = (rw e at ok) in rw (e, positive) (refl, m ∙ l)
        ]

    pub due_past : (f : FlowInfo S) → is_due now ival f ≡ is_past f.last_pkt ival now
    unfolding is_due
    due_past f = ground (arith, positive)
