-- ===== src/PacketProcessor/Export/Sweep.antt =====
-- An export at a time `now` takes the flows that are idle, and no others.
use netmate_flowcalc.Common.{
  ℕ, ◌≡◌, ◌≢◌, refl, sym, ap, ◌∙◌, true, false, List, [], ◌∷◌, none, some, ltb, length, Bool-cases,
  Option-cases, inl, inr, some_inj, Returns, subst,
}
use netmate_flowcalc.Common.Maps.{AllFound}
use netmate_flowcalc.MetricData.{MetricData}
use netmate_flowcalc.FlowCreator.{
  FlowInfo, FlowCreator, flow_keys, get_flow, delete_at, delete_flow,
}
use netmate_flowcalc.FlowCreator.Lookup.{
  IsValid, delete_flow-IsValid, get_flow-delete_flow, get_flow-delete_flow_other, key_cases,
}
use netmate_flowcalc.PacketProcessor.Flows.{IsReady}
use netmate_flowcalc.PacketProcessor.Export.{is_past, export_flow, export_flows}
use netmate_flowcalc.PacketProcessor.Export.Idle.{
  export_flow-Returns, due_past, delete_at-delete_flow, delete_at_num,
}

module _ {S : Type 0} where
  module _ (now ival key_len n : ℕ) (positive : ltb 0 now ≡ true) where
    module _ (fc₀ : FlowCreator S) (v₀ : IsValid (IsReady n) fc₀) where
      abbrev pub AllGone : List (List ℕ × FlowInfo S) → FlowCreator S → Type 0
      AllGone [] fc = Unit {0}
      AllGone ((k, f) ∷ es) fc =
          (is_past f.last_pkt ival now ≡ true → get_flow k fc ≡ none) × AllGone es fc

      -- How the loop over the entries `es` leaves the table.
      pub record IsSwept (es : List (List ℕ × FlowInfo S)) (fc fc' : FlowCreator S) : Type 0 where
        pub valid : IsValid (IsReady n) fc'
        pub kept : (k : List ℕ) (f : FlowInfo S) → get_flow k fc' ≡ some f → get_flow k fc ≡ some f
        pub spared :
            (k : List ℕ) (f : FlowInfo S)
            → get_flow k fc ≡ some f
            → is_past f.last_pkt ival now ≡ false
            → get_flow k fc' ≡ some f
        pub gone : AllGone es fc'
        pub num : fc'.id_source.num ≡ fc.id_source.num

      -- The state of the loop: a valid table with no flow that the first one had not.
      pub record IsAt (fc : FlowCreator S) : Type 0 where
        pub valid : IsValid (IsReady n) fc
        pub of_first :
            (k : List ℕ) (f : FlowInfo S) → get_flow k fc ≡ some f → get_flow k fc₀ ≡ some f

      module _ (key : List ℕ) (g : FlowInfo S) (fc : FlowCreator S) (at : IsAt fc)
          (found : get_flow key fc₀ ≡ some g) where
        same_delete : delete_flow g fc ≡ delete_at key g fc
        same_delete = delete_at-delete_flow key g fc (v₀.key_of key g found)

        deleted_self : get_flow key (delete_at key g fc) ≡ none
        deleted_self =
            subst (λ k. get_flow k (delete_at key g fc) ≡ none) (v₀.key_of key g found)
              (subst (λ t. get_flow g.key_data t ≡ none) same_delete (get_flow-delete_flow g fc))

        deleted_other : (k : List ℕ) → key ≢ k → get_flow k (delete_at key g fc) ≡ get_flow k fc
        deleted_other k d =
            subst (λ t. get_flow k t ≡ get_flow k fc) same_delete
              (get_flow-delete_flow_other k g fc (λ q. d (sym (v₀.key_of key g found) ∙ q)))

        deleted_kept :
            (k : List ℕ) (f : FlowInfo S)
            → get_flow k (delete_at key g fc) ≡ some f
            → get_flow k fc ≡ some f
        deleted_kept k f h = elim (key_cases key k) [
          | inl e ↦ let gone = deleted_self in cc (gone, e, h)
          | inr d ↦ sym (deleted_other k d) ∙ h
        ]

        deleted-IsAt : IsAt (delete_at key g fc)
        deleted-IsAt = record {
          valid =
              subst (IsValid (IsReady n)) same_delete
                (delete_flow-IsValid (IsReady n) fc at.valid g);
          of_first = λ k f h. at.of_first k f (deleted_kept k f h);
        }

      -- The loop starts at an entry that is idle, or at one that is not.
      IsSwept-past :
          (key : List ℕ) (g : FlowInfo S) (es : List (List ℕ × FlowInfo S)) (fc fc' : FlowCreator S)
          → IsAt fc
          → get_flow key fc₀ ≡ some g
          → is_past g.last_pkt ival now ≡ true
          → IsSwept es (delete_at key g fc) fc'
          → IsSwept ((key, g) ∷ es) fc fc'
      IsSwept-past key g es fc fc' at found past s = record {
        valid = s.valid;
        kept = λ k f h. deleted_kept key g fc at found k f (s.kept k f h);
        spared = λ k f h not_past. elim (key_cases key k) [
          | inl e ↦
              let first = at.of_first k f h in
              let same : g ≡ f = some_inj (sym found ∙ ap (λ t. get_flow t fc₀) e ∙ first) in
              cc (same, past, not_past)
          | inr d ↦ s.spared k f (deleted_other key g fc at found k d ∙ h) not_past
        ];
        gone = (
          λ p. elim (Option-cases (get_flow key fc')) [
            | inl e ↦ e
            | inr (f, e) ↦
                let was = s.kept key f e in
                let gone = deleted_self key g fc at found in cc (was, gone)
          ],
          s.gone,
        );
        num = s.num ∙ delete_at_num key g fc at.valid.unique;
      }

      IsSwept-spared :
          (key : List ℕ) (g : FlowInfo S) (es : List (List ℕ × FlowInfo S)) (fc fc' : FlowCreator S)
          → is_past g.last_pkt ival now ≡ false
          → IsSwept es fc fc'
          → IsSwept ((key, g) ∷ es) fc fc'
      IsSwept-spared key g es fc fc' not_past s = record {
        valid = s.valid;
        kept = s.kept;
        spared = s.spared;
        gone = ((λ p. cc (p, not_past)), s.gone);
        num = s.num;
      }

      pub sweep :
          (es : List (List ℕ × FlowInfo S)) (fc : FlowCreator S) (md : List MetricData)
          → AllFound flow_keys fc₀.flows es
          → IsAt fc
          → length md ≡ n
          → Returns
              (export_flows now ival key_len es (fc, md))
              (λ (fc', md'). IsSwept es fc fc' × (length md' ≡ n))
      unfolding export_flows get_flow
      sweep [] fc md found at l = (
        record {
          valid = at.valid;
          kept = λ k f h. h;
          spared = λ k f h p. h;
          gone = tt;
          num = refl;
        },
        l,
      )
      sweep ((key, g) ∷ es) fc md (found, rest) at l =
          elim (Bool-cases (is_past g.last_pkt ival now)) [
            | inr p ↦
                let ih = sweep es fc md rest at l in
                elim (Option-cases (export_flows now ival key_len es (fc, md))) [
                  | inl e ↦ absurd (rw e at ih)
                  | inr (r, e) ↦
                      let (s, m) = (rw e at ih) in
                      simp (due_past now ival key_len n positive g, p, e)
                        (IsSwept-spared key g es fc r.0 p s, m)
                ]
            | inl p ↦
                let ok =
                  export_flow-Returns now ival key_len n positive key g fc md (v₀.holds key g found)
                    l in
                elim (Option-cases (export_flow now key_len key g (fc, md))) [
                  | inl e ↦ absurd (rw e at ok)
                  | inr ((fc₁, md₁), e) ↦
                      let (q, l₁) = (rw e at ok) in
                      let at₁ = subst IsAt (sym q) (deleted-IsAt key g fc at found) in
                      let ih = sweep es fc₁ md₁ rest at₁ l₁ in
                      elim (Option-cases (export_flows now ival key_len es (fc₁, md₁))) [
                        | inl d ↦ absurd (rw d at ih)
                        | inr (r, d) ↦
                            let (s, m) = (rw d at ih) in
                            simp (due_past now ival key_len n positive g, p, e, d)
                              (
                                IsSwept-past key g es fc r.0 at found p
                                    (subst (λ t. IsSwept es t r.0) q s),
                                m,
                              )
                      ]
                ]
          ]
