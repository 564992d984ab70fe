-- ===== src/FlowCreator/Lookup.antt =====
-- What stays true of the flows of a rule: each stands at its own key, and no two have the same id.
use netmate_flowcalc.Common.{
  ℕ, ◌+◌, ◌<◌, ◌≤◌, ◌⊎◌, ◌≡◌, refl, sym, ◌≢◌, List, [], none, some, arith, Bool-cases, inl, inr,
  ◌∙◌, ap, subst, some_inj,
}
use netmate_flowcalc.Common.Maps.{
  Distinct, assign-Distinct, insert-Distinct, erase-Distinct, find-insert_new, find-insert_other,
  find-erase_self, find-erase_other, find-assign_self, find-assign_other,
}
use netmate_flowcalc.IdSource.{RuleIdSource, new_id, free_id, make, u64_mod}
use netmate_flowcalc.FlowCreator.{
  FlowInfo, FlowCreator, flow_keys, eqkey, eqkey_eq, eqkey_refl, make_flows, get_flow, add_flow,
  new_entry, delete_flow, write_flow, existing,
}

-- Keys are the same or not.
pub key_cases : (j k : List ℕ) → (j ≡ k) ⊎ (j ≢ k)
key_cases j k = elim (Bool-cases (eqkey j k)) [
  | inl e ↦ inl (eqkey_eq j k e)
  | inr e ↦ inr (λ h. cc (eqkey_refl k))
]

module _ {S : Type 0} (P : FlowInfo S → Type 0) where
  -- `P` is what else holds of every flow.
  pub record IsValid (fc : FlowCreator S) : Type 0 where
    pub unique : fc.id_source.unique ≡ 1
    pub no_free : fc.id_source.free_ids ≡ []
    pub key_of : (k : List ℕ) (f : FlowInfo S) → get_flow k fc ≡ some f → f.key_data ≡ k
    pub id_lt :
        (k : List ℕ) (f : FlowInfo S) → get_flow k fc ≡ some f → f.flow_id < fc.id_source.num
    pub apart :
        (j k : List ℕ) (f g : FlowInfo S)
        → j ≢ k
        → get_flow j fc ≡ some f
        → get_flow k fc ≡ some g
        → f.flow_id ≢ g.flow_id
    pub distinct : Distinct flow_keys fc.flows
    pub holds : (k : List ℕ) (f : FlowInfo S) → get_flow k fc ≡ some f → P f

  pub make_flows-IsValid : IsValid make_flows
  unfolding make_flows make get_flow
  make_flows-IsValid = record {
    unique = refl;
    no_free = refl;
    key_of = λ k f h. cc;
    id_lt = λ k f h. cc;
    apart = λ j k f g n h i. cc;
    distinct = tt;
    holds = λ k f h. cc;
  }

  -- What is asked of the flow at the key that an operation changes.
  pub record IsNew (fc : FlowCreator S) (num : ℕ) (key : List ℕ) (e : FlowInfo S) : Type 0 where
    pub key_is : e.key_data ≡ key
    pub below : e.flow_id < num
    pub differs :
        (k : List ℕ) (f : FlowInfo S) → key ≢ k → get_flow k fc ≡ some f → f.flow_id ≢ e.flow_id
    pub has : P e

  module _ (fc fc' : FlowCreator S) (key : List ℕ) (v : IsValid fc)
      (unique_kept : fc'.id_source.unique ≡ 1) (free_kept : fc'.id_source.free_ids ≡ [])
      (num_grows : fc.id_source.num ≤ fc'.id_source.num)
      (distinct_kept : Distinct flow_keys fc'.flows)
      (other : (k : List ℕ) → key ≢ k → get_flow k fc' ≡ get_flow k fc)
      (self : (e : FlowInfo S) → get_flow key fc' ≡ some e → IsNew fc fc'.id_source.num key e) where
    at_key :
        (k : List ℕ) (f : FlowInfo S)
        → key ≡ k
        → get_flow k fc' ≡ some f
        → IsNew fc fc'.id_source.num k f
    at_key k f e h = subst (λ t. IsNew fc fc'.id_source.num t f) e (self f (rw e h))

    before :
        (k : List ℕ) (f : FlowInfo S) → key ≢ k → get_flow k fc' ≡ some f → get_flow k fc ≡ some f
    before k f n h = sym (other k n) ∙ h

    pub change-IsValid : IsValid fc'
    change-IsValid = record {
      unique = unique_kept;
      no_free = free_kept;
      key_of = λ k f h. elim (key_cases key k) [
        | inl e ↦ (at_key k f e h).key_is
        | inr n ↦ v.key_of k f (before k f n h)
      ];
      id_lt = λ k f h. elim (key_cases key k) [
        | inl e ↦ (at_key k f e h).below
        | inr n ↦ omega (arith, num_grows, v.id_lt k f (before k f n h))
      ];
      apart = λ j k f g n h i. elim (key_cases key j) [
        | inl e ↦ (λ q. (at_key j f e h).differs k g n (before k g (λ x. n (sym e ∙ x)) i) (sym q))
        | inr m ↦ elim (key_cases key k) [
          | inl e ↦ (at_key k g e i).differs j f (λ x. n (sym x)) (before j f m h)
          | inr l ↦ v.apart j k f g n (before j f m h) (before k g l i)
        ]
      ];
      distinct = distinct_kept;
      holds = λ k f h. elim (key_cases key k) [
        | inl e ↦ (at_key k f e h).has
        | inr n ↦ v.holds k f (before k f n h)
      ];
    }

module _ {S : Type 0} where
  write_flow-Distinct :
      (key : List ℕ) (f : FlowInfo S) (fc : FlowCreator S)
      → Distinct flow_keys fc.flows
      → Distinct flow_keys (write_flow key f fc).flows
  unfolding write_flow
  write_flow-Distinct key f fc d = assign-Distinct flow_keys (λ j k. refl) key f fc.flows d

  add_flow-Distinct :
      (key : List ℕ) (fc : FlowCreator S)
      → Distinct flow_keys fc.flows
      → Distinct flow_keys (add_flow key fc).1.flows
  unfolding add_flow
  add_flow-Distinct key fc d = insert-Distinct flow_keys (λ j k. refl) key _ fc.flows d

  delete_flow-Distinct :
      (f : FlowInfo S) (fc : FlowCreator S)
      → Distinct flow_keys fc.flows
      → Distinct flow_keys (delete_flow f fc).flows
  unfolding delete_flow
  delete_flow-Distinct f fc d = erase-Distinct flow_keys f.key_data fc.flows d

  pub add_flow_is_new :
      (key : List ℕ) (fc : FlowCreator S)
      → get_flow key fc ≡ none
      → (add_flow key fc).0 ≡ new_entry key (new_id fc.id_source).0
  unfolding add_flow get_flow existing
  add_flow_is_new key fc h = rw h

  pub get_flow-add_flow :
      (key : List ℕ) (fc : FlowCreator S)
      → get_flow key fc ≡ none
      → get_flow key (add_flow key fc).1 ≡ some (new_entry key (new_id fc.id_source).0)
  unfolding add_flow get_flow
  get_flow-add_flow key fc h = find-insert_new flow_keys key _ fc.flows h

  pub get_flow-add_flow_other :
      (key k : List ℕ) (fc : FlowCreator S)
      → key ≢ k
      → get_flow k (add_flow key fc).1 ≡ get_flow k fc
  unfolding add_flow get_flow
  get_flow-add_flow_other key k fc n = find-insert_other flow_keys k key _ fc.flows n

  pub get_flow-delete_flow :
      (f : FlowInfo S) (fc : FlowCreator S) → get_flow f.key_data (delete_flow f fc) ≡ none
  unfolding delete_flow get_flow
  get_flow-delete_flow f fc = find-erase_self flow_keys f.key_data fc.flows

  pub get_flow-delete_flow_other :
      (k : List ℕ) (f : FlowInfo S) (fc : FlowCreator S)
      → f.key_data ≢ k
      → get_flow k (delete_flow f fc) ≡ get_flow k fc
  unfolding delete_flow get_flow
  get_flow-delete_flow_other k f fc n = find-erase_other flow_keys k f.key_data fc.flows n

  pub get_flow-write_flow :
      (key : List ℕ) (f : FlowInfo S) (fc : FlowCreator S)
      → get_flow key (write_flow key f fc) ≡ some f
  unfolding write_flow get_flow
  get_flow-write_flow key f fc = find-assign_self flow_keys key f fc.flows

  pub get_flow-write_flow_other :
      (key k : List ℕ) (f : FlowInfo S) (fc : FlowCreator S)
      → key ≢ k
      → get_flow k (write_flow key f fc) ≡ get_flow k fc
  unfolding write_flow get_flow
  get_flow-write_flow_other key k f fc n = find-assign_other flow_keys k key f fc.flows n

-- With the flag `unique` a freed id is not kept, so the next id is always the number.
pub new_id_next :
    (s : RuleIdSource)
    → s.free_ids ≡ []
    → s.num + 1 < u64_mod
    → ((new_id s).0 ≡ s.num)
      × ((new_id s).1.num ≡ s.num + 1)
      × ((new_id s).1.unique ≡ s.unique)
      × ((new_id s).1.free_ids ≡ [])
unfolding new_id
new_id_next s h b = ground arith

pub free_id_unique : (s : RuleIdSource) (id : ℕ) → s.unique ≡ 1 → free_id s id ≡ s
unfolding free_id
free_id_unique s id h = ground arith

module _ {S : Type 0} (P : FlowInfo S → Type 0) (fc : FlowCreator S) (v : IsValid P fc) where
  -- A new flow may not satisfy `P` yet: its actions are filled in by the caller.
  pub write-add_flow-IsValid :
      (key : List ℕ) (f : FlowInfo S)
      → get_flow key fc ≡ none
      → fc.id_source.num + 1 < u64_mod
      → f.key_data ≡ key
      → f.flow_id ≡ fc.id_source.num
      → P f
      → IsValid P (write_flow key f (add_flow key fc).1)
  unfolding write_flow add_flow
  write-add_flow-IsValid key f h b k i p =
      let (id, next, unique, free) = new_id_next fc.id_source v.no_free b in
      let self : get_flow key (write_flow key f (add_flow key fc).1) ≡ some f =
        get_flow-write_flow key f _ in
      change-IsValid P fc _ key v (unique ∙ v.unique) free (omega arith)
        (write_flow-Distinct key f (add_flow key fc).1 (add_flow-Distinct key fc v.distinct))
        (λ k n. get_flow-write_flow_other key k f _ n ∙ get_flow-add_flow_other key k fc n)
        (λ e w.
          subst (λ t. IsNew P fc (new_id fc.id_source).1.num key t) (some_inj (sym self ∙ w))
            (record {
              key_is = k;
              below = omega arith;
              differs = λ j g n w q. omega (arith, v.id_lt j g w, q, i);
              has = p;
            }))

  -- What is written through the pointer to a flow keeps its key and its id.
  pub write_flow-IsValid :
      (key : List ℕ) (f g : FlowInfo S)
      → get_flow key fc ≡ some f
      → g.key_data ≡ f.key_data
      → g.flow_id ≡ f.flow_id
      → P g
      → IsValid P (write_flow key g fc)
  unfolding write_flow
  write_flow-IsValid key f g h k i p =
      let self : get_flow key (write_flow key g fc) ≡ some g = get_flow-write_flow key g fc in
      change-IsValid P fc _ key v v.unique v.no_free (omega arith)
        (write_flow-Distinct key g fc v.distinct) (λ j n. get_flow-write_flow_other key j g fc n)
        (λ e w.
          subst (λ t. IsNew P fc fc.id_source.num key t) (some_inj (sym self ∙ w))
            (record {
              key_is = k ∙ v.key_of key f h;
              below = omega (arith, i, v.id_lt key f h);
              differs = λ j e n w q. v.apart j key e f (λ x. n (sym x)) w h (q ∙ i);
              has = p;
            }))

  pub delete_flow-IsValid : (f : FlowInfo S) → IsValid P (delete_flow f fc)
  unfolding delete_flow
  delete_flow-IsValid f =
      let same = free_id_unique fc.id_source f.flow_id v.unique in
      let gone = get_flow-delete_flow f fc in
      change-IsValid P fc (delete_flow f fc) f.key_data v (ap (λ s. s.unique) same ∙ v.unique)
        (ap (λ s. s.free_ids) same ∙ v.no_free) (omega (arith, ap (λ s. s.num) same))
        (delete_flow-Distinct f fc v.distinct) (λ k n. get_flow-delete_flow_other k f fc n)
        (λ e w. cc (sym gone ∙ w))

  -- A flow that was just added is deleted again.
  pub delete-add_flow-IsValid :
      (key : List ℕ) (f : FlowInfo S)
      → f.key_data ≡ key
      → fc.id_source.num + 1 < u64_mod
      → IsValid P (delete_flow f (add_flow key fc).1)
  unfolding delete_flow add_flow
  delete-add_flow-IsValid key f k b =
      let (id, next, unique, free) = new_id_next fc.id_source v.no_free b in
      let same = free_id_unique (new_id fc.id_source).1 f.flow_id (unique ∙ v.unique) in
      let gone = get_flow-delete_flow f (add_flow key fc).1 in
      change-IsValid P fc (delete_flow f (add_flow key fc).1) f.key_data v
        (ap (λ s. s.unique) same ∙ unique ∙ v.unique) (ap (λ s. s.free_ids) same ∙ free)
        (omega (arith, ap (λ s. s.num) same))
        (delete_flow-Distinct f (add_flow key fc).1 (add_flow-Distinct key fc v.distinct))
        (λ j n.
          get_flow-delete_flow_other j f (add_flow key fc).1 n
          ∙ get_flow-add_flow_other key j fc (λ e. n (k ∙ e)))
        (λ e w. cc (sym gone ∙ w))
