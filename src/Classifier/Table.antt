-- ===== src/Classifier/Table.antt =====
-- Adding rules to the classifier of src/netmate/ClassifierSimple.cc and deleting them again.
use netmate_flowcalc.Common.{
  ℕ, ◌+◌, ◌-◌, ◌*◌, ◌≡◌, ◌≢◌, ◌∙◌, Bool, true, false, List, Option, none, some, if◌then◌else◌,
  arith, Bool-cases, Option-cases, eq_or_ne, ap, inl, inr,
}
use netmate_flowcalc.Common.Maps.{
  int_keys, find, find-insert_other, find-insert_new, find-erase_self, find-erase_other,
}
use netmate_flowcalc.Classifier.{Match}
use netmate_flowcalc.Classifier.Update.{
  ClassifierSimple, Rule, key_of, add_rule, del_rule, add_both, del_both, reverses, fill_matches,
}

abbrev present : Option (List Match) → ℕ
present none = 0
present (some ms) = 1

-- Whether `addRule` adds an entry.
abbrev adds : Rule → Bool → ℕ
adds r forward = if forward then 1 else if reverses r.filter then 1 else 0

module _ (stack : Match) (c : ClassifierSimple) (r : Rule) (forward : Bool) where
  add_other :
      (i : ℕ)
      → key_of r forward ≢ i
      → find int_keys i (add_rule stack c r forward).rules ≡ find int_keys i c.rules
  unfolding add_rule
  add_other i n = ground (
    arith,
    find-insert_other int_keys i (key_of r forward) (fill_matches forward r.filter stack) c.rules n,
  )

  add_self :
      find int_keys (key_of r forward) c.rules ≡ none
      → present (find int_keys (key_of r forward) (add_rule stack c r forward).rules)
        ≡ adds r forward
  unfolding add_rule
  add_self n = ground (
    arith,
    find-insert_new int_keys (key_of r forward) (fill_matches forward r.filter stack) c.rules n,
  )

  add_stats : (add_rule stack c r forward).stats_rules ≡ c.stats_rules + adds r forward
  unfolding add_rule
  add_stats = ground arith

module _ (c : ClassifierSimple) (r : Rule) (forward : Bool) where
  del_other :
      (i : ℕ)
      → key_of r forward ≢ i
      → find int_keys i (del_rule c r forward).rules ≡ find int_keys i c.rules
  unfolding del_rule
  del_other i n = ground (arith, find-erase_other int_keys i (key_of r forward) c.rules n)

  del_self : find int_keys (key_of r forward) (del_rule c r forward).rules ≡ none
  unfolding del_rule
  del_self = elim (Option-cases (find int_keys (key_of r forward) c.rules)) [
    | inl e ↦ rw (e, del_rule) e
    | inr (ms, e) ↦ rw (e, del_rule) (find-erase_self int_keys (key_of r forward) c.rules)
  ]

  del_stats :
      (del_rule c r forward).stats_rules
      ≡ c.stats_rules - present (find int_keys (key_of r forward) c.rules)
  unfolding del_rule
  del_stats = ground arith

-- The table has no entry of the rule.
abbrev pub Absent : Rule → ClassifierSimple → Type 0
Absent r c =
    (find int_keys (r.uid * 2) c.rules ≡ none) × (find int_keys (r.uid * 2 + 1) c.rules ≡ none)

abbrev Restored : ClassifierSimple → ℕ → ClassifierSimple → Type 0
Restored c i d =
    (find int_keys i d.rules ≡ find int_keys i c.rules) × (d.stats_rules ≡ c.stats_rules)

one_direction :
    (stack : Match) (c : ClassifierSimple) (r : Rule) (i : ℕ)
    → Absent r c
    → Restored c i (del_rule (add_rule stack c r true) r true)
one_direction stack c r i a =
    let d = add_rule stack c r true in
    (
      elim (eq_or_ne (r.uid * 2) i) [
        | inl e ↦ cc (del_self d r true, ap (λ k. find int_keys k c.rules) e, a.0)
        | inr n ↦ del_other d r true i n ∙ add_other stack c r true i n
      ],
      omega (arith, del_stats d r true, add_stats stack c r true, add_self stack c r true a.0),
    )

both_directions :
    (stack : Match) (c : ClassifierSimple) (r : Rule) (i : ℕ)
    → Absent r c
    → Restored c i
        (del_rule (del_rule (add_rule stack (add_rule stack c r true) r false) r true) r false)
both_directions stack c r i a =
    let d = add_rule stack c r true in
    let e = add_rule stack d r false in
    let f = del_rule e r true in
    let g = del_rule f r false in
    let p : r.uid * 2 ≢ r.uid * 2 + 1 = omega arith in
    let q : r.uid * 2 + 1 ≢ r.uid * 2 = omega arith in
    (
      elim (eq_or_ne (r.uid * 2 + 1) i) [
        | inl x ↦ cc (del_self f r false, ap (λ k. find int_keys k c.rules) x, a.1)
        | inr n ↦ elim (eq_or_ne (r.uid * 2) i) [
          | inl x ↦ cc (
            del_other f r false (r.uid * 2) q,
            del_self e r true,
            ap (λ k. find int_keys k c.rules) x,
            a.0,
            ap (λ k. find int_keys k g.rules) x,
          )
          | inr m ↦
              del_other f r false i n
              ∙ del_other e r true i m
              ∙ add_other stack d r false i n
              ∙ add_other stack c r true i m
        ]
      ],
      omega (
        arith,
        add_stats stack c r true,
        add_stats stack d r false,
        add_self stack c r true a.0,
        add_self stack d r false (add_other stack c r true (r.uid * 2 + 1) p ∙ a.1),
        ap present (add_other stack d r false (r.uid * 2) q),
        ap present (del_other e r true (r.uid * 2 + 1) p),
        del_stats e r true,
        del_stats f r false,
      ),
    )

-- Deleting a rule right after adding it: every key then has the entry that it had before, and the
-- count of entries is that of before, if there was no entry of the rule; so for rules of one
-- direction, for bidirectional ones, and for those that have no attribute to reverse.
pub del_both-add_both :
    (stack : Match) (c : ClassifierSimple) (r : Rule) (i : ℕ)
    → Absent r c
    → (find int_keys i (del_both (add_both stack c r) r).rules ≡ find int_keys i c.rules)
      × ((del_both (add_both stack c r) r).stats_rules ≡ c.stats_rules)
unfolding add_both del_both
del_both-add_both stack c r i a = elim (Bool-cases r.bidir) [
  | inl b ↦ rw b (both_directions stack c r i a)
  | inr b ↦ rw b (one_direction stack c r i a)
]
