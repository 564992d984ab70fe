-- ===== src/RuleManager/Database.antt =====
-- What `addRule` and `delRule` of src/netmate/RuleManager.cc do to the database, the index and the
-- events.
use Prim.Native.String.{String}
use netmate_flowcalc.Common.{
  ℕ, ◌≡◌, ◌⊎◌, refl, sym, subst, ◌∙◌, inl, inr, true, List, Option, none, some, Option-cases, arith,
  length, leb, ◌≢◌, set, get_elem?-set_ne,
}
use netmate_flowcalc.Common.Int.{pos, ◌+ℤ◌, +ℤ_cancel}
use netmate_flowcalc.IdSource.{new_id}
use netmate_flowcalc.Scheduler.{Event, del_rule_events}
use netmate_flowcalc.Scheduler.Rules.{AtMostOnce, names_all, del_rule_events_none}
use netmate_flowcalc.RuleManager.Index.{
  Differ, places, find-assign_uid, find-assign_uid_other, find-erase_uid, find-erase_uid_other,
}
use netmate_flowcalc.RuleManager.Keeps.{
  lookup, Holds, IsValid, Holds-lt, Holds-grow, grow-length, set_self-Holds, put-IsValid,
  del-IsValid, absurd_some,
}
use netmate_flowcalc.RuleManager.{
  Rule, RuleManager, rule, null, Outcome, ok, error, as_valid, put_rule, add_rule, get_rule,
  get_rule_named, read_db, del_rule, grow,
}

get_rule-Holds :
    (m : RuleManager) (u : ℕ) (r : Rule) → Holds m.rule_db u r → get_rule m (pos u) ≡ rule r
unfolding get_rule read_db
get_rule-Holds m u r h =
    let l = Holds-lt m.rule_db u r h in
    let b : leb u (length m.rule_db) ≡ true = ground arith in rw (get_rule, b, read_db, h)

-- In a valid database a lookup by name gives a rule of that name, or null if the index has none: no
-- place out of bounds is read.
pub get_rule_named-IsValid :
    (m : RuleManager) (s n : String)
    → IsValid m
    → ((lookup m s n ≡ none) × (get_rule_named m s n ≡ null))
      ⊎ ((r : Rule) × (get_rule_named m s n ≡ rule r)
          × (r.set_name ≡ s)
          × (r.rule_name ≡ n)
          × Holds m.rule_db r.uid r)
unfolding get_rule_named
get_rule_named-IsValid m s n v = elim (Option-cases (lookup m s n)) [
  | inl e ↦ inl (e, rw (get_rule_named, e))
  | inr (u, e) ↦
      let (r, h, a, b, c) = v.indexed s n u e in
      inr (
        r,
        rw (get_rule_named, e) (get_rule-Holds m u r h),
        b,
        c,
        subst (λ x. Holds m.rule_db x r) (sym a) h,
      )
]

-- The lookup of a rule's own name.
named-Holds :
    (m : RuleManager) (s n : String) (u : ℕ) (r : Rule)
    → lookup m s n ≡ some u
    → Holds m.rule_db u r
    → get_rule_named m s n ≡ rule r
unfolding get_rule_named
named-Holds m s n u r e h = rw (get_rule_named, e) (get_rule-Holds m u r h)

named_none : (m : RuleManager) (s n : String) → lookup m s n ≡ none → get_rule_named m s n ≡ null
unfolding get_rule_named
named_none m s n e = rw (get_rule_named, e)

-- The uid that the next rule gets.
abbrev pub next_uid : RuleManager → ℕ
next_uid m = (new_id m.id_source).0

ok_inj : {a b : RuleManager} → ok a ≡ ok b → a ≡ b
ok_inj e = cc e

error_ok : {b : RuleManager} → ◌≡◌ {A = Outcome RuleManager} error (ok b) → ⊥
error_ok e = cc e

-- `addRule` refuses a name that is there, and stores the rule otherwise.
add_cases :
    (m m' : RuleManager) (r : Rule)
    → IsValid m
    → add_rule m r ≡ ok m'
    → (lookup m r.set_name r.rule_name ≡ none) × (put_rule m r ≡ m')
unfolding add_rule
add_cases m m' r v e = elim (get_rule_named-IsValid m r.set_name r.rule_name v) [
  | inl (a, b) ↦ (a, ok_inj (sym (rw (add_rule, b) refl) ∙ e))
  | inr (old, b, c, d, h) ↦ absurd (error_ok (sym (rw (add_rule, b) refl) ∙ e))
]

put-Holds :
    (m : RuleManager) (r : Rule)
    → Holds (put_rule m r).rule_db (next_uid m) (as_valid r (next_uid m))
unfolding put_rule
put-Holds m r =
    set_self-Holds (grow m.rule_db (next_uid m)) (next_uid m) (some (as_valid r (next_uid m)))
      (grow-length m.rule_db (next_uid m))

put_named :
    (m : RuleManager) (r : Rule)
    → get_rule_named (put_rule m r) r.set_name r.rule_name ≡ rule (as_valid r (next_uid m))
unfolding put_rule
put_named m r =
    named-Holds (put_rule m r) r.set_name r.rule_name (next_uid m) (as_valid r (next_uid m))
      (find-assign_uid r.set_name r.rule_name (next_uid m) m.rule_set_index) (put-Holds m r)

put_other :
    (m : RuleManager) (r : Rule) (s n : String)
    → Differ r.set_name r.rule_name s n
    → (lookup (put_rule m r) s n ≡ lookup m s n) × ((put_rule m r).tasks ≡ m.tasks +ℤ pos 1)
unfolding put_rule
put_other m r s n d =
    (find-assign_uid_other r.set_name r.rule_name s n (next_uid m) m.rule_set_index d, refl)

-- Where no rule of the database has the uid that the id source gives next, an accepted rule is found
-- by its set and name, valid and with that uid; the uids of all other names are as before; there is
-- one task more; and the database and its index agree again.
pub add_rule-IsValid :
    (m m' : RuleManager) (r : Rule) (s n : String)
    → IsValid m
    → ((old : Rule) → ¬ Holds m.rule_db (next_uid m) old)
    → add_rule m r ≡ ok m'
    → Differ r.set_name r.rule_name s n
    → IsValid m'
      × (get_rule_named m' r.set_name r.rule_name ≡ rule (as_valid r (next_uid m)))
      × (lookup m' s n ≡ lookup m s n)
      × (m'.tasks ≡ m.tasks +ℤ pos 1)
add_rule-IsValid m m' r s n v fresh e d =
    let (absent, p) = add_cases m m' r v e in
    subst
      (λ x.
        IsValid x
        × (get_rule_named x r.set_name r.rule_name ≡ rule (as_valid r (next_uid m)))
        × (lookup x s n ≡ lookup m s n)
        × (x.tasks ≡ m.tasks +ℤ pos 1))
      p
      (
        put-IsValid m v r fresh absent,
        put_named m r,
        (put_other m r s n d).0,
        (put_other m r s n d).1,
      )

del_lookup :
    (m : RuleManager) (r : Rule) (e : Option (List Event))
    → lookup (del_rule m r e).0 r.set_name r.rule_name ≡ none
unfolding del_rule
del_lookup m r e = find-erase_uid r.set_name r.rule_name m.rule_set_index

del_other :
    (m : RuleManager) (r : Rule) (e : Option (List Event)) (s n : String)
    → Differ r.set_name r.rule_name s n
    → lookup (del_rule m r e).0 s n ≡ lookup m s n
unfolding del_rule
del_other m r e s n d = find-erase_uid_other r.set_name r.rule_name s n m.rule_set_index d

-- After `delRule` of a rule of the database its name is not found, the database and its index agree
-- again, and no event names the rule, if none named it twice.
pub del_rule-IsValid :
    (m : RuleManager) (r : Rule) (es : List Event)
    → IsValid m
    → Holds m.rule_db r.uid r
    → AtMostOnce r.uid es
    → IsValid (del_rule m r (some es)).0
      × (get_rule_named (del_rule m r (some es)).0 r.set_name r.rule_name ≡ null)
      × ((left : List Event) × ((del_rule m r (some es)).1 ≡ some left)
          × (names_all r.uid left ≡ 0))
unfolding del_rule
del_rule-IsValid m r es v h a = (
  del-IsValid m v r (some es) h,
  named_none (del_rule m r (some es)).0 r.set_name r.rule_name (del_lookup m r (some es)),
  (del_rule_events r.uid es, refl, del_rule_events_none r.uid es a),
)

put_del :
    (m : RuleManager) (r : Rule) (e : Option (List Event)) (s n : String)
    → lookup m r.set_name r.rule_name ≡ none
    → (lookup (del_rule (put_rule m r) (as_valid r (next_uid m)) e).0 s n ≡ lookup m s n)
      × ((del_rule (put_rule m r) (as_valid r (next_uid m)) e).0.tasks ≡ m.tasks)
unfolding put_rule del_rule as_valid
put_del m r e s n absent = (
  elim (places r.set_name r.rule_name s n) [
    | inl (a, b) ↦
        rw (← a, ← b) (del_lookup (put_rule m r) (as_valid r (next_uid m)) e ∙ sym absent)
    | inr d ↦ del_other (put_rule m r) (as_valid r (next_uid m)) e s n d ∙ (put_other m r s n d).0
  ],
  +ℤ_cancel m.tasks (pos 1),
)

-- A rule at another uid than the new rule's is still there after that is deleted.
put_del-Holds :
    (m : RuleManager) (r old : Rule) (e : Option (List Event)) (u : ℕ)
    → next_uid m ≢ u
    → Holds m.rule_db u old
    → Holds (del_rule (put_rule m r) (as_valid r (next_uid m)) e).0.rule_db u old
unfolding put_rule del_rule as_valid
put_del-Holds m r old e u n h =
    get_elem?-set_ne
      (set (grow m.rule_db (next_uid m)) (next_uid m) (some (as_valid r (next_uid m)))) none n
    ∙ get_elem?-set_ne (grow m.rule_db (next_uid m)) (some (as_valid r (next_uid m))) n
    ∙ Holds-grow m.rule_db (next_uid m) u old h

put_del_named :
    (m : RuleManager) (r : Rule) (e : Option (List Event)) (s n : String)
    → IsValid m
    → ((old : Rule) → ¬ Holds m.rule_db (next_uid m) old)
    → lookup m r.set_name r.rule_name ≡ none
    → get_rule_named (del_rule (put_rule m r) (as_valid r (next_uid m)) e).0 s n
      ≡ get_rule_named m s n
put_del_named m r e s n v fresh absent =
    let m' = (del_rule (put_rule m r) (as_valid r (next_uid m)) e).0 in
    let same = (put_del m r e s n absent).0 in
    elim (Option-cases (lookup m s n)) [
      | inl q ↦ named_none m' s n (same ∙ q) ∙ sym (named_none m s n q)
      | inr (u, q) ↦
          let (old, held, a, b, c) = v.indexed s n u q in
          let ne : next_uid m ≢ u =
            λ w. fresh old (subst (λ x. Holds m.rule_db x old) (sym w) held) in
          named-Holds m' s n u old (same ∙ q) (put_del-Holds m r old e u ne held)
          ∙ sym (named-Holds m s n u old q held)
    ]

-- Deleting a rule that was just added, where no rule of the database had the uid that the id source
-- gave: every lookup by name, the uid in the index and the rule, is as before, and so is the number
-- of tasks.
pub add_rule-del_rule :
    (m m' : RuleManager) (r : Rule) (e : Option (List Event)) (s n : String)
    → IsValid m
    → ((old : Rule) → ¬ Holds m.rule_db (next_uid m) old)
    → add_rule m r ≡ ok m'
    → (get_rule_named (del_rule m' (as_valid r (next_uid m)) e).0 s n ≡ get_rule_named m s n)
      × (lookup (del_rule m' (as_valid r (next_uid m)) e).0 s n ≡ lookup m s n)
      × ((del_rule m' (as_valid r (next_uid m)) e).0.tasks ≡ m.tasks)
add_rule-del_rule m m' r e s n v fresh h =
    let (absent, p) = add_cases m m' r v h in
    subst
      (λ x.
        (get_rule_named (del_rule x (as_valid r (next_uid m)) e).0 s n ≡ get_rule_named m s n)
        × (lookup (del_rule x (as_valid r (next_uid m)) e).0 s n ≡ lookup m s n)
        × ((del_rule x (as_valid r (next_uid m)) e).0.tasks ≡ m.tasks))
      p
      (
        put_del_named m r e s n v fresh absent,
        (put_del m r e s n absent).0,
        (put_del m r e s n absent).1,
      )

-- Where the id source gives the uid of a rule that is in use, a rule accepted under a new name takes
-- its place: the lookup of the first rule's name then gives the other rule.
pub add_rule_overwrites :
    (m m' : RuleManager) (r : Rule) (s n : String)
    → IsValid m
    → lookup m s n ≡ some (next_uid m)
    → add_rule m r ≡ ok m'
    → get_rule_named m' s n ≡ rule (as_valid r (next_uid m))
add_rule_overwrites m m' r s n v l h =
    let (absent, p) = add_cases m m' r v h in
    subst (λ x. get_rule_named x s n ≡ rule (as_valid r (next_uid m))) p
      (elim (places r.set_name r.rule_name s n) [
        | inl (a, b) ↦ absurd (absurd_some absent (rw (← a, ← b) at l))
        | inr d ↦
            named-Holds (put_rule m r) s n (next_uid m) (as_valid r (next_uid m))
              ((put_other m r s n d).0 ∙ l) (put-Holds m r)
      ])
