-- ===== src/RuleManager/Keeps.antt =====
-- The database and the index of src/netmate/RuleManager.cc agree.
use Prim.Native.String.{String}
use netmate_flowcalc.Common.{
  ℕ, zero, suc, ◌+◌, ◌-◌, ◌<◌, ◌≡◌, ◌≢◌, ap, sym, subst, ◌∙◌, inl, inr, List, [], ◌∷◌, ◌++◌, Option,
  none, some, Bool-cases, eq_or_ne, arith, length, set, replicate, get_elem?, get_elem?-set_self,
  get_elem?-set_ne, some_inj, length-append, length-replicate, leb,
}
use netmate_flowcalc.IdSource.{new_id}
use netmate_flowcalc.Scheduler.{Event}
use netmate_flowcalc.RuleManager.Index.{
  Differ, places, find-assign_uid, find-assign_uid_other, find-erase_uid, find-erase_uid_other,
}
use netmate_flowcalc.RuleManager.{Rule, RuleManager, find_uid, grow, as_valid, put_rule, del_rule}

abbrev pub lookup : RuleManager → String → String → Option ℕ
lookup m s n = find_uid s n m.rule_set_index

-- The database holds the rule at the uid.
abbrev pub Holds : List (Option Rule) → ℕ → Rule → Type 0
Holds db u r = get_elem? db u ≡ some (some r)

pub record IsValid (m : RuleManager) : Type 0 where
  pub indexed :
      (s n : String) (u : ℕ)
      → lookup m s n ≡ some u
      → (r : Rule) × Holds m.rule_db u r × (r.uid ≡ u) × (r.set_name ≡ s) × (r.rule_name ≡ n)
  pub listed : (u : ℕ) (r : Rule) → Holds m.rule_db u r → lookup m r.set_name r.rule_name ≡ some u

pub Holds-lt : (db : List (Option Rule)) (u : ℕ) (r : Rule) → Holds db u r → u < length db
Holds-lt [] u r h = cc
Holds-lt (x ∷ db) zero r h = omega arith
Holds-lt (x ∷ db) (suc u) r h = omega (arith, Holds-lt db u r h)

-- A new place holds nothing.
pad-Holds :
    (db : List (Option Rule)) (k u : ℕ) (r : Rule)
    → Holds (db ++ replicate k none) u r
    → Holds db u r
pad-Holds [] zero u r h = h
pad-Holds [] (suc k) zero r h = cc
pad-Holds [] (suc k) (suc u) r h = pad-Holds [] k u r h
pad-Holds (x ∷ db) k zero r h = h
pad-Holds (x ∷ db) k (suc u) r h = pad-Holds db k u r h

Holds-pad :
    (db : List (Option Rule)) (k u : ℕ) (r : Rule)
    → Holds db u r
    → Holds (db ++ replicate k none) u r
Holds-pad [] k u r h = cc
Holds-pad (x ∷ db) k zero r h = h
Holds-pad (x ∷ db) k (suc u) r h = Holds-pad db k u r h

grow-Holds : (db : List (Option Rule)) (v u : ℕ) (r : Rule) → Holds (grow db v) u r → Holds db u r
unfolding grow
grow-Holds db v u r h = elim (Bool-cases (leb (length db) v)) [
  | inl e ↦ pad-Holds db (v + 1 - length db) u r (rw (grow, e) at h)
  | inr e ↦ (rw (grow, e) at h)
]

pub Holds-grow :
    (db : List (Option Rule)) (v u : ℕ) (r : Rule) → Holds db u r → Holds (grow db v) u r
unfolding grow
Holds-grow db v u r h = elim (Bool-cases (leb (length db) v)) [
  | inl e ↦ rw (grow, e) (Holds-pad db (v + 1 - length db) u r h)
  | inr e ↦ rw (grow, e) h
]

pub grow-length : (db : List (Option Rule)) (v : ℕ) → v < length (grow db v)
unfolding grow
grow-length db v = ground (
  arith,
  length-append db (replicate (v + 1 - length db) none),
  length-replicate {A = Option Rule} (v + 1 - length db) none,
)

set-Holds :
    (db : List (Option Rule)) (v u : ℕ) (x : Option Rule) (r : Rule)
    → v ≢ u
    → Holds (set db v x) u r
    → Holds db u r
set-Holds db v u x r n h = sym (get_elem?-set_ne db x n) ∙ h

pub absurd_some : {o : Option ℕ} {u : ℕ} → o ≡ none → o ≡ some u → ⊥
absurd_some p q = cc

rule_inj : {o : Option (Option Rule)} {q r : Rule} → o ≡ some (some q) → o ≡ some (some r) → q ≡ r
rule_inj p q = cc (p, q)

no_rule : {o : Option (Option Rule)} {r : Rule} → o ≡ some none → o ≡ some (some r) → ⊥
no_rule p q = cc (p, q)

-- The database after a write.
pub set_self-Holds :
    (db : List (Option Rule)) (u : ℕ) (x : Option Rule)
    → u < length db
    → get_elem? (set db u x) u ≡ some x
set_self-Holds db u x l = get_elem?-set_self db u x l

not_both : (s n t k : String) → Differ s n t k → s ≡ t → n ≡ k → ⊥
not_both s n t k (inl a) p q = a p
not_both s n t k (inr a) p q = a q

module _ (m : RuleManager) (v : IsValid m) (r : Rule) where
  -- The uid that the rule gets.
  abbrev fresh_uid : ℕ
  fresh_uid = (new_id m.id_source).0

  abbrev Entry : List (Option Rule) → ℕ → String → String → Type 0
  Entry db u s n = (x : Rule) × Holds db u x × (x.uid ≡ u) × (x.set_name ≡ s) × (x.rule_name ≡ n)

  put_indexed :
      (s n : String) (u : ℕ)
      → ((old : Rule) → ¬ Holds m.rule_db fresh_uid old)
      → lookup (put_rule m r) s n ≡ some u
      → Entry (put_rule m r).rule_db u s n
  unfolding put_rule as_valid
  put_indexed s n u fresh h = elim (places r.set_name r.rule_name s n) [
    | inl (p, q) ↦
        let f : fresh_uid ≡ u = some_inj (
          sym (find-assign_uid r.set_name r.rule_name fresh_uid m.rule_set_index)
          ∙ (rw (← p, ← q) at h)) in
        (
          as_valid r fresh_uid,
          subst (λ x. Holds (put_rule m r).rule_db x (as_valid r fresh_uid)) f
              (set_self-Holds (grow m.rule_db fresh_uid) fresh_uid (some (as_valid r fresh_uid))
                (grow-length m.rule_db fresh_uid)),
          f,
          p,
          q,
        )
    | inr d ↦
        let (old, held, a, b, c) = v.indexed s n u (
          sym (find-assign_uid_other r.set_name r.rule_name s n fresh_uid m.rule_set_index d)
          ∙ h) in
        let ne : fresh_uid ≢ u = λ e. fresh old (subst (λ x. Holds m.rule_db x old) (sym e) held) in
        (
          old,
          get_elem?-set_ne (grow m.rule_db fresh_uid) (some (as_valid r fresh_uid)) ne
              ∙ Holds-grow m.rule_db fresh_uid u old held,
          a,
          b,
          c,
        )
  ]

  put_listed :
      (u : ℕ) (old : Rule)
      → lookup m r.set_name r.rule_name ≡ none
      → Holds (put_rule m r).rule_db u old
      → lookup (put_rule m r) old.set_name old.rule_name ≡ some u
  unfolding put_rule as_valid
  put_listed u old absent h = elim (eq_or_ne fresh_uid u) [
    | inl e ↦
        let i : as_valid r fresh_uid ≡ old =
          rule_inj
            (set_self-Holds (grow m.rule_db fresh_uid) fresh_uid (some (as_valid r fresh_uid))
              (grow-length m.rule_db fresh_uid))
            (subst (λ x. Holds (put_rule m r).rule_db x old) (sym e) h) in
        subst (λ x. lookup (put_rule m r) x.set_name x.rule_name ≡ some u) i
          (find-assign_uid r.set_name r.rule_name fresh_uid m.rule_set_index ∙ ap some e)
    | inr n ↦
        let l = v.listed u old (
          grow-Holds m.rule_db fresh_uid u old (
            set-Holds (grow m.rule_db fresh_uid) fresh_uid u (some (as_valid r fresh_uid)) old n
              h)) in
        elim (places r.set_name r.rule_name old.set_name old.rule_name) [
          | inl (p, q) ↦ absurd (absurd_some absent (rw (← p, ← q) at l))
          | inr d ↦
              find-assign_uid_other r.set_name r.rule_name old.set_name old.rule_name fresh_uid
                m.rule_set_index d
              ∙ l
        ]
  ]

  pub put-IsValid :
      ((old : Rule) → ¬ Holds m.rule_db fresh_uid old)
      → lookup m r.set_name r.rule_name ≡ none
      → IsValid (put_rule m r)
  put-IsValid fresh absent = record {
    indexed = λ s n u h. put_indexed s n u fresh h;
    listed = λ u old h. put_listed u old absent h;
  }

  del_indexed :
      (e : Option (List Event)) (s n : String) (u : ℕ)
      → Holds m.rule_db r.uid r
      → lookup (del_rule m r e).0 s n ≡ some u
      → Entry (del_rule m r e).0.rule_db u s n
  unfolding del_rule
  del_indexed e s n u held h = elim (places r.set_name r.rule_name s n) [
    | inl (p, q) ↦
        absurd (
          absurd_some (find-erase_uid r.set_name r.rule_name m.rule_set_index) (rw (← p, ← q) at h))
    | inr d ↦
        let (old, o, a, b, c) =
          v.indexed s n u
            (sym (find-erase_uid_other r.set_name r.rule_name s n m.rule_set_index d) ∙ h) in
        let ne : r.uid ≢ u = λ w.
          let i = rule_inj held (subst (λ x. Holds m.rule_db x old) (sym w) o) in
          not_both r.set_name r.rule_name s n d (ap (λ x. x.set_name) i ∙ b)
            (ap (λ x. x.rule_name) i ∙ c) in
        (old, get_elem?-set_ne m.rule_db none ne ∙ o, a, b, c)
  ]

  del_listed :
      (e : Option (List Event)) (u : ℕ) (old : Rule)
      → Holds m.rule_db r.uid r
      → Holds (del_rule m r e).0.rule_db u old
      → lookup (del_rule m r e).0 old.set_name old.rule_name ≡ some u
  unfolding del_rule
  del_listed e u old held h = elim (eq_or_ne r.uid u) [
    | inl w ↦ absurd (
        no_rule (set_self-Holds m.rule_db r.uid none (Holds-lt m.rule_db r.uid r held))
          (subst (λ x. Holds (set m.rule_db r.uid none) x old) (sym w) h))
    | inr n ↦
        let l = v.listed u old (set-Holds m.rule_db r.uid u none old n h) in
        elim (places r.set_name r.rule_name old.set_name old.rule_name) [
          | inl (p, q) ↦ absurd (n (some_inj (sym (v.listed r.uid r held) ∙ (rw (← p, ← q) at l))))
          | inr d ↦
              find-erase_uid_other r.set_name r.rule_name old.set_name old.rule_name
                m.rule_set_index d
              ∙ l
        ]
  ]

  pub del-IsValid : (e : Option (List Event)) → Holds m.rule_db r.uid r → IsValid (del_rule m r e).0
  del-IsValid e held = record {
    indexed = λ s n u h. del_indexed e s n u held h;
    listed = λ u old h. del_listed e u old held h;
  }
