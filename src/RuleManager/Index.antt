-- ===== src/RuleManager/Index.antt =====
-- Looking up a rule's uid by set and name, after changes of the index of src/netmate/RuleManager.h.
use Prim.Native.String.{String}
use netmate_flowcalc.Common.{
  ℕ, ◌≡◌, ◌≢◌, ap, sym, ◌∙◌, ◌⊎◌, inl, inr, List, [], ◌∷◌, none, some, Option-cases, Bool-cases,
}
use netmate_flowcalc.Common.Maps.{
  find, assign, erase, find-assign_self, find-assign_other, find-erase_self, find-erase_other,
}
use netmate_flowcalc.RuleManager.{
  Index, names, find_uid, rules_of, assign_uid, erase_uid, prune_set,
}

names_eq_or_ne : (s t : String) → (s ≡ t) ⊎ (s ≢ t)
names_eq_or_ne s t = elim (Bool-cases (names.same s t)) [
  | inl e ↦ inl (names.same_eq s t e)
  | inr e ↦ inr (λ p. cc (names.same_refl s, ap (λ x. names.same s x) p))
]

find_uid-rules_of :
    (s n : String) (index : Index) → find_uid s n index ≡ find names n (rules_of s index)
unfolding find_uid rules_of
find_uid-rules_of s n index = elim (Option-cases (find names s index)) [
  | inl e ↦ rw (find_uid, rules_of, e)
  | inr (rules, e) ↦ rw (find_uid, rules_of, e)
]

rules_of-assign_self :
    (s : String) (rules : List (String × ℕ)) (index : Index)
    → rules_of s (assign names s rules index) ≡ rules
unfolding rules_of
rules_of-assign_self s rules index = rw (rules_of, find-assign_self names s rules index)

rules_of-assign_other :
    (s t : String) (rules : List (String × ℕ)) (index : Index)
    → s ≢ t
    → rules_of t (assign names s rules index) ≡ rules_of t index
unfolding rules_of
rules_of-assign_other s t rules index n = rw (rules_of, find-assign_other names t s rules index n)

rules_of-erase_self : (s : String) (index : Index) → rules_of s (erase names s index) ≡ []
unfolding rules_of
rules_of-erase_self s index = rw (rules_of, find-erase_self names s index)

rules_of-erase_other :
    (s t : String) (index : Index) → s ≢ t → rules_of t (erase names s index) ≡ rules_of t index
unfolding rules_of
rules_of-erase_other s t index n = rw (rules_of, find-erase_other names t s index n)

-- Two places of the index differ.
abbrev pub Differ : String → String → String → String → Type 0
Differ s n t k = (s ≢ t) ⊎ (n ≢ k)

pub places : (s n t k : String) → ((s ≡ t) × (n ≡ k)) ⊎ Differ s n t k
places s n t k = elim (names_eq_or_ne s t) [
  | inr p ↦ inr (inl p)
  | inl p ↦ elim (names_eq_or_ne n k) [ inl q ↦ inl (p, q) | inr q ↦ inr (inr q) ]
]

same_set : (s n t k : String) → Differ s n t k → s ≡ t → n ≢ k
same_set s n t k (inl p) e = absurd (p e)
same_set s n t k (inr q) e = q

pub find-assign_uid :
    (s n : String) (u : ℕ) (index : Index) → find_uid s n (assign_uid s n u index) ≡ some u
unfolding assign_uid
find-assign_uid s n u index =
    find_uid-rules_of s n _
    ∙ rw (rules_of-assign_self s (assign names n u (rules_of s index)) index)
        (find-assign_self names n u (rules_of s index))

pub find-assign_uid_other :
    (s n t k : String) (u : ℕ) (index : Index)
    → Differ s n t k
    → find_uid t k (assign_uid s n u index) ≡ find_uid t k index
unfolding assign_uid
find-assign_uid_other s n t k u index d = elim (names_eq_or_ne s t) [
  | inr p ↦
      find_uid-rules_of t k _
      ∙ rw (rules_of-assign_other s t (assign names n u (rules_of s index)) index p)
          (sym (find_uid-rules_of t k index))
  | inl p ↦ rw (← p) (
      find_uid-rules_of s k _
      ∙ rw (rules_of-assign_self s (assign names n u (rules_of s index)) index)
          (find-assign_other names k n u (rules_of s index) (same_set s n t k d p))
      ∙ sym (find_uid-rules_of s k index))
]

abbrev pruned : String → List (String × ℕ) → Index → Index
pruned s rules index = prune_set s rules (assign names s rules index)

pruned_self :
    (s : String) (rules : List (String × ℕ)) (index : Index)
    → rules_of s (pruned s rules index) ≡ rules
unfolding prune_set
pruned_self s [] index = rules_of-erase_self s (assign names s [] index)
pruned_self s (r ∷ rs) index = rules_of-assign_self s (r ∷ rs) index

pruned_other :
    (s t : String) (rules : List (String × ℕ)) (index : Index)
    → s ≢ t
    → rules_of t (pruned s rules index) ≡ rules_of t index
unfolding prune_set
pruned_other s t [] index p =
    rules_of-erase_other s t (assign names s [] index) p ∙ rules_of-assign_other s t [] index p
pruned_other s t (r ∷ rs) index p = rules_of-assign_other s t (r ∷ rs) index p

erased_self :
    (s n : String) (index : Index)
    → rules_of s (erase_uid s n index) ≡ erase names n (rules_of s index)
unfolding erase_uid
erased_self s n index = pruned_self s (erase names n (rules_of s index)) index

erased_other :
    (s n t : String) (index : Index) → s ≢ t → rules_of t (erase_uid s n index) ≡ rules_of t index
unfolding erase_uid
erased_other s n t index p = pruned_other s t (erase names n (rules_of s index)) index p

pub find-erase_uid : (s n : String) (index : Index) → find_uid s n (erase_uid s n index) ≡ none
find-erase_uid s n index =
    find_uid-rules_of s n (erase_uid s n index)
    ∙ rw (erased_self s n index) (find-erase_self names n (rules_of s index))

pub find-erase_uid_other :
    (s n t k : String) (index : Index)
    → Differ s n t k
    → find_uid t k (erase_uid s n index) ≡ find_uid t k index
find-erase_uid_other s n t k index d = elim (names_eq_or_ne s t) [
  | inr p ↦
      find_uid-rules_of t k _ ∙ rw (erased_other s n t index p) (sym (find_uid-rules_of t k index))
  | inl p ↦ rw (← p) (
      find_uid-rules_of s k _
      ∙ rw (erased_self s n index)
          (find-erase_other names k n (rules_of s index) (same_set s n t k d p))
      ∙ sym (find_uid-rules_of s k index))
]
