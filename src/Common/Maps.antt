-- ===== src/Common/Maps.antt =====
-- `std::map` as a list of keys with their values, in the order of the keys. A map is only changed
-- through `insert`, `assign` and `erase`.
use mathlib.Core.Logic.{inl, inr, ◌≢◌}
use mathlib.Core.Path.{◌≡◌, refl, ◌∙◌}
use mathlib.Core.Bool.{Bool, true, false}
use mathlib.Core.List.{List, [], ◌∷◌}
use mathlib.Core.Option.{Option, none, some}
use Prim.Native.Nat.{ℕ}
use netmate_flowcalc.Common.{◌==◌, ==_iff, ltb, if◌then◌else◌, Bool-cases, Option-cases}

-- What a map asks of its keys.
pub record Keys {ℓ} (K : Type ℓ) : Type ℓ where
  pub same : K → K → Bool
  pub less : K → K → Bool
  pub same_refl : (k : K) → same k k ≡ true
  pub same_eq : (j k : K) → same j k ≡ true → j ≡ k

abbrev pub int_keys : Keys ℕ
int_keys = record {
  same = ◌==◌;
  less = ltb;
  same_refl = λ k. (==_iff k k).1 refl;
  same_eq = λ j k. (==_iff j k).0;
}

module _ {ℓ} {K : Type ℓ} (keys : Keys K) where
  open keys use {same, less}

  pub not_same : (j k : K) → j ≢ k → same j k ≡ false
  not_same j k n = elim (Bool-cases (same j k)) [
    | inl e ↦ absurd (n (keys.same_eq j k e))
    | inr e ↦ e
  ]

module _ {ℓ κ} {K : Type ℓ} {V : Type κ} (keys : Keys K) where
  open keys use {same, less}

  abbrev pub find : K → List (K × V) → Option V
  find k [] = none
  find k ((j, v) ∷ m) = if same j k then some v else find k m

  -- `m[k] = v`
  abbrev pub assign : K → V → List (K × V) → List (K × V)
  assign k v [] = (k, v) ∷ []
  assign k v ((j, w) ∷ m) =
      let rest = assign k v m in
      if same j k then (j, v) ∷ m else if less k j then (k, v) ∷ (j, w) ∷ m else (j, w) ∷ rest

  -- An entry with the key stays as it is.
  abbrev pub insert : K → V → List (K × V) → List (K × V)
  insert k v m = elim (find k m) [ none ↦ assign k v m | some w ↦ m ]

  abbrev pub erase : K → List (K × V) → List (K × V)
  erase k [] = []
  erase k ((j, w) ∷ m) = let rest = erase k m in if same j k then rest else (j, w) ∷ rest

  pub find-assign_self : (k : K) (v : V) (m : List (K × V)) → find k (assign k v m) ≡ some v
  find-assign_self k v [] = rw (keys.same_refl k)
  find-assign_self k v ((j, w) ∷ m) = elim (Bool-cases (same j k)) [
    | inl e ↦ rw (e, e)
    | inr e ↦ elim (Bool-cases (less k j)) [
      | inl l ↦ rw (e, l, keys.same_refl k)
      | inr l ↦ rw (e, l, e) (find-assign_self k v m)
    ]
  ]

  pub find-assign_other :
      (i k : K) (v : V) (m : List (K × V)) → k ≢ i → find i (assign k v m) ≡ find i m
  find-assign_other i k v [] n = rw (not_same keys k i n)
  find-assign_other i k v ((j, w) ∷ m) n = elim (Bool-cases (same j k)) [
    | inl e ↦ rw (e, keys.same_eq j k e, not_same keys k i n)
    | inr e ↦ elim (Bool-cases (less k j)) [
      | inl l ↦ rw (e, l, not_same keys k i n)
      | inr l ↦ rw (e, l, find-assign_other i k v m n)
    ]
  ]

  pub find-erase_self : (k : K) (m : List (K × V)) → find k (erase k m) ≡ none
  find-erase_self k [] = refl
  find-erase_self k ((j, w) ∷ m) = elim (Bool-cases (same j k)) [
    | inl e ↦ rw e (find-erase_self k m)
    | inr e ↦ rw (e, e) (find-erase_self k m)
  ]

  pub find-erase_other : (i k : K) (m : List (K × V)) → k ≢ i → find i (erase k m) ≡ find i m
  find-erase_other i k [] n = refl
  find-erase_other i k ((j, w) ∷ m) n = elim (Bool-cases (same j k)) [
    | inl e ↦ rw (e, keys.same_eq j k e, not_same keys k i n) (find-erase_other i k m n)
    | inr e ↦ rw (e, find-erase_other i k m n)
  ]

  find_tail :
      (k : K) (j : K) (w : V) (m : List (K × V))
      → find k ((j, w) ∷ m) ≡ none
      → (same j k ≡ false) × (find k m ≡ none)
  find_tail k j w m h = elim (Bool-cases (same j k)) [ inl e ↦ cc | inr e ↦ (e, rw e at h) ]

  pub erase_absent : (k : K) (m : List (K × V)) → find k m ≡ none → erase k m ≡ m
  erase_absent k [] h = refl
  erase_absent k ((j, w) ∷ m) h = let t = find_tail k j w m h in rw (t.0, erase_absent k m t.1)

  pub erase-assign :
      (k : K) (v : V) (m : List (K × V)) → find k m ≡ none → erase k (assign k v m) ≡ m
  erase-assign k v [] h = rw (keys.same_refl k)
  erase-assign k v ((j, w) ∷ m) h =
      let t = find_tail k j w m h in
      elim (Bool-cases (less k j)) [
        | inl l ↦ rw (t.0, l, keys.same_refl k, t.0, erase_absent k m t.1)
        | inr l ↦ rw (t.0, l, t.0, erase-assign k v m t.1)
      ]

  pub find-insert_other :
      (i k : K) (v : V) (m : List (K × V)) → k ≢ i → find i (insert k v m) ≡ find i m
  find-insert_other i k v m n = elim (Option-cases (find k m)) [
    | inl e ↦ rw (insert, e) (find-assign_other i k v m n)
    | inr (w, e) ↦ rw (insert, e)
  ]

  pub find-insert_new :
      (k : K) (v : V) (m : List (K × V)) → find k m ≡ none → find k (insert k v m) ≡ some v
  find-insert_new k v m n = rw (insert, n) (find-assign_self k v m)

module _ {ℓ κ} {K : Type ℓ} {V : Type κ} (keys : Keys K) where
  open keys use {same, less}

  -- No key stands twice.
  abbrev pub Distinct : List (K × V) → Type κ
  Distinct [] = Unit {κ}
  Distinct ((k, v) ∷ m) = (find keys k m ≡ none) × Distinct m

  -- The entries of a map with distinct keys are those that are found.
  abbrev pub AllFound : List (K × V) → List (K × V) → Type κ
  AllFound m [] = Unit {κ}
  AllFound m ((k, v) ∷ es) = (find keys k m ≡ some v) × AllFound m es

  AllFound-skip :
      (k : K) (v : V) (m es : List (K × V))
      → find keys k es ≡ none
      → AllFound m es
      → AllFound ((k, v) ∷ m) es
  AllFound-skip k v m [] n h = tt
  AllFound-skip k v m ((j, w) ∷ es) n (h, hs) = elim (Bool-cases (same k j)) [
    | inl e ↦ let q = keys.same_eq k j e in cc (keys.same_refl j, q, n)
    | inr e ↦ (rw e h, AllFound-skip k v m es (find_tail keys k j w es n).1 hs)
  ]

  pub Distinct-AllFound : (m : List (K × V)) → Distinct m → AllFound m m
  Distinct-AllFound [] h = tt
  Distinct-AllFound ((k, v) ∷ m) (n, h) =
      (rw (keys.same_refl k), AllFound-skip k v m m n (Distinct-AllFound m h))

  pub erase-Distinct : (k : K) (m : List (K × V)) → Distinct m → Distinct (erase keys k m)
  erase-Distinct k [] h = tt
  erase-Distinct k ((j, w) ∷ m) (n, h) = elim (Bool-cases (same j k)) [
    | inl e ↦ rw e (erase-Distinct k m h)
    | inr e ↦
        rw e
          (find-erase_other keys j k m (λ q. cc (q, e, keys.same_refl j)) ∙ n, erase-Distinct k m h)
  ]

  module _ (unordered : (j k : K) → less j k ≡ false) where
    pub assign-Distinct :
        (k : K) (v : V) (m : List (K × V)) → Distinct m → Distinct (assign keys k v m)
    assign-Distinct k v [] h = (refl, tt)
    assign-Distinct k v ((j, w) ∷ m) (n, h) = elim (Bool-cases (same j k)) [
      | inl e ↦ rw e (n, h)
      | inr e ↦
          rw (e, unordered k j)
            (
              find-assign_other keys j k v m (λ q. cc (q, e, keys.same_refl j)) ∙ n,
              assign-Distinct k v m h,
            )
    ]

    pub insert-Distinct :
        (k : K) (v : V) (m : List (K × V)) → Distinct m → Distinct (insert keys k v m)
    insert-Distinct k v m h = elim (Option-cases (find keys k m)) [
      | inl e ↦ rw (insert, e) (assign-Distinct k v m h)
      | inr (w, e) ↦ rw (insert, e) h
    ]
