-- ===== src/FlowRecords/Ownership.antt =====
-- Every flow record is freed once, and only after it has left both the table and the queue.
use Prim.Native.String.{String}
use netmate_flowcalc.Common.{
  ℕ, ◌+◌, ◌≤◌, ◌≡◌, ◌≢◌, ◌⊎◌, inl, inr, ap, ◌∙◌, Bool, true, false, List, [], ◌∷◌, ◌++◌, Option,
  none, some, ◌==◌, arith, Bool-cases, eq_or_ne, subst, sym,
}
use netmate_flowcalc.Common.Int.{pos}
use netmate_flowcalc.FlowRecords.{
  Entry, FlowRec, FlowRecordDb, free, let_go, is_for, cons_entry, replace, insert_entry, keep,
  store_data,
}

abbrev pub one : Bool → ℕ
one true = 1
one false = 0

abbrev pub in_db : ℕ → List Entry → ℕ
in_db x [] = 0
in_db x (e ∷ es) = one (x == e.fr) + in_db x es

abbrev pub in_queue : ℕ → List FlowRec → ℕ
in_queue x [] = 0
in_queue x (r ∷ rs) = one (x == r.fr) + in_queue x rs

abbrev pub times_freed : ℕ → List ℕ → ℕ
times_freed x [] = 0
times_freed x (y ∷ ys) = one (x == y) + times_freed x ys

-- How a record is held: by both, by one of the two and marked, by none and freed once, or not yet
-- known.
abbrev pub Held : ℕ → ℕ → Bool → ℕ → Type 0
Held d q m f =
    ((d ≡ 1) × (q ≡ 1) × (m ≡ false) × (f ≡ 0))
    ⊎ (((d + q ≡ 1) × (m ≡ true) × (f ≡ 0))
        ⊎ (((d + q ≡ 0) × (m ≡ true) × (f ≡ 1)) ⊎ ((d + q ≡ 0) × (m ≡ false) × (f ≡ 0))))

abbrev pub HeldIn : FlowRecordDb → ℕ → Type 0
HeldIn s x = Held (in_db x s.db) (in_queue x s.elist) (s.delete_rec x) (times_freed x s.freed)

-- Nothing has been done with the record.
abbrev pub Unknown : FlowRecordDb → ℕ → Type 0
Unknown s x =
    (in_db x s.db ≡ 0)
    × (in_queue x s.elist ≡ 0)
    × (s.delete_rec x ≡ false)
    × (times_freed x s.freed ≡ 0)

pub queue_end :
    (x : ℕ) (rs : List FlowRec) (r : FlowRec)
    → in_queue x (rs ++ r ∷ []) ≡ in_queue x rs + one (x == r.fr)
queue_end x [] r = omega arith
queue_end x (y ∷ rs) r = omega (arith, queue_end x rs r)

pub in_insert :
    (x : ℕ) (n : Entry) (es : List Entry)
    → in_db x (insert_entry n es) ≡ in_db x es + one (x == n.fr)
unfolding insert_entry
in_insert x n [] = omega arith
in_insert x n (e ∷ es) = ground (arith, in_insert x n es)

-- What `replace` changes.
abbrev pub Replaced : ℕ → ℕ → List Entry → Option (ℕ × List Entry) → Type 0
Replaced x fr es none = Unit {0}
Replaced x fr es (some (old, es')) =
    (in_db x es' + one (x == old) ≡ in_db x es + one (x == fr)) × (1 ≤ in_db old es)

cons-Replaced :
    (x fr : ℕ) (e : Entry) (es : List Entry) (o : Option (ℕ × List Entry))
    → Replaced x fr es o
    → Replaced x fr (e ∷ es) (cons_entry e o)
unfolding cons_entry
cons-Replaced x fr e es none h = tt
cons-Replaced x fr e es (some (old, es')) h = omega arith

pub replace-Replaced :
    (x rule_id : ℕ) (expmods : List String) (fr : ℕ) (es : List Entry)
    → Replaced x fr es (replace rule_id expmods fr es)
unfolding replace
replace-Replaced x rule_id expmods fr [] = tt
replace-Replaced x rule_id expmods fr (e ∷ es) = elim (Bool-cases (is_for rule_id expmods e)) [
  | inl h ↦ rw (replace, h) (ground arith)
  | inr h ↦
      rw (replace, h)
        (cons-Replaced x fr e es (replace rule_id expmods fr es)
          (replace-Replaced x rule_id expmods fr es))
]

pub let_go_other :
    (s : FlowRecordDb) (old x : ℕ)
    → x ≢ old
    → ((let_go old s).delete_rec x ≡ s.delete_rec x)
      × (times_freed x (let_go old s).freed ≡ times_freed x s.freed)
unfolding let_go free
let_go_other s old x n = ground arith

-- One holder less.
pub let_go_self :
    (s : FlowRecordDb) (old d q d' q' : ℕ)
    → Held d q (s.delete_rec old) (times_freed old s.freed)
    → d' + q' + 1 ≡ d + q
    → Held d' q' ((let_go old s).delete_rec old) (times_freed old (let_go old s).freed)
unfolding let_go free
let_go_self s old d q d' q' h e = ground arith

pub let_go_elist : (s : FlowRecordDb) (old : ℕ) → (let_go old s).elist ≡ s.elist
unfolding let_go free
let_go_elist s old = ground arith

pub one_self : (x : ℕ) → one (x == x) ≡ 1
one_self x = ground arith

pub one_other : (x y : ℕ) → x ≢ y → one (x == y) ≡ 0
one_other x y n = ground arith

module _ (s : FlowRecordDb) (rule_id : ℕ) (expmods : List String) (fr : ℕ) (u : Unknown s fr)
    (h : (y : ℕ) → HeldIn s y) where
  -- The state once the record is queued.
  abbrev queued : FlowRecordDb
  queued = record s { elist = s.elist ++ record { expmods = expmods; fr = fr } ∷ [] }

  queued_self : in_queue fr queued.elist ≡ 1
  queued_self =
      omega (arith, queue_end fr s.elist (record { expmods = expmods; fr = fr }), one_self fr)

  queued_other : (x : ℕ) → x ≢ fr → in_queue x queued.elist ≡ in_queue x s.elist
  queued_other x n =
      omega (arith, queue_end x s.elist (record { expmods = expmods; fr = fr }), one_other x fr n)

  abbrev new_entry : Entry
  new_entry = record { rule_id = rule_id; expmods = expmods; fr = fr }

  insert-HeldIn : (x : ℕ) → HeldIn (record queued { db = insert_entry new_entry s.db }) x
  insert-HeldIn x = elim (eq_or_ne x fr) [
    | inl e ↦
        subst (HeldIn (record queued { db = insert_entry new_entry s.db })) (sym e)
          (inl (omega (arith, in_insert fr new_entry s.db, one_self fr), queued_self, u.2, u.3))
    | inr n ↦
        let d : in_db x (insert_entry new_entry s.db) ≡ in_db x s.db =
          omega (arith, in_insert x new_entry s.db, one_other x fr n) in
        rw (d, queued_other x n) (h x)
  ]

  fresh-HeldIn :
      (old : ℕ) (es : List Entry)
      → ((x : ℕ) → Replaced x fr s.db (some (old, es)))
      → fr ≢ old
      → HeldIn (record (let_go old queued) { db = es }) fr
  fresh-HeldIn old es r n =
      let k = let_go_other queued old fr n in
      let d : in_db fr es ≡ 1 = omega (arith, (r fr).0, one_other fr old n, one_self fr, u.0) in
      inl (d, ap (in_queue fr) (let_go_elist queued old) ∙ queued_self, k.0 ∙ u.2, k.1 ∙ u.3)

  swap-HeldIn :
      (old : ℕ) (es : List Entry)
      → ((x : ℕ) → Replaced x fr s.db (some (old, es)))
      → (x : ℕ) → HeldIn (record (let_go old queued) { db = es }) x
  swap-HeldIn old es r x =
      let ne : fr ≢ old = λ e. omega (arith, (r fr).1, ap (λ y. in_db y s.db) e, u.0) in
      elim (eq_or_ne x old) [
        | inl e ↦
            let on : old ≢ fr = λ w. ne (sym w) in
            let d : in_db old es + 0 + 1 ≡ in_db old s.db + 0 =
              omega (arith, (r old).0, one_self old, one_other old fr on) in
            subst (HeldIn (record (let_go old queued) { db = es })) (sym e) (
              rw (let_go_elist queued old, queued_other old on)
                (let_go_self queued old (in_db old s.db) (in_queue old s.elist) (in_db old es)
                  (in_queue old s.elist) (h old) (omega arith)))
        | inr n ↦
            let k = let_go_other queued old x n in
            elim (eq_or_ne x fr) [
              | inl e ↦
                  subst (HeldIn (record (let_go old queued) { db = es })) (sym e)
                    (fresh-HeldIn old es r ne)
              | inr m ↦
                  let d : in_db x es ≡ in_db x s.db =
                    omega (arith, (r x).0, one_other x old n, one_other x fr m) in
                  rw (let_go_elist queued old, queued_other x m, k.0, k.1, d) (h x)
            ]
      ]

stored-HeldIn :
    (s : FlowRecordDb) (rule_id : ℕ) (expmods : List String) (fr x : ℕ)
    (o : Option (ℕ × List Entry))
    → Unknown s fr
    → ((y : ℕ) → HeldIn s y)
    → ((y : ℕ) → Replaced y fr s.db o)
    → HeldIn
        (keep rule_id expmods fr
          (record s { elist = s.elist ++ record { expmods = expmods; fr = fr } ∷ [] })
          o)
        x
unfolding keep
stored-HeldIn s rule_id expmods fr x none u h r = insert-HeldIn s rule_id expmods fr u h x
stored-HeldIn s rule_id expmods fr x (some (old, es)) u h r =
    swap-HeldIn s rule_id expmods fr u h old es r x

-- If every record is held by the table and the queue, or by one of the two and marked, or by none and
-- freed once, or is not known, then this is so again for every record after one is stored that was
-- not known before.
pub store_data-HeldIn :
    (s : FlowRecordDb) (rule_id : ℕ) (expmods : List String) (fr x : ℕ)
    → Unknown s fr
    → ((y : ℕ) → HeldIn s y)
    → HeldIn (store_data (pos rule_id) expmods (some fr) s) x
unfolding store_data
store_data-HeldIn s rule_id expmods fr x u h =
    stored-HeldIn s rule_id expmods fr x (replace rule_id expmods fr s.db) u h
      (λ y. replace-Replaced y rule_id expmods fr s.db)
