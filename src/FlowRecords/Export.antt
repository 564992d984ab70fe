-- ===== src/FlowRecords/Export.antt =====
-- The exporter's loop of src/netmate/Exporter.cc on the records of src/netmate/FlowRecordDB.cc.
use Prim.Native.String.{String}
use netmate_flowcalc.Common.{
  ℕ, ◌≡◌, inl, inr, refl, List, [], ◌∷◌, Option, none, some, arith, eq_or_ne,
}
use netmate_flowcalc.Common.Int.{pos}
use netmate_flowcalc.FlowRecords.Ownership.{
  HeldIn, in_db, in_queue, times_freed, let_go_self, let_go_other, let_go_elist, one_self,
  one_other,
}
use netmate_flowcalc.FlowRecords.{
  FlowRec, FlowRecordDb, free, let_go, store_data, make, export_next, del_data,
}

pub let_go_db : (s : FlowRecordDb) (old : ℕ) → (let_go old s).db ≡ s.db
unfolding let_go free
let_go_db s old = ground arith

-- The queue lets its first record go.
popped-HeldIn :
    (s : FlowRecordDb) (r : FlowRec) (rs : List FlowRec) (x : ℕ)
    → ((y : ℕ) → HeldIn (record s { elist = r ∷ rs }) y)
    → HeldIn (let_go r.fr (record s { elist = rs })) x
popped-HeldIn s r rs x h =
    let t : FlowRecordDb = record s { elist = rs } in
    rw (let_go_db t r.fr, let_go_elist t r.fr)
      (elim (eq_or_ne x r.fr) [
        | inl e ↦ rw e (
            let_go_self t r.fr (in_db r.fr s.db) (in_queue r.fr (r ∷ rs)) (in_db r.fr s.db)
              (in_queue r.fr rs) (h r.fr) (omega (arith, one_self r.fr)))
        | inr n ↦
            let k = let_go_other t r.fr x n in
            let q : in_queue x (r ∷ rs) ≡ in_queue x rs = omega (arith, one_other x r.fr n) in
            rw (k.0, k.1, ← q) (h x)
      ])

head_not_freed :
    (s : FlowRecordDb) (r : FlowRec) (rs : List FlowRec)
    → HeldIn (record s { elist = r ∷ rs }) r.fr
    → times_freed r.fr s.freed ≡ 0
head_not_freed s r rs h = ground (arith, one_self r.fr)

abbrev pub Exported : FlowRecordDb → ℕ → Option (ℕ × FlowRecordDb) → Type 0
Exported s x none = Unit {0}
Exported s x (some (r, t)) = (times_freed r s.freed ≡ 0) × HeldIn t x

pub exported :
    (s : FlowRecordDb) (rs : List FlowRec) (x : ℕ)
    → ((y : ℕ) → HeldIn (record s { elist = rs }) y)
    → Exported s x (export_next (record s { elist = rs }))
unfolding export_next
exported s [] x h = tt
exported s (r ∷ rs) x h = (head_not_freed s r rs (h r.fr), popped-HeldIn s r rs x h)

-- `delData` frees a record that still waits in the queue, so that the exporter then takes a record
-- that was freed: so with the only record that was stored.
pub del_data_frees_queued :
    (rule_id : ℕ) (expmods : List String) (fr : ℕ)
    → (t : FlowRecordDb) × (export_next
          (del_data (pos rule_id) (store_data (pos rule_id) expmods (some fr) make))
        ≡ some (fr, t))
      × (times_freed fr
            (del_data (pos rule_id) (store_data (pos rule_id) expmods (some fr) make)).freed
          ≡ 1)
unfolding store_data del_data make export_next
del_data_frees_queued rule_id expmods fr = (
  let_go fr (record (del_data (pos rule_id) (store_data (pos rule_id) expmods (some fr) make)) {
    elist = [];
  }),
  refl,
  ground arith,
)
