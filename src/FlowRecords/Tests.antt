-- ===== src/FlowRecords/Tests.antt =====
-- Runs of the store of flow records, and its theorems at concrete records.
use Prim.Native.String.{String}
use netmate_flowcalc.Common.{ℕ, ◌≤◌, arith, Returns, ◌≡◌, refl, inr, List, [], ◌∷◌, some}
use netmate_flowcalc.Common.Int.{pos}
use netmate_flowcalc.FlowRecords.{FlowRecordDb, del_data, export_next, make, store_data}
use netmate_flowcalc.FlowRecords.Ownership.{HeldIn, store_data-HeldIn, times_freed}
use netmate_flowcalc.FlowRecords.Export.{del_data_frees_queued}
use netmate_flowcalc.FlowRecords.History.{Call, store, export, run, times_stored, run-HeldIn}

abbrev modules : List String
modules = "text_file" ∷ []

abbrev first_stored : FlowRecordDb
first_stored = store_data (pos 3) modules (some 100) make

make-HeldIn : (x : ℕ) → HeldIn make x
unfolding make
make-HeldIn x = inr (inr (inr (refl, refl, refl)))

store_data-HeldIn_example : HeldIn first_stored 100
store_data-HeldIn_example =
    store_data-HeldIn make 3 modules 100 100 (unfold make in (refl, refl, refl, refl)) make-HeldIn

-- Two records of one rule, taken by the exporter in between.
abbrev calls : List Call
calls = store 3 modules 100 ∷ export ∷ store 3 modules 200 ∷ export ∷ export ∷ []

calls_once : (x : ℕ) → times_stored x calls ≤ 1
calls_once x = ground arith

run-HeldIn_example : Returns (run calls make) (λ t. (x : ℕ) → HeldIn t x)
run-HeldIn_example = run-HeldIn calls calls_once

del_data_frees_queued_example :
    (t : FlowRecordDb) × (export_next
        (del_data (pos 3) (store_data (pos 3) modules (some 100) make))
      ≡ some (100, t))
    × (times_freed 100 (del_data (pos 3) (store_data (pos 3) modules (some 100) make)).freed ≡ 1)
del_data_frees_queued_example = del_data_frees_queued 3 modules 100
