-- ===== src/FlowRecords.antt =====
-- src/netmate/FlowRecordDB.h and FlowRecordDB.cc, and the loop of src/netmate/Exporter.cc that takes
-- records from it: flow records wait in a queue for the exporter and in a table for queries, and the
-- one of the two that lets a record go last frees it. A record is named by a number. Every method
-- holds the lock; the threaded `getNextRec` waits until there is a record, so it takes one as here.
pub mod Ownership
pub mod Export
pub mod History
mod Tests
use Prim.Native.String.{String}
use text.Mathlib.Text.{◌==◌ as str_eq}
use netmate_flowcalc.Common.{
  ℕ, ◌+◌, Bool, true, false, ◌&&◌, List, [], ◌∷◌, ◌++◌, Option, none, some, ◌==◌, ltb,
  if◌then◌else◌,
}
use netmate_flowcalc.Common.Int.{ℤ, pos, negsuc}

-- An entry of the table: the rule, the export modules and the record.
pub record Entry : Type 0 where
  pub rule_id : ℕ
  pub expmods : List String
  pub fr : ℕ

-- flowRec_t, as it stands in the queue.
pub record FlowRec : Type 0 where
  pub expmods : List String
  pub fr : ℕ

-- Besides the members: the flag `deleteRec` of each record, and the records freed, the last one first.
pub record FlowRecordDb : Type 0 where
  pub db : List Entry
  pub elist : List FlowRec
  pub delete_rec : ℕ → Bool
  pub freed : List ℕ

-- The constructor.
unfoldable pub make : FlowRecordDb
make = record { db = []; elist = []; delete_rec = λ x. false; freed = [] }

-- saveDelete
unfoldable pub free : ℕ → FlowRecordDb → FlowRecordDb
free fr s = record s { freed = fr ∷ s.freed }

-- A record that was let go once before is freed, else it is marked.
unfoldable pub let_go : ℕ → FlowRecordDb → FlowRecordDb
unfolding free
let_go fr s =
    if s.delete_rec fr
    then free fr s
    else record s { delete_rec = λ x. if x == fr then true else s.delete_rec x }

same_mods : List String → List String → Bool
same_mods [] [] = true
same_mods [] (y ∷ ys) = false
same_mods (x ∷ xs) [] = false
same_mods (x ∷ xs) (y ∷ ys) = str_eq x y && same_mods xs ys

is_for : ℕ → List String → Entry → Bool
unfolding same_mods
is_for rule_id expmods e = e.rule_id == rule_id && same_mods e.expmods expmods

cons_entry : Entry → Option (ℕ × List Entry) → Option (ℕ × List Entry)
cons_entry e none = none
cons_entry e (some (old, es)) = some (old, e ∷ es)

-- The first entry of the rule with these modules gets the new record: the old record and the table.
pub replace : ℕ → List String → ℕ → List Entry → Option (ℕ × List Entry)
unfolding is_for cons_entry
replace rule_id expmods fr [] = none
replace rule_id expmods fr (e ∷ es) =
    if is_for rule_id expmods e
    then some (e.fr, record e { fr = fr } ∷ es)
    else cons_entry e (replace rule_id expmods fr es)

-- The multimap inserts behind the entries of the same rule.
pub insert_entry : Entry → List Entry → List Entry
insert_entry n [] = n ∷ []
insert_entry n (e ∷ es) = if ltb n.rule_id e.rule_id then n ∷ e ∷ es else e ∷ insert_entry n es

-- The table after the record was queued.
keep : ℕ → List String → ℕ → FlowRecordDb → Option (ℕ × List Entry) → FlowRecordDb
unfolding let_go insert_entry
keep rule_id expmods fr s none = record s {
  db = insert_entry (record { rule_id = rule_id; expmods = expmods; fr = fr }) s.db;
}
keep rule_id expmods fr s (some (old, es)) = record (let_go old s) { db = es }

-- `storeData`; `none` is NULL.
unfoldable pub store_data : ℤ → List String → Option ℕ → FlowRecordDb → FlowRecordDb
unfolding free keep replace
store_data rule_id expmods none s = s
store_data (negsuc n) expmods (some fr) s = free fr s
store_data (pos rule_id) expmods (some fr) s =
    keep rule_id expmods fr
      (record s { elist = s.elist ++ record { expmods = expmods; fr = fr } ∷ [] })
      (replace rule_id expmods fr s.db)

has_mod : String → List String → Bool
has_mod expmod [] = false
has_mod expmod (m ∷ ms) = if str_eq m expmod then true else has_mod expmod ms

is_empty : String → Bool
is_empty String.[] = true
is_empty (String.◌∷◌ c s) = false

find_entry : ℕ → String → List Entry → Option ℕ
unfolding has_mod
find_entry rule_id expmod [] = none
find_entry rule_id expmod (e ∷ es) =
    if e.rule_id == rule_id && has_mod expmod e.expmods
    then some e.fr
    else find_entry rule_id expmod es

-- `getData`; `none` is NULL.
unfoldable pub get_data : ℤ → String → FlowRecordDb → Option ℕ
unfolding find_entry is_empty
get_data (negsuc n) expmod s = none
get_data (pos rule_id) expmod s = if is_empty expmod then none else find_entry rule_id expmod s.db

-- The entries of the other rules, and the records of this one, the last one first.
others : ℕ → List Entry → List Entry
others rule_id [] = []
others rule_id (e ∷ es) = if e.rule_id == rule_id then others rule_id es else e ∷ others rule_id es

records_of : ℕ → List Entry → List ℕ → List ℕ
records_of rule_id [] freed = freed
records_of rule_id (e ∷ es) freed =
    records_of rule_id es (if e.rule_id == rule_id then e.fr ∷ freed else freed)

unfoldable pub del_data : ℤ → FlowRecordDb → FlowRecordDb
unfolding others records_of
del_data (negsuc n) s = s
del_data (pos rule_id) s = record s {
  db = others rule_id s.db;
  freed = records_of rule_id s.db s.freed;
}

unfoldable pub get_next_rec : FlowRecordDb → Option (FlowRec × FlowRecordDb)
get_next_rec s = elim s.elist [ [] ↦ none | r ∷ rs ↦ some (r, record s { elist = rs }) ]

-- One turn of `Exporter::handleFDEvent`: the record that is exported, and the state after it.
unfoldable pub export_next : FlowRecordDb → Option (ℕ × FlowRecordDb)
unfolding get_next_rec let_go
export_next s = elim (get_next_rec s) [ none ↦ none | some (r, t) ↦ some (r.fr, let_go r.fr t) ]
