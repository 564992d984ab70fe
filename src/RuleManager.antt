-- ===== src/RuleManager.antt =====
-- src/netmate/RuleManager.h and RuleManager.cc: the database of rules, its index by set and name, the
-- list of finished rules, and the events that adding and deleting rules put into the queue.
-- A rule object is only reached through the database and the list of finished rules, so a pointer is
-- the rule itself. Left out: parsing and the files of filter definitions, the texts of `getInfo`, the
-- log, and `activateRules`.
pub mod Index
pub mod Keeps
pub mod Database
pub mod Batch
mod Tests
use Prim.Native.String.{String}
use Prim.Native.Nat.{Ordering}
use Prim.Native.String.{compare}
use text.Mathlib.Text.{◌==◌ as str_eq}
use text.Mathlib.TextEquality.{eq_iff}
use netmate_flowcalc.Common.{
  ℕ, zero, suc, ◌+◌, ◌-◌, ◌≡◌, refl, Bool, true, false, ◌&&◌, List, [], ◌∷◌, ◌++◌, map, Option,
  none, some, ◌==◌, ltb, leb, if◌then◌else◌, length, set, replicate, get_elem?,
}
use netmate_flowcalc.Common.Int.{ℤ, pos, negsuc, ◌+ℤ◌, ◌-ℤ◌}
use netmate_flowcalc.Common.Maps.{Keys, find, assign, erase}
use netmate_flowcalc.IdSource.{RuleIdSource, new_id, free_id}
use netmate_flowcalc.IdSource as ids
use netmate_flowcalc.Timeval.{Timeval}
use netmate_flowcalc.Scheduler.{
  Event, Body, activate_rules, remove_rules, make_in, add_event, del_rule_events,
}

-- ruleState_t
pub data RuleState : Type 0 where
  rs_new rs_valid rs_scheduled rs_active rs_done rs_error : RuleState

-- Rule, as far as the manager reads and writes it. The time 0 is no stop.
pub record Rule : Type 0 where
  pub uid : ℕ
  pub state : RuleState
  pub set_name : String
  pub rule_name : String
  pub start : ℕ
  pub stop : ℕ

pub record RuleManager : Type 0 where
  pub tasks : ℤ
  pub rule_set_index : List (String × List (String × ℕ))
  pub rule_db : List (Option Rule)
  pub rule_done : List Rule
  pub id_source : RuleIdSource

-- The constructor; the id source is built with its default argument.
unfoldable pub make : RuleManager
make = record {
  tasks = pos 0;
  rule_set_index = [];
  rule_db = [];
  rule_done = [];
  id_source = ids.make 0;
}

-- A place behind the end of the vector is read if the uid is its size.
pub data Access : Type 0 where
  rule : Rule → Access
  null : Access
  out_of_bounds : Access

read_db : Option (Option Rule) → Access
read_db none = out_of_bounds
read_db (some none) = null
read_db (some (some r)) = rule r

unfoldable pub get_rule : RuleManager → ℤ → Access
unfolding read_db
get_rule m (negsuc n) = null
get_rule m (pos uid) =
    if leb uid (length m.rule_db) then read_db (get_elem? m.rule_db uid) else null

abbrev pub names : Keys String
names = record {
  same = str_eq;
  less = λ s t. elim (compare s t) [ Ordering.lt ↦ true | _ ↦ false ];
  same_refl = λ s. (eq_iff s s).1 refl;
  same_eq = λ s t. (eq_iff s t).0;
}

-- ruleSetIndex_t
abbrev pub Index : Type 0
Index = List (String × List (String × ℕ))

unfoldable pub find_uid : String → String → Index → Option ℕ
find_uid sname rname index = elim (find names sname index) [
  | none ↦ none
  | some rules ↦ find names rname rules
]

-- `ruleSetIndex[sname]`, which is empty if it is not there.
unfoldable pub rules_of : String → Index → List (String × ℕ)
rules_of sname index = elim (find names sname index) [ none ↦ [] | some rules ↦ rules ]

unfoldable pub assign_uid : String → String → ℕ → Index → Index
unfolding rules_of
assign_uid sname rname uid index =
    assign names sname (assign names rname uid (rules_of sname index)) index

-- A set without rules goes.
prune_set : String → List (String × ℕ) → Index → Index
prune_set sname [] index = erase names sname index
prune_set sname (r ∷ rs) index = index

unfoldable pub erase_uid : String → String → Index → Index
unfolding rules_of prune_set
erase_uid sname rname index =
    let rules = erase names rname (rules_of sname index) in
    prune_set sname rules (assign names sname rules index)

unfoldable pub get_rule_named : RuleManager → String → String → Access
unfolding find_uid get_rule
get_rule_named m sname rname = elim (find_uid sname rname m.rule_set_index) [
  | none ↦ null
  | some uid ↦ get_rule m (pos uid)
]

-- The result of a call that may throw an `Error`, or read out of bounds.
pub data Outcome (A : Type 0) : Type 0 where
  ok : A → Outcome A
  error : Outcome A
  undefined : Outcome A

-- resize
unfoldable pub grow : List (Option Rule) → ℕ → List (Option Rule)
grow db uid = if leb (length db) uid then db ++ replicate (uid + 1 - length db) none else db

-- The rule as it is stored.
unfoldable pub as_valid : Rule → ℕ → Rule
as_valid r uid = record r { uid = uid; state = rs_valid }

unfoldable pub put_rule : RuleManager → Rule → RuleManager
unfolding grow as_valid assign_uid
put_rule m r =
    let (uid, ids) = new_id m.id_source in
    record m {
      id_source = ids;
      rule_db = set (grow m.rule_db uid) uid (some (as_valid r uid));
      rule_set_index = assign_uid r.set_name r.rule_name uid m.rule_set_index;
      tasks = m.tasks +ℤ pos 1;
    }

-- `addRule`. Nothing that its `try` block calls throws.
unfoldable pub add_rule : RuleManager → Rule → Outcome RuleManager
unfolding put_rule
add_rule m r = elim (get_rule_named m r.set_name r.rule_name) [
  | rule old ↦ error
  | null ↦ ok (put_rule m r)
  | out_of_bounds ↦ undefined
]

-- DONE_LIST_SIZE
abbrev pub done_list_size : ℕ
done_list_size = 50

-- The oldest finished rule goes, and its id is released.
pop_done : RuleManager → List Rule → RuleManager
pop_done m [] = m
pop_done m (r ∷ rs) = record m { rule_done = rs; id_source = free_id m.id_source r.uid }

unfoldable pub store_rule_as_done : RuleManager → Rule → RuleManager
unfolding pop_done
store_rule_as_done m r =
    let done = m.rule_done ++ record r { state = rs_done } ∷ [] in
    if ltb done_list_size (length done) then pop_done m done else record m { rule_done = done }

-- `delRule(Rule *r, EventScheduler *e)`; `none` is NULL.
unfoldable pub del_rule :
    RuleManager → Rule → Option (List Event) → RuleManager × Option (List Event)
unfolding store_rule_as_done erase_uid
del_rule m r e =
    let stored = store_rule_as_done m r in
    (
      record stored {
        rule_db = set m.rule_db r.uid none;
        rule_set_index = erase_uid r.set_name r.rule_name m.rule_set_index;
        tasks = m.tasks -ℤ pos 1;
      },
      elim e [ none ↦ none | some es ↦ some (del_rule_events r.uid es) ],
    )

del_access :
    RuleManager → Access → Option (List Event) → Outcome (RuleManager × Option (List Event))
unfolding del_rule
del_access m (rule r) e = ok (del_rule m r e)
del_access m null e = error
del_access m out_of_bounds e = undefined

unfoldable pub del_rule_uid :
    RuleManager → ℤ → Option (List Event) → Outcome (RuleManager × Option (List Event))
unfolding del_access get_rule
del_rule_uid m uid e = del_access m (get_rule m uid) e

is_empty : String → Bool
is_empty String.[] = true
is_empty (String.◌∷◌ c s) = false

unfoldable pub del_rule_named :
    RuleManager
    → String
    → String
    → Option (List Event)
    → Outcome (RuleManager × Option (List Event))
unfolding del_access get_rule_named is_empty
del_rule_named m sname rname e =
    if is_empty sname && is_empty rname
    then error
    else del_access m (get_rule_named m sname rname) e

-- `delRules(ruleDB_t *rules, …)`
unfoldable pub del_rules :
    RuleManager → List Rule → Option (List Event) → RuleManager × Option (List Event)
unfolding del_rule
del_rules m [] e = (m, e)
del_rules m (r ∷ rs) e = let (m', e') = del_rule m r e in del_rules m' rs e'
