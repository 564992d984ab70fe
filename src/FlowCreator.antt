-- ===== src/FlowCreator.antt =====
-- src/netmate/FlowCreator.h and FlowCreator.cc: the flows of a rule, by their keys. The hash map is
-- a list in the order of insertion; a key is the list of its bytes. The hash of a key only chooses
-- the bucket and is left out.
pub mod Lookup
use netmate_flowcalc.Common.{
  ℕ, Bool, true, false, ◌&&◌, List, [], ◌∷◌, Option, none, some, ◌==◌, length, if◌then◌else◌,
}
use netmate_flowcalc.Common.{◌≡◌, refl, arith}
use netmate_flowcalc.Common.Maps.{Keys, find, insert, erase, assign}
use netmate_flowcalc.IdSource.{RuleIdSource, make, new_id, free_id}
use netmate_flowcalc.ProcModule.{PpAction}

-- flowInfo_t. `keyData` and `len` are one list.
pub record FlowInfo (S : Type 0) : Type 0 where
  pub last_pkt : ℕ
  pub actions : List (PpAction S)
  pub key_data : List ℕ
  pub flow_id : ℕ
  pub new_flow : ℕ

-- `memcmp` of as many bytes as the first list has.
unfoldable pub same_bytes : List ℕ → List ℕ → Bool
same_bytes [] [] = true
same_bytes [] (y ∷ ys) = true
same_bytes (x ∷ xs) [] = false
same_bytes (x ∷ xs) (y ∷ ys) = if x == y then same_bytes xs ys else false

-- eqkey
unfoldable pub eqkey : List ℕ → List ℕ → Bool
unfolding same_bytes
eqkey a b = if length a == length b then same_bytes a b else false

pub eqkey_refl : (a : List ℕ) → eqkey a a ≡ true
unfolding eqkey same_bytes
eqkey_refl [] = refl
eqkey_refl (x ∷ xs) = ground (arith, eqkey_refl xs)

pub eqkey_eq : (a b : List ℕ) → eqkey a b ≡ true → a ≡ b
unfolding eqkey same_bytes
eqkey_eq [] [] h = refl
eqkey_eq [] (y ∷ ys) h = ground arith
eqkey_eq (x ∷ xs) [] h = ground arith
eqkey_eq (x ∷ xs) (y ∷ ys) h = ground (arith, eqkey_eq xs ys)

-- The comparison of the hash map. Nothing is less, so a new key goes to the end.
abbrev pub flow_keys : Keys (List ℕ)
flow_keys = record { same = eqkey; less = λ a b. false; same_refl = eqkey_refl; same_eq = eqkey_eq }

pub record FlowCreator (S : Type 0) : Type 0 where
  pub id_source : RuleIdSource
  pub flows : List (List ℕ × FlowInfo S)

module _ {S : Type 0} where
  -- The constructor.
  unfoldable pub make_flows : FlowCreator S
  make_flows = record { id_source = make 1; flows = [] }

  -- `none` is NULL.
  unfoldable pub get_flow : List ℕ → FlowCreator S → Option (FlowInfo S)
  get_flow key fc = find flow_keys key fc.flows

  -- The entry that `addFlow` makes; `lastPkt` is set by the caller.
  unfoldable pub new_entry : List ℕ → ℕ → FlowInfo S
  new_entry key id = record {
    last_pkt = 0;
    actions = [];
    key_data = key;
    flow_id = id;
    new_flow = 1;
  }

  existing : FlowInfo S → Option (FlowInfo S) → FlowInfo S
  existing entry none = entry
  existing entry (some f) = f

  -- The entry returned is the one in the map, so an old one if the key is there.
  unfoldable pub add_flow : List ℕ → FlowCreator S → FlowInfo S × FlowCreator S
  unfolding new_entry existing
  add_flow key fc =
      let (id, ids) = new_id fc.id_source in
      let entry = new_entry key id in
      (
        existing entry (find flow_keys key fc.flows),
        record { id_source = ids; flows = insert flow_keys key entry fc.flows },
      )

  -- `deleteFlow` of a flow by its pointer: the key is read from the flow.
  unfoldable pub delete_flow : FlowInfo S → FlowCreator S → FlowCreator S
  delete_flow f fc = record {
    id_source = free_id fc.id_source f.flow_id;
    flows = erase flow_keys f.key_data fc.flows;
  }

  -- What the caller writes through the pointer to the flow of a key.
  unfoldable pub write_flow : List ℕ → FlowInfo S → FlowCreator S → FlowCreator S
  write_flow key f fc = record fc { flows = assign flow_keys key f fc.flows }

  unfoldable pub set_last_time : ℕ → FlowInfo S → FlowInfo S
  set_last_time time f = record f { last_pkt = time }

  -- `deleteFlow` of the entry at a place of the map.
  unfoldable pub delete_at : List ℕ → FlowInfo S → FlowCreator S → FlowCreator S
  delete_at key f fc = record {
    id_source = free_id fc.id_source f.flow_id;
    flows = erase flow_keys key fc.flows;
  }
