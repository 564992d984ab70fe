-- ===== src/Classifier/Update.antt =====
-- `addRules`, `delRules` and the tables of src/netmate/ClassifierSimple.cc that they change.
use Prim.Native.Nat.{bit_and}
use Prim.Native.String.{String}
use netmate_flowcalc.Common.{
  ℕ, ◌+◌, ◌-◌, ◌*◌, Bool, true, false, ◌&&◌, ◌||◌, not, List, [], ◌∷◌, none, some, ltb,
  if◌then◌else◌,
}
use netmate_flowcalc.Common.Maps.{int_keys, insert, find, erase}
use netmate_flowcalc.Classifier.{FilterType, Match}

-- FilterValue
pub record FilterValue : Type 0 where
  pub val : ℕ → ℕ
  pub len : ℕ

-- filter_t, as far as the classifier reads it.
pub record Filter : Type 0 where
  pub rname : String
  pub mtype : FilterType
  pub refer : ℕ
  pub rrefer : ℕ
  pub offs : ℕ
  pub roffs : ℕ
  pub len : ℕ
  pub cnt : ℕ
  pub fdmask : FilterValue
  pub mask : FilterValue
  pub value : ℕ → FilterValue

-- Rule, as far as the classifier reads it.
pub record Rule : Type 0 where
  pub uid : ℕ
  pub filter : List Filter
  pub bidir : Bool

pub record ClassifierSimple : Type 0 where
  pub rules : List (ℕ × List Match)
  -- stats->rules
  pub stats_rules : ℕ

abbrev pub is_empty : String → Bool
is_empty String.[] = true
is_empty (String.◌∷◌ c s) = false

-- memcpy of the first `n` bytes.
abbrev pub memcpy : (ℕ → ℕ) → (ℕ → ℕ) → ℕ → ℕ → ℕ
memcpy dst src n i = if ltb i n then src i else dst i

-- The match of a filter, written over the one of the filter before.
unfoldable pub fill_match : Bool → Filter → Match → Match
fill_match forward f m =
    let own = forward || is_empty f.rname in
    record {
      type = f.mtype;
      refer = if own then f.refer else f.rrefer;
      offs = if own then f.offs else f.roffs;
      len = f.len;
      cnt = f.cnt;
      value = λ c.
          if ltb c f.cnt then memcpy (m.value c) (f.value c).val (f.value c).len else m.value c;
      mask = memcpy m.mask (λ i. bit_and (f.mask.val i) (f.fdmask.val i)) f.len;
    }

-- The loop over the filters.
unfoldable pub fill_matches : Bool → List Filter → Match → List Match
unfolding fill_match
fill_matches forward [] m = []
fill_matches forward (f ∷ fs) m =
    fill_match forward f m ∷ fill_matches forward fs (fill_match forward f m)

unfoldable pub reverses : List Filter → Bool
reverses [] = false
reverses (f ∷ fs) = not (is_empty f.rname) || reverses fs

-- Forward rules have even keys, backward ones odd keys.
abbrev pub key_of : Rule → Bool → ℕ
key_of r forward = if forward then r.uid * 2 else r.uid * 2 + 1

-- The match on the stack is not initialised: `stack` is what it holds.
unfoldable pub add_rule : Match → ClassifierSimple → Rule → Bool → ClassifierSimple
unfolding fill_matches reverses
add_rule stack c r forward = if not forward && not (reverses r.filter) then c else record {
  rules = insert int_keys (key_of r forward) (fill_matches forward r.filter stack) c.rules;
  stats_rules = c.stats_rules + 1;
}

unfoldable pub del_rule : ClassifierSimple → Rule → Bool → ClassifierSimple
del_rule c r forward = elim (find int_keys (key_of r forward) c.rules) [
  | none ↦ c
  | some ms ↦ record {
    rules = erase int_keys (key_of r forward) c.rules;
    stats_rules = c.stats_rules - 1;
  }
]

unfoldable pub add_both : Match → ClassifierSimple → Rule → ClassifierSimple
unfolding add_rule
add_both stack c r =
    let added = add_rule stack c r true in if r.bidir then add_rule stack added r false else added

unfoldable pub del_both : ClassifierSimple → Rule → ClassifierSimple
unfolding del_rule
del_both c r =
    let deleted = del_rule c r true in if r.bidir then del_rule deleted r false else deleted

unfoldable pub add_rules : Match → ClassifierSimple → List Rule → ClassifierSimple
unfolding add_both
add_rules stack c [] = c
add_rules stack c (r ∷ rs) = add_rules stack (add_both stack c r) rs

unfoldable pub del_rules : ClassifierSimple → List Rule → ClassifierSimple
unfolding del_both
del_rules c [] = c
del_rules c (r ∷ rs) = del_rules (del_both c r) rs
