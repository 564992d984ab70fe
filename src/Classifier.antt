-- ===== src/Classifier.antt =====
-- src/netmate/ClassifierSimple.h and ClassifierSimple.cc: the classifier that tries every rule in
-- turn. An array of bytes is a function of the index, since the code checks no bounds; a thrown
-- `Error` and the early return are values. The logger, the lock and the dump are left out.
pub mod Update
pub mod Numbers
pub mod Report
pub mod Ids
pub mod Table
mod Tests
use Prim.Native.Nat.{bit_and, compare, Ordering}
use netmate_flowcalc.Common.{
  ℕ, zero, suc, ◌+◌, ◌*◌, ◌/◌, ◌%◌, Bool, true, false, ◌&&◌, ◌||◌, not, List, [], ◌∷◌, Option, none,
  some, ◌==◌, ltb, if◌then◌else◌,
}
use netmate_flowcalc.Common.Int.{ℤ, pos, negsuc, ◌+ℤ◌, ltb_ℤ}
use netmate_flowcalc.Common.Maps.{Keys, insert, find, erase}

pub data FilterType : Type 0 where
  ft_exact ft_range ft_set ft_wild : FilterType

-- match_t
pub record Match : Type 0 where
  pub type : FilterType
  pub refer : ℕ
  pub offs : ℕ
  pub len : ℕ
  pub cnt : ℕ
  pub value : ℕ → ℕ → ℕ
  pub mask : ℕ → ℕ

-- metaData_t, as far as the classifier reads and writes it. `match` of the source is `matches`; it
-- has 128 places, and `payload` begins behind it.
pub record MetaData : Type 0 where
  pub offs : ℕ → ℤ
  pub payload : ℕ → ℕ
  pub reverse : ℕ
  pub match_cnt : ℕ
  pub matches : ℕ → ℕ

-- `memcmp` of `n` bytes from the index `i` on.
abbrev pub memcmp_from : (ℕ → ℕ) → (ℕ → ℕ) → ℕ → ℕ → Ordering
memcmp_from a b i zero = Ordering.eq
memcmp_from a b i (suc n) = elim (compare (a i) (b i)) [
  | Ordering.lt ↦ Ordering.lt
  | Ordering.eq ↦ memcmp_from a b (i + 1) n
  | Ordering.gt ↦ Ordering.gt
]

abbrev pub is_lt : Ordering → Bool
is_lt Ordering.lt = true
is_lt _ = false

abbrev pub is_eq : Ordering → Bool
is_eq Ordering.eq = true
is_eq _ = false

abbrev pub is_gt : Ordering → Bool
is_gt Ordering.gt = true
is_gt _ = false

-- The loop over the values of a set, with `n` values from `c` on left.
in_set : Match → (ℕ → ℕ) → ℕ → ℕ → Bool
in_set m tmp c zero = false
in_set m tmp c (suc n) =
    let rest = in_set m tmp (c + 1) n in
    if is_eq (memcmp_from tmp (m.value c) 0 m.len) then true else rest

-- Whether the masked bytes fit the match.
unfoldable pub accepts : Match → (ℕ → ℕ) → Bool
unfolding in_set
accepts m tmp = elim m.type [
  | ft_wild ↦ true
  | ft_exact ↦ is_eq (memcmp_from tmp (m.value 0) 0 m.len)
  | ft_range ↦
      not
        (is_lt (memcmp_from tmp (m.value 0) 0 m.len) || is_gt (memcmp_from tmp (m.value 1) 0 m.len))
  | ft_set ↦ in_set m tmp 0 m.cnt
]

-- tmp[i] = pval[i] & m->mask[i], where the header starts at `o`.
abbrev pub masked : MetaData → Match → ℕ → ℕ → ℕ
masked pkt m o i = bit_and (pkt.payload (o + m.offs + i)) (m.mask i)

-- The loop over the matches of a rule: `found`, or the `return 0`.
unfoldable pub try_matches : MetaData → List Match → Option Bool
unfolding accepts
try_matches pkt [] = some true
try_matches pkt (m ∷ ms) =
    let rest = try_matches pkt ms in
    elim (pkt.offs m.refer) [
      | negsuc n ↦ none
      | pos o ↦ if accepts m (masked pkt m o) then rest else some false
    ]

-- MAX_RULES_MATCH
abbrev pub max_rules_match : ℕ
max_rules_match = 128

pub data Verdict : Type 0 where
  too_many : MetaData → Verdict
  returned : ℕ → MetaData → Verdict

abbrev pub put : (ℕ → ℕ) → ℕ → ℕ → ℕ → ℕ
put a i v j = if j == i then v else a j

-- Byte `j` of a number, the lowest first.
abbrev pub byte_of : ℕ → ℕ → ℕ
byte_of v zero = v % 256
byte_of v (suc j) = byte_of (v / 256) j

-- `match[128]` is the first four bytes of the payload.
abbrev pub spill : ℕ → (ℕ → ℕ) → ℕ → ℕ
spill v payload j = if ltb j 4 then byte_of v j else payload j

record_match : ℕ → MetaData → MetaData
record_match key pkt = record pkt {
  matches = put pkt.matches pkt.match_cnt (key / 2);
  payload = if pkt.match_cnt == max_rules_match then spill (key / 2) pkt.payload else pkt.payload;
  reverse = if key % 2 == 1 then 1 else pkt.reverse;
  match_cnt = pkt.match_cnt + 1;
}

-- r->first == last_match + 1
unfoldable pub follows : ℤ → ℕ → Bool
follows (pos last) key = key == last + 1
follows (negsuc zero) key = key == 0
follows (negsuc (suc n)) key = false

-- What the body of the loop over the rules does.
pub data Step : Type 0 where
  stop skip throw_error report : Step

decide : ℕ → ℤ → MetaData → Option Bool → Step
unfolding follows
decide key last pkt none = stop
decide key last pkt (some found) =
    if not found || follows last key
    then skip
    else if ltb max_rules_match pkt.match_cnt
    then throw_error
    else report

classify_rules : List (ℕ × List Match) → ℤ → MetaData → Verdict
unfolding decide try_matches record_match
classify_rules [] last pkt = returned pkt.match_cnt pkt
classify_rules ((key, ms) ∷ rules) last pkt = elim (decide key last pkt (try_matches pkt ms)) [
  | stop ↦ returned 0 pkt
  | skip ↦ classify_rules rules last pkt
  | throw_error ↦ too_many pkt
  | report ↦ classify_rules rules (pos key) (record_match key pkt)
]

-- The return value, and the packet's data after the call. `last_match` starts as -2.
unfoldable pub classify : List (ℕ × List Match) → MetaData → Verdict
unfolding classify_rules
classify rules pkt = classify_rules rules (negsuc 1) (record pkt { match_cnt = 0 })
