-- ===== src/IdSource.antt =====
-- src/netmate/RuleIdSource.h and RuleIdSource.cc: the source of numeric rule and flow ids.
pub mod Issue
mod Tests
use netmate_flowcalc.Common.{
  ℕ, suc, ◌+◌, ◌-◌, ◌%◌, ◌^◌, Bool, List, [], ◌∷◌, ◌++◌, ◌==◌, if◌then◌else◌,
}

-- unsigned long long
abbrev pub u64_mod : ℕ
u64_mod = 2 ^ 64

pub record RuleIdSource : Type 0 where
  pub num : ℕ
  pub unique : ℕ
  pub free_ids : List ℕ

-- The constructor.
unfoldable pub make : ℕ → RuleIdSource
make unique = record { num = 0; unique = unique; free_ids = [] }

-- The id, and the source after the call. `num++` wraps.
unfoldable pub new_id : RuleIdSource → ℕ × RuleIdSource
new_id s = elim s.free_ids [
  | [] ↦ (s.num, record s { num = (s.num + 1) % u64_mod })
  | id ∷ rest ↦ (id, record s { free_ids = rest })
]

-- `num--` wraps.
unfoldable pub free_id : RuleIdSource → ℕ → RuleIdSource
free_id s id =
    if s.unique == 0
    then record s { free_ids = s.free_ids ++ id ∷ []; num = (s.num + u64_mod - 1) % u64_mod }
    else s

-- A history of calls.
pub data Call : Type 0 where
  new : Call
  free : ℕ → Call

-- The ids that a history hands out, in order.
pub issued : RuleIdSource → List Call → List ℕ
issued s [] = []
issued s (new ∷ cs) = let (id, s') = new_id s in id ∷ issued s' cs
issued s (free id ∷ cs) = issued (free_id s id) cs
