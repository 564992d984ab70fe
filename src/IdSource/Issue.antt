-- ===== src/IdSource/Issue.antt =====
-- Which ids a RuleIdSource hands out: all different with the flag `unique`, and not without it.
use mathlib.Core.List.{Mem, Nodup, Nodup-cons, Nodup-nil, mem-cons, not-mem-nil}
use mathlib.Core.Logic.Or
use native.Mathlib.Bridge.{le_prop}
use netmate_flowcalc.Common.{
  ℕ, zero, suc, ◌+◌, ◌%◌, ◌<◌, ◌≤◌, ◌≡◌, refl, ap, ◌≢◌, List, [], ◌∷◌, arith,
}
use netmate_flowcalc.IdSource.{
  RuleIdSource, Call, new, free, make, new_id, free_id, issued, u64_mod,
}

-- The numbers from `n` on, `k` of them.
abbrev pub count_up : ℕ → ℕ → List ℕ
count_up n zero = []
count_up n (suc k) = n ∷ count_up (n + 1) k

abbrev pub count_new : List Call → ℕ
count_new [] = 0
count_new (new ∷ cs) = suc (count_new cs)
count_new (free id ∷ cs) = count_new cs

ge_of_mem : (k n x : ℕ) → Mem x (count_up n k) → n ≤ x
ge_of_mem zero n x m = absurd (not-mem-nil m)
ge_of_mem (suc k) n x m =
    Or.elim le_prop (mem-cons.0 m) (λ e. omega arith) (λ t. omega (arith, ge_of_mem k (n + 1) x t))

count_up-Nodup : (n k : ℕ) → Nodup (count_up n k)
count_up-Nodup n zero = Nodup-nil
count_up-Nodup n (suc k) =
    Nodup-cons.1 ((λ m. absurd (omega (arith, ge_of_mem k (n + 1) n m))), count_up-Nodup (n + 1) k)

module _ (u : ℕ) (unique : u ≢ 0) where
  issued_from :
      (cs : List Call) (n : ℕ)
      → n + count_new cs < u64_mod
      → issued (record { num = n; unique = u; free_ids = [] }) cs ≡ count_up n (count_new cs)
  unfolding issued new_id free_id
  issued_from [] n b = refl
  issued_from (new ∷ cs) n b =
      let step : (n + 1) % u64_mod ≡ n + 1 = omega arith in
      rw step (ap (◌∷◌ n) (issued_from cs (n + 1) (omega arith)))
  issued_from (free id ∷ cs) n b = ground (arith, issued_from cs n)

  -- With `unique` set, whatever is freed in between, the ids are 0, 1, 2, … in the order of the
  -- calls of `newId`, as long as fewer than 2^64 are asked for.
  pub issued_unique :
      (cs : List Call) → count_new cs < u64_mod → issued (make u) cs ≡ count_up 0 (count_new cs)
  unfolding make
  issued_unique cs b = issued_from cs 0 (omega arith)

  -- With `unique` set and fewer than 2^64 calls of `newId`, no id is handed out twice.
  pub issued-Nodup : (cs : List Call) → count_new cs < u64_mod → Nodup (issued (make u) cs)
  issued-Nodup cs b = rw (issued_unique cs b) (count_up-Nodup 0 (count_new cs))

-- Without `unique`, a freed id lowers `num` as well as going on the free list. So after two ids are
-- taken and the first is given back, the next two calls hand out the first again and then the
-- second, which is still in use.
pub new_id-free_id_collides :
    (s : RuleIdSource)
    → s.unique ≡ 0
    → s.free_ids ≡ []
    → s.num + 2 < u64_mod
    → let (a, s₁) = new_id s in
      let (b, s₂) = new_id s₁ in
      let (c, s₃) = new_id (free_id s₂ a) in (c ≡ a) × ((new_id s₃).0 ≡ b)
unfolding new_id free_id
new_id-free_id_collides s u f b = ground arith
