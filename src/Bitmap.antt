-- ===== src/Bitmap.antt =====
-- src/netmate/Bitmap.h and Bitmap.cc: sets of rules as arrays of 64-bit words, with the index of the
-- highest word in use. `bmSet` and `bmReset` of the whole map, and of one bit, `bmTest`, `bmIsZero`,
-- `bmAnd` and `bmCompare`; printing is left out. The result of `bmAnd` is another map than its
-- arguments.
pub mod Words
pub mod Compare
mod Tests
use Prim.Native.Nat.{bit_and, bit_or}
use netmate_flowcalc.Common.{
  ℕ, zero, suc, ◌+◌, ◌-◌, ◌*◌, ◌/◌, ◌%◌, ◌^◌, Bool, true, false, ◌&&◌, not, ◌==◌, ltb,
  if◌then◌else◌,
}

abbrev pub bits_per_elem : ℕ
bits_per_elem = 64

-- MAX_RULES / BITS_PER_ELEM
abbrev pub bitmap_size : ℕ
bitmap_size = 2048 / bits_per_elem

-- bitmap_t
pub record Bitmap : Type 0 where
  pub msb : ℕ
  pub b : ℕ → ℕ

-- 1ULL << (bpos % BITS_PER_ELEM)
abbrev bit : ℕ → ℕ
bit bpos = 2 ^ (bpos % bits_per_elem)

unfoldable pub bm_test : Bitmap → ℕ → Bool
bm_test bm bpos = ltb 0 (bit_and (bm.b (bpos / bits_per_elem)) (bit bpos))

abbrev pub put : (ℕ → ℕ) → ℕ → ℕ → ℕ → ℕ
put b i w j = if j == i then w else b j

unfoldable pub bm_set : Bitmap → ℕ → Bitmap
bm_set bm bpos =
    let i = bpos / bits_per_elem in
    record { msb = if ltb bm.msb i then i else bm.msb; b = put bm.b i (bit_or (bm.b i) (bit bpos)) }

-- while ((bm->msb > 0) && ((bm->b)[bm->msb] == 0ULL))
unfoldable pub lower : (ℕ → ℕ) → ℕ → ℕ
lower b zero = zero
lower b (suc i) = if b (suc i) == 0 then lower b i else suc i

-- x & ~bit
clear_bit : ℕ → ℕ → ℕ
clear_bit w bpos = bit_and w (2 ^ 64 - 1 - bit bpos)

unfoldable pub bm_reset : Bitmap → ℕ → Bitmap
unfolding lower clear_bit
bm_reset bm bpos =
    let b = put bm.b (bpos / bits_per_elem) (clear_bit (bm.b (bpos / bits_per_elem)) bpos) in
    record { msb = lower b bm.msb; b = b }

-- The whole map; the words behind it are not used.
unfoldable pub bm_set_all : Bitmap
bm_set_all = record { msb = bitmap_size - 1; b = λ i. if ltb i bitmap_size then 2 ^ 64 - 1 else 0 }

unfoldable pub bm_reset_all : Bitmap
bm_reset_all = record { msb = 0; b = λ i. 0 }

unfoldable pub bm_is_zero : Bitmap → Bool
bm_is_zero bm = bm.msb == 0 && bm.b 0 == 0

-- The body of the loop, for the word `i`.
and_word : Bitmap → Bitmap → ℕ → Bitmap → Bitmap
and_word bm1 bm2 i res =
    let w = bit_and (bm1.b i) (bm2.b i) in
    record { msb = if res.msb == 0 && not (w == 0) then i else res.msb; b = put res.b i w }

-- The loop, from the word `i` down to 0.
unfoldable pub and_from : Bitmap → Bitmap → ℕ → Bitmap → Bitmap
unfolding and_word
and_from bm1 bm2 zero res = and_word bm1 bm2 0 res
and_from bm1 bm2 (suc i) res = and_from bm1 bm2 i (and_word bm1 bm2 (suc i) res)

unfoldable pub bm_and : Bitmap → Bitmap → Bitmap
unfolding and_from bm_reset_all
bm_and bm1 bm2 = and_from bm1 bm2 (if ltb bm1.msb bm2.msb then bm1.msb else bm2.msb) bm_reset_all

-- The words from `i` down to 0; the result is 1 or 0.
unfoldable pub compare_from : (ℕ → ℕ) → (ℕ → ℕ) → ℕ → ℕ
compare_from b1 b2 zero = if ltb (b1 0) (b2 0) then 1 else 0
compare_from b1 b2 (suc i) =
    if ltb (b1 (suc i)) (b2 (suc i))
    then 1
    else if ltb (b2 (suc i)) (b1 (suc i))
    then 0
    else compare_from b1 b2 i

unfoldable pub bm_compare : Bitmap → Bitmap → ℕ
unfolding compare_from
bm_compare b1 b2 =
    if not (b1.msb == b2.msb)
    then (if ltb b1.msb b2.msb then 1 else 0)
    else compare_from b1.b b2.b b1.msb
