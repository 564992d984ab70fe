-- ===== src/Bitmap/Tests.antt =====
-- Runs of the bitmaps, and their theorems at concrete maps.
use Prim.Native.Nat.{bit_and}
use netmate_flowcalc.Common.{◌≡◌, refl, inl, inr, true, arith, ltb, if◌then◌else◌, ◌==◌}
use netmate_flowcalc.Bitmap.{Bitmap, bm_and, bm_compare, bm_reset, bm_reset_all, bm_set, bm_test}
use netmate_flowcalc.Bitmap.Words.{IsTight, bm_and-IsTight}
use netmate_flowcalc.Bitmap.Compare.{bm_compare-number, number}

abbrev two_bits : Bitmap
two_bits = bm_set (bm_set bm_reset_all 3) 70

set_and_reset : bm_test (bm_reset two_bits 70) 3 ≡ true
unfolding bm_set bm_reset bm_reset_all bm_test
set_and_reset = refl

-- The words 5 and, above it, 2.
abbrev high : Bitmap
high = record { msb = 1; b = λ i. if i == 0 then 5 else if i == 1 then 2 else 0 }

abbrev low : Bitmap
low = record { msb = 0; b = λ i. if i == 0 then 12 else 0 }

high-IsTight : IsTight high
high-IsTight = record { zero_above = λ i l. ground arith; top = inr (omega arith) }

low-IsTight : IsTight low
low-IsTight = record { zero_above = λ i l. ground arith; top = inl refl }

bm_and-IsTight_example : IsTight (bm_and high low) × ((bm_and high low).b 0 ≡ bit_and 5 12)
bm_and-IsTight_example = bm_and-IsTight high low 0 high-IsTight low-IsTight

bm_compare-number_example :
    bm_compare low high ≡ (if ltb (number low.b 31) (number high.b 31) then 1 else 0)
bm_compare-number_example =
    bm_compare-number low high 31 low-IsTight high-IsTight (λ i. ground arith) (λ i. ground arith)
      (omega arith) (omega arith)
