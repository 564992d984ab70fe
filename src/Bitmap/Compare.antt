-- ===== src/Bitmap/Compare.antt =====
-- `bmCompare` of src/netmate/Bitmap.cc against the order of the numbers that the maps stand for.
use native.Mathlib.Nat.{mul-le-mul_right}
use netmate_flowcalc.Common.{
  ℕ, zero, suc, ◌+◌, ◌*◌, ◌^◌, ◌<◌, ◌≤◌, ◌≡◌, ◌≢◌, inl, inr, refl, ap, sym, arith, ltb,
  if◌then◌else◌, eq_or_ne, lead_lt, trichotomy,
}
use netmate_flowcalc.Bitmap.{Bitmap, bm_compare, compare_from}
use netmate_flowcalc.Bitmap.Words.{IsTight}

abbrev weight : ℕ → ℕ
weight zero = 1
weight (suc n) = weight n * 2 ^ 64

-- The number that the words from `i` down to 0 stand for.
abbrev pub number : (ℕ → ℕ) → ℕ → ℕ
number b zero = b 0
number b (suc i) = b (suc i) * weight (suc i) + number b i

-- Each word has 64 bits.
abbrev pub AllWords : (ℕ → ℕ) → Type 0
AllWords b = (i : ℕ) → b i < 2 ^ 64

number_lt : (b : ℕ → ℕ) (i : ℕ) → AllWords b → number b i < weight (suc i)
number_lt b zero w = omega (arith, w 0)
number_lt b (suc i) w =
    let m : b (suc i) * weight (suc i) ≤ 18446744073709551615 * weight (suc i) =
      mul-le-mul_right (weight (suc i)) (omega (arith, w (suc i))) in
    omega (arith, number_lt b i w)

abbrev one_if_lt : ℕ → ℕ → ℕ
one_if_lt x y = if ltb x y then 1 else 0

compare_from-number :
    (a b : ℕ → ℕ) (i : ℕ)
    → AllWords a
    → AllWords b
    → compare_from a b i ≡ one_if_lt (number a i) (number b i)
unfolding compare_from
compare_from-number a b zero v w = refl
compare_from-number a b (suc i) v w = elim (trichotomy (a (suc i)) (b (suc i))) [
  | inl l ↦
      let c =
        lead_lt (a (suc i)) (b (suc i)) (weight (suc i)) (number a i) (number b i) l
          (number_lt a i v) in
      ground arith
  | inr (inl e) ↦
      let r = compare_from-number a b i v w in
      let m = ap (λ x. x * weight (suc i)) e in ground arith
  | inr (inr g) ↦
      let c =
        lead_lt (b (suc i)) (a (suc i)) (weight (suc i)) (number b i) (number a i) g
          (number_lt b i w) in
      ground arith
]

-- Words above `msb` add nothing.
number_high : (bm : Bitmap) (i : ℕ) → IsTight bm → bm.msb ≤ i → number bm.b i ≡ number bm.b bm.msb
number_high bm zero t l = ap (number bm.b) {x = 0} (omega arith)
number_high bm (suc i) t l = elim (eq_or_ne bm.msb (suc i)) [
  | inl e ↦ ap (number bm.b) (sym e)
  | inr n ↦
      rw (t.zero_above (suc i) (omega arith)) (omega (arith, number_high bm i t (omega arith)))
]

weight_mono : (m n : ℕ) → m ≤ n → weight m ≤ weight n
weight_mono zero zero l = omega arith
weight_mono (suc m) zero l = absurd (omega arith)
weight_mono m (suc n) l = elim (eq_or_ne m (suc n)) [
  | inl e ↦ rw e (omega arith)
  | inr d ↦ omega (arith, weight_mono m n (omega arith))
]

number_ge : (b : ℕ → ℕ) (i : ℕ) → b i ≢ 0 → weight i ≤ number b i
number_ge b zero n = omega arith
number_ge b (suc i) n =
    let m : 1 * weight (suc i) ≤ b (suc i) * weight (suc i) =
      mul-le-mul_right (weight (suc i)) (omega arith) in
    omega arith

-- The map with the higher word is the larger number.
fewer_words :
    (bm1 bm2 : Bitmap)
    → AllWords bm1.b
    → IsTight bm2
    → bm1.msb < bm2.msb
    → number bm1.b bm1.msb < number bm2.b bm2.msb
fewer_words bm1 bm2 v t l = elim t.top [
  | inl z ↦ absurd (omega arith)
  | inr n ↦ omega (
    arith,
    number_lt bm1.b bm1.msb v,
    weight_mono (suc bm1.msb) bm2.msb l,
    number_ge bm2.b bm2.msb n,
  )
]

compare-msb :
    (bm1 bm2 : Bitmap)
    → IsTight bm1
    → IsTight bm2
    → AllWords bm1.b
    → AllWords bm2.b
    → bm_compare bm1 bm2 ≡ one_if_lt (number bm1.b bm1.msb) (number bm2.b bm2.msb)
unfolding bm_compare
compare-msb bm1 bm2 t u v w = elim (trichotomy bm1.msb bm2.msb) [
  | inl l ↦ let c = fewer_words bm1 bm2 v u l in ground arith
  | inr (inl e) ↦
      let r = compare_from-number bm1.b bm2.b bm1.msb v w in
      let m = ap (number bm2.b) e in ground arith
  | inr (inr g) ↦ let c = fewer_words bm2 bm1 w t g in ground arith
]

-- Of two maps of 64-bit words whose `msb` is right, `bmCompare` gives 1 if the number that the first
-- stands for is less than that of the second, and 0 if not, also where it is greater and the comment
-- in the source promises -1; any number of words from the greatest `msb` on is counted.
pub bm_compare-number :
    (bm1 bm2 : Bitmap) (n : ℕ)
    → IsTight bm1
    → IsTight bm2
    → AllWords bm1.b
    → AllWords bm2.b
    → bm1.msb ≤ n
    → bm2.msb ≤ n
    → bm_compare bm1 bm2 ≡ (if ltb (number bm1.b n) (number bm2.b n) then 1 else 0)
bm_compare-number bm1 bm2 n t u v w l m =
    rw (number_high bm1 n t l, number_high bm2 n u m) (compare-msb bm1 bm2 t u v w)
