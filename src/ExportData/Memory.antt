-- ===== src/ExportData/Memory.antt =====
-- The bytes of the export buffer after writes.
use netmate_flowcalc.Common.{
  ℕ, zero, suc, ◌+◌, ◌/◌, ◌<◌, ◌≡◌, refl, ap, ◌∙◌, List, [], ◌∷◌, ◌++◌, ◌==◌, length, drop, take,
  arith, true, false,
}
use netmate_flowcalc.ExportData.{le_bytes, store_at, region}

pub length-le_bytes : (n v : ℕ) → length (le_bytes n v) ≡ n
unfolding le_bytes
length-le_bytes zero v = refl
length-le_bytes (suc n) v = ap suc (length-le_bytes n (v / 256))

pub length-region : (mem : ℕ → ℕ) (o n : ℕ) → length (region mem o n) ≡ n
unfolding region
length-region mem o zero = refl
length-region mem o (suc n) = ap suc (length-region mem (o + 1) n)

-- A write changes nothing in front of it.
pub store_at_before :
    (mem : ℕ → ℕ) (o : ℕ) (bs : List ℕ) (i : ℕ) → i < o → store_at mem o bs i ≡ mem i
unfolding store_at
store_at_before mem o [] i h = refl
store_at_before mem o (b ∷ bs) i h =
    let differ : (i == o) ≡ false = ground arith in
    rw differ (store_at_before mem (o + 1) bs i (omega arith))

-- Memories that agree on a part have the same bytes there.
pub region_agree :
    (mem mem' : ℕ → ℕ) (o n : ℕ)
    → ((i : ℕ) → i < o + n → mem i ≡ mem' i)
    → region mem o n ≡ region mem' o n
unfolding region
region_agree mem mem' o zero h = refl
region_agree mem mem' o (suc n) h =
    rw (h o (omega arith), region_agree mem mem' (o + 1) n (λ i b. h i (omega arith))) refl

later_bytes :
    (mem : ℕ → ℕ) (o : ℕ) (b : ℕ) (bs : List ℕ) (k n : ℕ)
    → o < k
    → region (store_at mem o (b ∷ bs)) k n ≡ region (store_at mem (o + 1) bs) k n
unfolding region store_at
later_bytes mem o b bs k zero h = refl
later_bytes mem o b bs k (suc n) h =
    let differ : (k == o) ≡ false = ground arith in
    rw (differ, later_bytes mem o b bs (k + 1) n (omega arith)) refl

-- What was written is there.
pub region-store_at :
    (mem : ℕ → ℕ) (o : ℕ) (bs : List ℕ) → region (store_at mem o bs) o (length bs) ≡ bs
unfolding region store_at
region-store_at mem o [] = refl
region-store_at mem o (b ∷ bs) =
    let same : (o == o) ≡ true = ground arith in
    rw
      (
        same,
        later_bytes mem o b bs (o + 1) (length bs) (omega arith),
        region-store_at mem (o + 1) bs,
      )
      refl

pub region-append :
    (mem : ℕ → ℕ) (o m n : ℕ) → region mem o (m + n) ≡ region mem o m ++ region mem (o + m) n
unfolding region
region-append mem o zero n =
    let none_left : 0 + n ≡ n = omega arith in
    let here : o + 0 ≡ o = omega arith in rw (none_left, here) refl
region-append mem o (suc m) n =
    let step : suc m + n ≡ suc (m + n) = omega arith in
    let there : o + 1 + m ≡ o + suc m = omega arith in
    ap (region mem o) step
    ∙ ap (λ t. mem o ∷ t)
        (region-append mem (o + 1) m n ∙ ap (λ k. region mem (o + 1) m ++ region mem k n) there)

pub drop-region : (mem : ℕ → ℕ) (o m n : ℕ) → drop m (region mem o (m + n)) ≡ region mem (o + m) n
unfolding region
drop-region mem o zero n =
    let none_left : 0 + n ≡ n = omega arith in
    let here : o + 0 ≡ o = omega arith in rw (none_left, here) refl
drop-region mem o (suc m) n =
    let step : suc m + n ≡ suc (m + n) = omega arith in
    let there : o + 1 + m ≡ o + suc m = omega arith in
    ap (λ k. drop (suc m) (region mem o k)) step
    ∙ drop-region mem (o + 1) m n
    ∙ ap (λ k. region mem k n) there

pub take-append : (xs ys : List ℕ) → take (length xs) (xs ++ ys) ≡ xs
take-append [] ys = refl
take-append (x ∷ xs) ys = ap (λ t. x ∷ t) (take-append xs ys)
