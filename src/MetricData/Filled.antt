-- ===== src/MetricData/Filled.antt =====
-- A buffer of flow data that holds what a processing module wrote.
use netmate_flowcalc.Common.{
  ℕ, ◌+◌, ◌-◌, ◌≤◌, ◌<◌, ◌≡◌, refl, sym, ap, ◌∙◌, true, List, ◌++◌, some, ◌==◌, length, take, drop,
  arith,
}
use netmate_flowcalc.ExportData.{store_at, region}
use netmate_flowcalc.ExportData.Memory.{
  length-region, region_agree, region-store_at, region-append, drop-region, take-append,
}
use netmate_flowcalc.MetricData.{Buf}
use netmate_flowcalc.MetricData.Reader.{load}

-- The buffer `b` with the first `n` bytes of the memory.
abbrev pub filled : Buf → (ℕ → ℕ) → ℕ → ℕ → Buf
filled b mem n ptr = record b { buf = some (region mem 0 n); ptr = ptr }

pub drop_filled : (mem : ℕ → ℕ) (o n : ℕ) → o ≤ n → drop o (region mem 0 n) ≡ region mem o (n - o)
drop_filled mem o n h =
    let whole : n ≡ o + (n - o) = omega arith in
    let here : 0 + o ≡ o = omega arith in
    ap (λ k. drop o (region mem 0 k)) whole
    ∙ drop-region mem 0 o (n - o)
    ∙ ap (λ k. region mem k (n - o)) here

take-region : (mem : ℕ → ℕ) (o m n : ℕ) → m ≤ n → take m (region mem o n) ≡ region mem o m
take-region mem o m n h =
    let whole : n ≡ m + (n - m) = omega arith in
    ap (λ k. take m (region mem o k)) whole
    ∙ ap (take m) (region-append mem o m (n - m))
    ∙ ap (λ k. take k (region mem o m ++ region mem (o + m) (n - m))) (sym (length-region mem o m))
    ∙ take-append (region mem o m) (region mem (o + m) (n - m))

pub load_filled :
    (b : Buf) (mem : ℕ → ℕ) (n ptr o m : ℕ)
    → o + m ≤ n
    → load (filled b mem n ptr) o m ≡ some (region mem o m)
unfolding load
load_filled b mem n ptr o m h =
    let got : take m (drop o (region mem 0 n)) ≡ region mem o m =
      ap (take m) (drop_filled mem o n (omega arith)) ∙ take-region mem o m (n - o) (omega arith) in
    let long : (length (region mem o m) == m) ≡ true = ground (arith, length-region mem o m) in
    rw (got, long) refl

-- What was written at `p` is loaded from there, if the memory was not changed up to its end.
pub load_written :
    (b : Buf) (dest mem : ℕ → ℕ) (n ptr p : ℕ) (bs : List ℕ)
    → p + length bs ≤ n
    → ((i : ℕ) → i < p + length bs → store_at dest p bs i ≡ mem i)
    → load (filled b mem n ptr) p (length bs) ≡ some bs
load_written b dest mem n ptr p bs h same =
    load_filled b mem n ptr p (length bs) h
    ∙ ap some
        (sym (region_agree (store_at dest p bs) mem p (length bs) same) ∙ region-store_at dest p bs)

-- What was written at `p`, with what is behind it.
pub behind :
    (dest mem : ℕ → ℕ) (n p : ℕ) (bs : List ℕ)
    → p + length bs ≤ n
    → ((i : ℕ) → i < p + length bs → store_at dest p bs i ≡ mem i)
    → drop p (region mem 0 n) ≡ bs ++ region mem (p + length bs) (n - p - length bs)
behind dest mem n p bs h same =
    let whole : n - p ≡ length bs + (n - p - length bs) = omega arith in
    drop_filled mem p n (omega arith)
    ∙ ap (region mem p) whole
    ∙ region-append mem p (length bs) (n - p - length bs)
    ∙ ap (λ t. t ++ region mem (p + length bs) (n - p - length bs))
        (sym (region_agree (store_at dest p bs) mem p (length bs) same) ∙ region-store_at dest p bs)
