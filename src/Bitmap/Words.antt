-- ===== src/Bitmap/Words.antt =====
-- The words of a bitmap, and the number that they stand for.
use Prim.Native.Nat.{bit_and, bit_and-bitwise, digits, min}
use netmate_flowcalc.Common.{
  ℕ, zero, suc, ◌/◌, ◌<◌, ◌≤◌, ◌≡◌, ◌≢◌, ◌⊎◌, inl, inr, refl, ap, ◌∙◌, arith, ltb, if◌then◌else◌,
  Bool-cases, eq_or_ne,
}
use netmate_flowcalc.Bitmap.{Bitmap, bm_and, and_from, and_word, bm_reset_all}

-- `msb` is the highest word that is not 0, or 0.
pub record IsTight (bm : Bitmap) : Type 0 where
  pub zero_above : (i : ℕ) → bm.msb < i → bm.b i ≡ 0
  pub top : (bm.msb ≡ 0) ⊎ (bm.b bm.msb ≢ 0)

zero-bit_and : (w : ℕ) → bit_and 0 w ≡ 0
zero-bit_and w = bit_and-bitwise 0 w

digits_none : (n a : ℕ) → digits (λ b. zero) min n a 0 ≡ 0
digits_none zero a = refl
digits_none (suc n) zero = refl
digits_none (suc n) (suc a) = omega (arith, digits_none n (suc a / 2))

bit_and-zero : (w : ℕ) → bit_and w 0 ≡ 0
bit_and-zero w = bit_and-bitwise w 0 ∙ digits_none w w

-- What the loop from the word `i` down has done.
and_from_lem :
    (bm1 bm2 : Bitmap) (i : ℕ) (res : Bitmap) (j : ℕ)
    → (and_from bm1 bm2 i res).b j ≡ (if ltb i j then res.b j else bit_and (bm1.b j) (bm2.b j))
unfolding and_from and_word
and_from_lem bm1 bm2 zero res j = ground arith
and_from_lem bm1 bm2 (suc i) res j =
    ground (arith, and_from_lem bm1 bm2 i (and_word bm1 bm2 (suc i) res) j)

and_msb_kept :
    (bm1 bm2 : Bitmap) (i : ℕ) (res : Bitmap) → res.msb ≢ 0 → (and_from bm1 bm2 i res).msb ≡ res.msb
unfolding and_from and_word
and_msb_kept bm1 bm2 zero res n = ground arith
and_msb_kept bm1 bm2 (suc i) res n =
    and_msb_kept bm1 bm2 i (and_word bm1 bm2 (suc i) res) (ground arith) ∙ ground arith

abbrev anded : Bitmap → Bitmap → ℕ → ℕ
anded bm1 bm2 j = bit_and (bm1.b j) (bm2.b j)

-- Where the loop leaves `msb`.
abbrev TopFrom : Bitmap → Bitmap → ℕ → ℕ → ℕ → Type 0
TopFrom bm1 bm2 i msb j =
    (msb ≤ i) × (msb < j → j ≤ i → anded bm1 bm2 j ≡ 0) × ((msb ≡ 0) ⊎ (anded bm1 bm2 msb ≢ 0))

and_top :
    (bm1 bm2 : Bitmap) (i : ℕ) (res : Bitmap) (j : ℕ)
    → res.msb ≡ 0
    → TopFrom bm1 bm2 i (and_from bm1 bm2 i res).msb j
unfolding and_from and_word
and_top bm1 bm2 zero res j e = ground arith
and_top bm1 bm2 (suc i) res j e = elim (eq_or_ne (anded bm1 bm2 (suc i)) 0) [
  | inl z ↦
      let h = and_top bm1 bm2 i (and_word bm1 bm2 (suc i) res) j (ground arith) in
      (
        omega arith,
        λ l k. elim (eq_or_ne j (suc i)) [
          | inl q ↦ ap (anded bm1 bm2) q ∙ z
          | inr q ↦ h.1 l (omega arith)
        ],
        h.2,
      )
  | inr n ↦
      let k : (and_word bm1 bm2 (suc i) res).msb ≡ suc i = ground arith in
      let m : (and_from bm1 bm2 i (and_word bm1 bm2 (suc i) res)).msb ≡ suc i =
        and_msb_kept bm1 bm2 i (and_word bm1 bm2 (suc i) res) (omega arith) ∙ k in
      rw m (omega arith, λ l q. absurd (omega arith), inr n)
]

-- Above the highest word of one of the two there is nothing.
above :
    (bm1 bm2 : Bitmap) (j : ℕ)
    → IsTight bm1
    → IsTight bm2
    → (bm1.msb < j) ⊎ (bm2.msb < j)
    → anded bm1 bm2 j ≡ 0
above bm1 bm2 j t u (inl l) = rw (t.zero_above j l) (zero-bit_and (bm2.b j))
above bm1 bm2 j t u (inr l) = rw (u.zero_above j l) (bit_and-zero (bm1.b j))

abbrev lowest : Bitmap → Bitmap → ℕ
lowest bm1 bm2 = if ltb bm1.msb bm2.msb then bm1.msb else bm2.msb

and_words :
    (bm1 bm2 : Bitmap) (j : ℕ) → IsTight bm1 → IsTight bm2 → (bm_and bm1 bm2).b j ≡ anded bm1 bm2 j
unfolding bm_and bm_reset_all
and_words bm1 bm2 j t u =
    let h = and_from_lem bm1 bm2 (lowest bm1 bm2) bm_reset_all j in
    elim (Bool-cases (ltb (lowest bm1 bm2) j)) [
      | inl l ↦ let a = above bm1 bm2 j t u (ground arith) in h ∙ rw (l, a)
      | inr l ↦ h ∙ rw l
    ]

and_zero :
    (bm1 bm2 : Bitmap)
    → IsTight bm1
    → IsTight bm2
    → (i : ℕ) → (bm_and bm1 bm2).msb < i
    → anded bm1 bm2 i ≡ 0
unfolding bm_and bm_reset_all
and_zero bm1 bm2 t u i l =
    let h = and_top bm1 bm2 (lowest bm1 bm2) bm_reset_all i refl in
    elim (Bool-cases (ltb (lowest bm1 bm2) i)) [
      | inl k ↦ above bm1 bm2 i t u (ground arith)
      | inr k ↦ h.1 l (ground arith)
    ]

and_tops :
    (bm1 bm2 : Bitmap)
    → IsTight bm1
    → IsTight bm2
    → ((bm_and bm1 bm2).msb ≡ 0) ⊎ ((bm_and bm1 bm2).b (bm_and bm1 bm2).msb ≢ 0)
and_tops bm1 bm2 t u =
    rw (and_words bm1 bm2 (bm_and bm1 bm2).msb t u)
      (unfold bm_and bm_reset_all in (and_top bm1 bm2 (lowest bm1 bm2) bm_reset_all 0 refl).2)

anded-IsTight : (bm1 bm2 : Bitmap) → IsTight bm1 → IsTight bm2 → IsTight (bm_and bm1 bm2)
anded-IsTight bm1 bm2 t u = record {
  zero_above = λ i l. and_words bm1 bm2 i t u ∙ and_zero bm1 bm2 t u i l;
  top = and_tops bm1 bm2 t u;
}

-- Of two maps whose `msb` is right, `bmAnd` gives the map of the words of both, and its `msb` is right
-- too: the highest word that is not 0, or 0.
pub bm_and-IsTight :
    (bm1 bm2 : Bitmap) (j : ℕ)
    → IsTight bm1
    → IsTight bm2
    → IsTight (bm_and bm1 bm2) × ((bm_and bm1 bm2).b j ≡ bit_and (bm1.b j) (bm2.b j))
bm_and-IsTight bm1 bm2 j t u = (anded-IsTight bm1 bm2 t u, and_words bm1 bm2 j t u)
