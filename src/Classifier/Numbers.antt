-- ===== src/Classifier/Numbers.antt =====
-- A filter tests the masked bytes as one number, the first byte the highest.
use Prim.Native.Nat.{compare, Ordering}
use native.Mathlib.Nat.{mul-le-mul_right}
use netmate_flowcalc.Common.{
  lead_lt, trichotomy, sym, ℕ, zero, suc, ◌+◌, ◌*◌, ◌<◌, ◌≤◌, ◌≡◌, ◌↔◌, refl, ◌∙◌, true, ◌||◌, not,
  arith, Bool-cases, inl, inr, ◌⊎◌,
}
use netmate_flowcalc.Classifier.{
  FilterType, ft_exact, ft_range, ft_set, ft_wild, Match, memcmp_from, is_eq, is_lt, is_gt, in_set,
  accepts,
}

abbrev weight : ℕ → ℕ
weight zero = 1
weight (suc n) = weight n * 256

-- The number that `n` bytes from `i` on stand for.
abbrev pub number : (ℕ → ℕ) → ℕ → ℕ → ℕ
number a i zero = 0
number a i (suc n) = a i * weight n + number a (i + 1) n

abbrev pub AllBytes : (ℕ → ℕ) → Type 0
AllBytes a = (i : ℕ) → a i < 256

number_lt : (a : ℕ → ℕ) (i n : ℕ) → AllBytes a → number a i n < weight n
number_lt a i zero b = omega arith
number_lt a i (suc n) b =
    let m : a i * weight n ≤ 255 * weight n = mul-le-mul_right (weight n) (omega (arith, b i)) in
    omega (arith, number_lt a (i + 1) n b)

compare_add : (x y z : ℕ) → compare (x + y) (x + z) ≡ compare y z
compare_add x y z = ground arith

pub memcmp-compare :
    (a b : ℕ → ℕ) (i n : ℕ)
    → AllBytes a
    → AllBytes b
    → memcmp_from a b i n ≡ compare (number a i n) (number b i n)
memcmp-compare a b i zero p q = refl
memcmp-compare a b i (suc n) p q = elim (trichotomy (a i) (b i)) [
  | inl l ↦
      let c =
        lead_lt (a i) (b i) (weight n) (number a (i + 1) n) (number b (i + 1) n) l
          (number_lt a (i + 1) n p) in
      let k : compare (a i) (b i) ≡ Ordering.lt = ground arith in rw (k, memcmp_from) (ground arith)
  | inr (inl e) ↦
      let k : compare (a i) (b i) ≡ Ordering.eq = ground arith in
      rw (k, memcmp_from)
        (memcmp-compare a b (i + 1) n p q ∙ rw e (sym (compare_add (b i * weight n) _ _)))
  | inr (inr g) ↦
      let c =
        lead_lt (b i) (a i) (weight n) (number b (i + 1) n) (number a (i + 1) n) g
          (number_lt b (i + 1) n q) in
      let k : compare (a i) (b i) ≡ Ordering.gt = ground arith in rw (k, memcmp_from) (ground arith)
]

-- One of the `n` values from `c` on is the number.
abbrev pub OneOf : Match → ℕ → ℕ → ℕ → Type 0
OneOf m x c zero = ⊥
OneOf m x c (suc n) = (x ≡ number (m.value c) 0 m.len) ⊎ OneOf m x (c + 1) n

-- What a filter of some type asks of the number `x`.
abbrev pub Meets : FilterType → Match → ℕ → Type 0
Meets ft_wild m x = Unit {0}
Meets ft_exact m x = x ≡ number (m.value 0) 0 m.len
Meets ft_range m x = (number (m.value 0) 0 m.len ≤ x) × (x ≤ number (m.value 1) 0 m.len)
Meets ft_set m x = OneOf m x 0 m.cnt

is_eq-compare : (x y : ℕ) → (is_eq (compare x y) ≡ true) ↔ (x ≡ y)
is_eq-compare x y = ground arith

in_range_compare :
    (x y z : ℕ) → (not (is_lt (compare x y) || is_gt (compare x z)) ≡ true) ↔ ((y ≤ x) × (x ≤ z))
in_range_compare x y z = ground arith

in_set-OneOf :
    (m : Match) (tmp : ℕ → ℕ) (c n : ℕ)
    → AllBytes tmp
    → ((c : ℕ) → AllBytes (m.value c))
    → (in_set m tmp c n ≡ true) ↔ OneOf m (number tmp 0 m.len) c n
unfolding in_set
in_set-OneOf m tmp c zero p q = ground arith
in_set-OneOf m tmp c (suc n) p q =
    let h = in_set-OneOf m tmp (c + 1) n p q in
    let e = memcmp-compare tmp (m.value c) 0 m.len p (q c) in
    let k = is_eq-compare (number tmp 0 m.len) (number (m.value c) 0 m.len) in
    elim (Bool-cases (is_eq (compare (number tmp 0 m.len) (number (m.value c) 0 m.len)))) [
      | inl b ↦ rw (e, b) (λ _. inl (k.0 b), λ _. refl)
      | inr b ↦ rw (e, b) (λ r. inr (h.0 r), λ r. elim r [ inl d ↦ cc (k.1 d) | inr o ↦ h.1 o ])
    ]

accepts_by :
    (t : FilterType) (m : Match) (tmp : ℕ → ℕ)
    → m.type ≡ t
    → AllBytes tmp
    → ((c : ℕ) → AllBytes (m.value c))
    → (accepts m tmp ≡ true) ↔ Meets t m (number tmp 0 m.len)
unfolding accepts
accepts_by ft_wild m tmp e p q = rw e (λ _. tt, λ _. refl)
accepts_by ft_exact m tmp e p q =
    rw (e, memcmp-compare tmp (m.value 0) 0 m.len p (q 0)) (is_eq-compare _ _)
accepts_by ft_range m tmp e p q =
    rw
      (
        e,
        memcmp-compare tmp (m.value 0) 0 m.len p (q 0),
        memcmp-compare tmp (m.value 1) 0 m.len p (q 1),
      )
      (in_range_compare _ _ _)
accepts_by ft_set m tmp e p q = rw e (in_set-OneOf m tmp 0 m.cnt p q)

-- Of bytes, read as one number with the first byte the highest, a match accepts: any number as a
-- wildcard, its first value as an exact filter, the numbers from its first to its second value as a
-- range, and each of its `cnt` values as a set.
pub accepts-Meets :
    (m : Match) (tmp : ℕ → ℕ)
    → AllBytes tmp
    → ((c : ℕ) → AllBytes (m.value c))
    → (accepts m tmp ≡ true) ↔ Meets m.type m (number tmp 0 m.len)
accepts-Meets m tmp p q = accepts_by m.type m tmp refl p q
