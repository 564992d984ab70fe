-- ===== src/PacketQueue/Ring.antt =====
-- Windows of an array with wrap around, as the buffer descriptors of the queue are used.
use netmate_flowcalc.Common.{
  ℕ, zero, suc, ◌+◌, ◌<◌, ◌≤◌, ◌≡◌, refl, ap, ◌⊎◌, inl, ◌≢◌, List, [], ◌∷◌, ◌++◌, arith, get_or,
  set, length,
}
use netmate_flowcalc.PacketQueue.{next_index}

module _ {ℓ} {A : Type ℓ} where
  pub get_or-set_self :
      (xs : List A) (i : ℕ) (v d : A) → i < length xs → get_or (set xs i v) i d ≡ v
  get_or-set_self [] i v d h = absurd (omega arith)
  get_or-set_self (x ∷ xs) zero v d h = refl
  get_or-set_self (x ∷ xs) (suc i) v d h = get_or-set_self xs i v d (omega arith)

  pub get_or-set_ne :
      (xs : List A) (i j : ℕ) (v d : A) → i ≢ j → get_or (set xs i v) j d ≡ get_or xs j d
  get_or-set_ne [] i j v d h = refl
  get_or-set_ne (x ∷ xs) zero zero v d h = absurd (h refl)
  get_or-set_ne (x ∷ xs) zero (suc j) v d h = refl
  get_or-set_ne (x ∷ xs) (suc i) zero v d h = refl
  get_or-set_ne (x ∷ xs) (suc i) (suc j) v d h = get_or-set_ne xs i j v d (λ e. h (ap suc e))

-- The index `k` places behind `i`.
unfoldable pub index_after : ℕ → ℕ → ℕ → ℕ
index_after n i zero = i
index_after n i (suc k) = index_after n (next_index n i) k

pub index_after-suc : (n i k : ℕ) → index_after n i (suc k) ≡ next_index n (index_after n i k)
unfolding index_after
index_after-suc n i zero = refl
index_after-suc n i (suc k) = index_after-suc n (next_index n i) k

-- `j` is none of the `k` indices from `i` on.
abbrev pub Outside : ℕ → ℕ → ℕ → ℕ → Type 0
Outside n j i k = (i + k ≤ j) ⊎ ((j < i) × (i + k ≤ j + n))

pub index_after_place :
    (n i k : ℕ)
    → i < n
    → k ≤ n
    → ((index_after n i k ≡ i + k) × (i + k < n)) ⊎ (index_after n i k + n ≡ i + k)
unfolding index_after
index_after_place n i zero p q = inl (omega arith, omega arith)
index_after_place n i (suc k) p q = index_after_step (index_after_place n i k p (omega arith))
  where
    index_after_step :
        ((index_after n i k ≡ i + k) × (i + k < n)) ⊎ (index_after n i k + n ≡ i + k)
        → ((index_after n i (suc k) ≡ i + suc k) × (i + suc k < n))
          ⊎ (index_after n i (suc k) + n ≡ i + suc k)
    index_after_step h = ground (arith, index_after-suc n i k)

-- The index behind a window that is not the whole array is in the array and outside the window.
pub index_after-Outside :
    (n i k : ℕ) → i < n → k < n → (index_after n i k < n) × Outside n (index_after n i k) i k
index_after-Outside n i k p q = ground (arith, index_after_place n i k)

module _ {A : Type 0} (d : A) (n : ℕ) where
  -- The `k` cells from `i` on.
  unfoldable pub cells : List A → ℕ → ℕ → List A
  cells xs i zero = []
  cells xs i (suc k) = get_or xs i d ∷ cells xs (next_index n i) k

  pub cells-suc :
      (xs : List A) (i k : ℕ)
      → cells xs i (suc k) ≡ cells xs i k ++ (get_or xs (index_after n i k) d ∷ [])
  unfolding cells index_after
  cells-suc xs i zero = refl
  cells-suc xs i (suc k) = ap (◌∷◌ (get_or xs i d)) (cells-suc xs (next_index n i) k)

  pub cells-set :
      (xs : List A) (i j k : ℕ) (v : A)
      → i < n
      → j < n
      → Outside n j i k
      → cells (set xs j v) i k ≡ cells xs i k
  unfolding cells
  cells-set xs i j zero v p q o = refl
  cells-set xs i j (suc k) v p q o =
      ground (arith, get_or-set_ne xs j i v d, cells-set xs (next_index n i) j k v)

  -- A write behind the window is one more cell at its end.
  pub cells_push :
      (xs : List A) (i k : ℕ) (v : A)
      → length xs ≡ n
      → i < n
      → k < n
      → cells (set xs (index_after n i k) v) i (suc k) ≡ cells xs i k ++ (v ∷ [])
  cells_push xs i k v e p q =
      let out = index_after-Outside n i k p q in
      rw (
        cells-suc (set xs (index_after n i k) v) i k,
        cells-set xs i (index_after n i k) k v p out.0 out.1,
        get_or-set_self xs (index_after n i k) v d (omega arith),
      )
