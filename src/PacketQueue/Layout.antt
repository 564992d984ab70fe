-- ===== src/PacketQueue/Layout.antt =====
-- Where packets lie in the ring of bytes, oldest first.
use netmate_flowcalc.Common.{
  ℕ, ◌+◌, ◌-◌, ◌<◌, ◌≤◌, ◌≡◌, ◌⊎◌, List, [], ◌∷◌, ◌++◌, arith, ltb, if◌then◌else◌,
}
use netmate_flowcalc.PacketQueue.{PktBufRec}

-- `guard` is the guaranteed length and `size` that of the ring.
module _ (guard size : ℕ) where
  -- The bytes that a packet of `len` at `pos` takes: a rest below `guard` is skipped.
  abbrev pub cost : ℕ → ℕ → ℕ
  cost pos len = if ltb size (pos + len + guard) then size - pos else len

  -- Where the next packet starts.
  abbrev pub behind : ℕ → ℕ → ℕ
  behind pos len = if ltb size (pos + len + guard) then 0 else pos + len

  -- The packets follow one another from `start` to `cur`, and each has room for a guaranteed buffer.
  abbrev pub Chain : ℕ → List PktBufRec → ℕ → Type 0
  Chain start [] cur = (start ≡ cur) × (cur + guard ≤ size)
  Chain start (r ∷ rs) cur =
      (r.pos ≡ start)
      × (start + guard ≤ size)
      × (1 ≤ r.len)
      × (r.len ≤ guard)
      × Chain (behind start r.len) rs cur

  abbrev pub taken : List PktBufRec → ℕ
  taken [] = 0
  taken (r ∷ rs) = cost r.pos r.len + taken rs

  pub Chain-start : (p : ℕ) (rs : List PktBufRec) (c : ℕ) → Chain p rs c → p + guard ≤ size
  Chain-start p [] c h = omega arith
  Chain-start p (r ∷ rs) c h = h.1

  pub Chain-end : (p : ℕ) (rs : List PktBufRec) (c : ℕ) → Chain p rs c → c + guard ≤ size
  Chain-end p [] c h = h.1
  Chain-end p (r ∷ rs) c h = Chain-end (behind p r.len) rs c h.4

  -- Unrolled, the chain ends as far behind its start as it has bytes.
  pub Chain-taken :
      (p : ℕ) (rs : List PktBufRec) (c : ℕ)
      → Chain p rs c
      → 0 < guard
      → taken rs ≤ size
      → (c ≡ p + taken rs) ⊎ (c + size ≡ p + taken rs)
  Chain-taken p [] c h g t = omega arith
  Chain-taken p (r ∷ rs) c h g t =
      ground (arith, Chain-taken (behind p r.len) rs c h.4 g, Chain-end (behind p r.len) rs c h.4)

  pub Chain-append :
      (p : ℕ) (rs : List PktBufRec) (c len : ℕ)
      → Chain p rs c
      → 1 ≤ len
      → len ≤ guard
      → guard ≤ size
      → Chain p (rs ++ (record { pos = c; len = len } ∷ [])) (behind c len)
  Chain-append p [] c len h l g b = ground arith
  Chain-append p (r ∷ rs) c len h l g b =
      (h.0, h.1, h.2, h.3, Chain-append (behind p r.len) rs c len h.4 l g b)

  pub taken-append :
      (rs : List PktBufRec) (r : PktBufRec) → taken (rs ++ (r ∷ [])) ≡ taken rs + cost r.pos r.len
  taken-append [] r = omega arith
  taken-append (x ∷ rs) r = omega (arith, taken-append rs r)

  -- A packet that fits into what is left also fits with the rest that is then skipped.
  pub cost_fits :
      (p : ℕ) (rs : List PktBufRec) (c len : ℕ)
      → Chain p rs c
      → 0 < guard
      → 1 ≤ len
      → len ≤ guard
      → len + taken rs ≤ size
      → cost c len + taken rs ≤ size
  cost_fits p rs c len h g l lg f =
      ground (arith, Chain-taken p rs c h g, Chain-start p rs c h, Chain-end p rs c h)

  -- The bytes `x … x + l - 1` meet no byte of the packet.
  abbrev pub Apart : ℕ → ℕ → PktBufRec → Type 0
  Apart x l r = (x + l ≤ r.pos) ⊎ (r.pos + r.len ≤ x)

  abbrev pub ApartAll : ℕ → ℕ → List PktBufRec → Type 0
  ApartAll x l [] = Unit {0}
  ApartAll x l (r ∷ rs) = Apart x l r × ApartAll x l rs

  apart-Chain :
      (x l p : ℕ) (rs : List PktBufRec) (c : ℕ)
      → Chain p rs c
      → x < size
      → 0 < guard
      → ((x + l ≤ p) × (p + taken rs ≤ x + size)) ⊎ (p + taken rs ≤ x)
      → ApartAll x l rs
  apart-Chain x l p [] c h b g k = tt
  apart-Chain x l p (r ∷ rs) c h b g k =
      (ground arith, apart-Chain x l (behind p r.len) rs c h.4 b g (ground arith))

  -- What is left of the ring behind the last packet meets no packet.
  pub free_apart :
      (p : ℕ) (rs : List PktBufRec) (c l : ℕ)
      → Chain p rs c
      → 0 < guard
      → l + taken rs ≤ size
      → ApartAll c l rs
  free_apart p rs c l h g f =
      apart-Chain c l p rs c h (omega (arith, Chain-end p rs c h)) g
        (ground (arith, Chain-taken p rs c h g))

  -- The oldest packet meets none of the others.
  pub head_apart :
      (p : ℕ) (r : PktBufRec) (rs : List PktBufRec) (c : ℕ)
      → Chain p (r ∷ rs) c
      → 0 < guard
      → taken (r ∷ rs) ≤ size
      → ApartAll r.pos r.len rs
  head_apart p r rs c h g t =
      apart-Chain r.pos r.len (behind p r.len) rs c h.4 (omega arith) g (ground arith)
