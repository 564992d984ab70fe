-- ===== src/Classifier/Ids.antt =====
-- Which rule ids `classify` of src/netmate/ClassifierSimple.cc reports.
use netmate_flowcalc.Classifier.Report.{HasOffsets, fits, hits, kept, reported, classify-reported}
use netmate_flowcalc.Common.{
  ℕ, ◌+◌, ◌*◌, ◌/◌, ◌≤◌, ◌≡◌, ◌∙◌, true, List, [], ◌∷◌, map, ◌==◌, arith, Bool-cases, inl, inr,
}
use netmate_flowcalc.Common.Int.{pos, negsuc}
use netmate_flowcalc.Classifier.{Match, MetaData, returned, follows, classify}

-- Ascending numbers from `lo` on.
abbrev pub Ascending : ℕ → List ℕ → Type 0
Ascending lo [] = Unit {0}
Ascending lo (k ∷ ks) = (lo ≤ k) × Ascending (k + 1) ks

Ascending-mono : (a b : ℕ) (ks : List ℕ) → a ≤ b → Ascending b ks → Ascending a ks
Ascending-mono a b [] h s = tt
Ascending-mono a b (k ∷ ks) h s = (omega arith, s.1)

hits-Ascending :
    (lo : ℕ) (pkt : MetaData) (rules : List (ℕ × List Match))
    → Ascending lo (map (λ r. r.0) rules)
    → Ascending lo (hits pkt rules)
hits-Ascending lo pkt [] s = tt
hits-Ascending lo pkt ((key, ms) ∷ rules) s = elim (Bool-cases (fits pkt ms)) [
  | inl f ↦ rw f (s.0, hits-Ascending (key + 1) pkt rules s.1)
  | inr f ↦ rw f (
      Ascending-mono lo (key + 1) (hits pkt rules) (omega arith)
        (hits-Ascending (key + 1) pkt rules s.1))
]

kept-Ascending :
    (l lo : ℕ) (ks : List ℕ)
    → Ascending lo ks
    → l + 1 ≤ lo
    → Ascending (l / 2 + 1) (map (λ k. k / 2) (kept (pos l) ks))
unfolding follows
kept-Ascending l lo [] s h = tt
kept-Ascending l lo (k ∷ ks) s h = elim (Bool-cases (k == l + 1)) [
  | inl e ↦ rw (kept, follows, e) (kept-Ascending l (k + 1) ks s.1 (omega arith))
  | inr e ↦
      let n : l + 2 ≤ k = ground arith in
      rw (kept, follows, e) (omega arith, kept-Ascending k (k + 1) ks s.1 (omega arith))
]

first-Ascending :
    (ks : List ℕ) → Ascending 0 ks → Ascending 0 (map (λ k. k / 2) (kept (negsuc 1) ks))
unfolding follows
first-Ascending [] s = tt
first-Ascending (k ∷ ks) s = (omega arith, kept-Ascending k (k + 1) ks s.1 (omega arith))

-- With the keys in ascending order, as in a map, the reported rule ids ascend: a rule that matches in
-- both directions is reported once.
pub reported-Ascending :
    (rules : List (ℕ × List Match)) (pkt : MetaData)
    → Ascending 0 (map (λ r. r.0) rules)
    → Ascending 0 (map (λ k. k / 2) (reported pkt rules))
reported-Ascending rules pkt s = first-Ascending (hits pkt rules) (hits-Ascending 0 pkt rules s)

-- If a rule matches backward only and the one with the next id forward only, in a table of these two,
-- only the first is reported, with a return value of 1.
pub classify_drops_next :
    (u : ℕ) (ms ns : List Match) (pkt : MetaData)
    → HasOffsets pkt ms
    → HasOffsets pkt ns
    → fits pkt ms ≡ true
    → fits pkt ns ≡ true
    → (out : MetaData) × (classify ((u * 2 + 1, ms) ∷ ((u + 1) * 2, ns) ∷ []) pkt ≡ returned 1 out)
      × (out.matches 0 ≡ u)
unfolding follows
classify_drops_next u ms ns pkt h k f g =
    let rules : List (ℕ × List Match) = (u * 2 + 1, ms) ∷ ((u + 1) * 2, ns) ∷ [] in
    let n : ((u + 1) * 2 == u * 2 + 1 + 1) ≡ true = ground arith in
    let e : reported pkt rules ≡ (u * 2 + 1) ∷ [] = rw (f, g, kept, follows, n) in
    let (out, r, c, l, v, payload) =
      classify-reported rules pkt (h, (k, tt)) (rw e (omega arith)) in
    (out, rw e at r, (rw e at l).0 ∙ omega arith)
