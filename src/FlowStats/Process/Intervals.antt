-- ===== src/FlowStats/Process/Intervals.antt =====
-- The shortest and longest time between packets of one direction.
use netmate_flowcalc.Common.{
  ℕ, ◌+◌, ◌^◌, ◌<◌, ◌≡◌, refl, ap, ◌∙◌, List, [], ◌∷◌, arith, ltb, if◌then◌else◌,
}
use netmate_flowcalc.FlowStats.{Double}
use netmate_flowcalc.FlowStats.Record.{Side}
use netmate_flowcalc.FlowStats.Process.{count_interval}

module _ {F : Type 0} (fl : Double F) where
  pub intervals : Side F → List ℕ → Side F
  intervals s [] = s
  intervals s (t ∷ ts) = intervals (count_interval fl t s) ts

  abbrev pub least : ℕ → List ℕ → ℕ
  least m [] = m
  least m (t ∷ ts) = least (if ltb t m then t else m) ts

  abbrev pub greatest : ℕ → List ℕ → ℕ
  greatest m [] = m
  greatest m (t ∷ ts) = greatest (if ltb m t then t else m) ts

  -- Each time is positive and fits into 32 bits.
  abbrev pub AllShort : List ℕ → Type 0
  AllShort [] = Unit {0}
  AllShort (t ∷ ts) = (0 < t) × (t < 2 ^ 32) × AllShort ts

  one_interval :
      (t : ℕ) (s : Side F)
      → 0 < t
      → t < 2 ^ 32
      → 0 < s.min_iat
      → ((count_interval fl t s).min_iat ≡ (if ltb t s.min_iat then t else s.min_iat))
        × ((count_interval fl t s).max_iat ≡ (if ltb s.max_iat t then t else s.max_iat))
        × (0 < (count_interval fl t s).min_iat)
  unfolding count_interval
  one_interval t s p q m = ground arith

  more_intervals :
      (ts : List ℕ) (s : Side F)
      → 0 < s.min_iat
      → AllShort ts
      → ((intervals s ts).min_iat ≡ least s.min_iat ts)
        × ((intervals s ts).max_iat ≡ greatest s.max_iat ts)
  unfolding intervals
  more_intervals [] s m a = (refl, refl)
  more_intervals (t ∷ ts) s m a =
      let o = one_interval t s a.0 a.1 m in
      let h = more_intervals ts (count_interval fl t s) o.2 a.2 in (rw (← o.0) h.0, rw (← o.1) h.1)

  first_interval :
      (t : ℕ) (s : Side F)
      → 0 < t
      → t < 2 ^ 32
      → s.min_iat ≡ 0
      → s.max_iat ≡ 0
      → ((count_interval fl t s).min_iat ≡ t) × ((count_interval fl t s).max_iat ≡ t)
  unfolding count_interval
  first_interval t s p q m n = ground arith

  -- Of a side without intervals, `min_iat` and `max_iat` become the least and the greatest of the
  -- times, if all are positive and below 2^32 microseconds.
  pub intervals-extremes :
      (s : Side F) (t : ℕ) (ts : List ℕ)
      → s.min_iat ≡ 0
      → s.max_iat ≡ 0
      → 0 < t
      → t < 2 ^ 32
      → AllShort ts
      → ((intervals s (t ∷ ts)).min_iat ≡ least t ts)
        × ((intervals s (t ∷ ts)).max_iat ≡ greatest t ts)
  unfolding intervals
  intervals-extremes s t ts m n p q a =
      let o = first_interval t s p q m n in
      let h = more_intervals ts (count_interval fl t s) (omega (arith, o.0)) a in
      (h.0 ∙ ap (λ m. least m ts) o.0, h.1 ∙ ap (λ m. greatest m ts) o.1)

  -- Of two times of 2^32 microseconds and more, less than 2^32 above that, the second shorter than
  -- the first, only the low 32 bits are kept, and the maximum ends below the minimum. The module's
  -- export asserts the opposite.
  pub intervals_wrap :
      (s : Side F) (a c : ℕ)
      → s.min_iat ≡ 0
      → s.max_iat ≡ 0
      → c < a
      → a < 2 ^ 32
      → (intervals s ((2 ^ 32 + a) ∷ (2 ^ 32 + c) ∷ [])).max_iat
        < (intervals s ((2 ^ 32 + a) ∷ (2 ^ 32 + c) ∷ [])).min_iat
  unfolding intervals count_interval
  intervals_wrap s a c m n p q = ground arith
