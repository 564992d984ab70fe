-- ===== src/Scheduler/Order.antt =====
-- The queue stays in the order of the times, and events of one time in that of their insertion.
use netmate_flowcalc.Common.{
  ◌+◌, ◌<◌, ◌≡◌, refl, ap, true, false, List, [], ◌∷◌, ◌++◌, arith, Bool-cases, inl, inr, ◌⊎◌,
}
use netmate_flowcalc.Common.Int.{pos_part, neg_part, ◌≤ℤ◌}
use netmate_flowcalc.Timeval.{Timeval, cmp}
use netmate_flowcalc.Scheduler.{Event, less, add_event}

less_asymm : (a b : Timeval) → less a b ≡ true → less b a ≡ false
unfolding less cmp
less_asymm a b h = ground arith

-- In the order of seconds first and microseconds then.
abbrev NotAfter : Timeval → Timeval → Type 0
NotAfter a b =
    (pos_part a.tv_sec + neg_part b.tv_sec < pos_part b.tv_sec + neg_part a.tv_sec)
    ⊎ ((pos_part a.tv_sec + neg_part b.tv_sec ≡ pos_part b.tv_sec + neg_part a.tv_sec)
        × (a.tv_usec ≤ℤ b.tv_usec))

not_less-NotAfter : (a b : Timeval) → less b a ≡ false → NotAfter a b
unfolding less cmp
not_less-NotAfter a b h = ground arith

NotAfter-not_less : (a b : Timeval) → NotAfter a b → less b a ≡ false
unfolding less cmp
NotAfter-not_less a b h = ground arith

not_less_trans : (a b c : Timeval) → less b a ≡ false → less c b ≡ false → less c a ≡ false
not_less_trans a b c h k =
    let p = not_less-NotAfter a b h in
    let q = not_less-NotAfter b c k in NotAfter-not_less a c (ground arith)

-- No event of the list is before the time.
abbrev pub NoneBefore : Timeval → List Event → Type 0
NoneBefore t [] = Unit {0}
NoneBefore t (e ∷ es) = (less e.when t ≡ false) × NoneBefore t es

abbrev pub IsOrdered : List Event → Type 0
IsOrdered [] = Unit {0}
IsOrdered (e ∷ es) = NoneBefore e.when es × IsOrdered es

NoneBefore-mono :
    (a b : Timeval) (es : List Event) → less b a ≡ false → NoneBefore b es → NoneBefore a es
NoneBefore-mono a b [] h n = tt
NoneBefore-mono a b (e ∷ es) h n = (not_less_trans a b e.when h n.0, NoneBefore-mono a b es h n.1)

add_event-NoneBefore :
    (t : Timeval) (ev : Event) (es : List Event)
    → less ev.when t ≡ false
    → NoneBefore t es
    → NoneBefore t (add_event ev es)
unfolding add_event
add_event-NoneBefore t ev [] h n = (h, tt)
add_event-NoneBefore t ev (e ∷ es) h n = elim (Bool-cases (less ev.when e.when)) [
  | inl l ↦ rw l (h, n)
  | inr l ↦ rw l (n.0, add_event-NoneBefore t ev es h n.1)
]

pub insert-IsOrdered : (ev : Event) (es : List Event) → IsOrdered es → IsOrdered (add_event ev es)
unfolding add_event
insert-IsOrdered ev [] o = (tt, tt)
insert-IsOrdered ev (e ∷ es) o = elim (Bool-cases (less ev.when e.when)) [
  | inl l ↦ rw l (
    (
      less_asymm ev.when e.when l,
      NoneBefore-mono ev.when e.when es (less_asymm ev.when e.when l) o.0,
    ),
    o,
  )
  | inr l ↦ rw l (add_event-NoneBefore e.when ev es l o.0, insert-IsOrdered ev es o.1)
]

-- The queue in two parts: what is not after the time, and what is.
abbrev pub AllAfter : Timeval → List Event → Type 0
AllAfter t [] = Unit {0}
AllAfter t (e ∷ es) = (less t e.when ≡ true) × AllAfter t es

abbrev pub NoneAfter : Timeval → List Event → Type 0
NoneAfter t [] = Unit {0}
NoneAfter t (e ∷ es) = (less t e.when ≡ false) × NoneAfter t es

less_trans : (a b c : Timeval) → less a b ≡ true → less c b ≡ false → less a c ≡ true
less_trans a b c h k = elim (Bool-cases (less a c)) [
  | inl e ↦ e
  | inr e ↦ cc (not_less_trans b c a k e)
]

AllAfter-mono :
    (t : Timeval) (e : Event) (es : List Event)
    → less t e.when ≡ true
    → NoneBefore e.when es
    → AllAfter t es
AllAfter-mono t e [] h n = tt
AllAfter-mono t e (x ∷ xs) h n = (less_trans t e.when x.when h n.0, AllAfter-mono t e xs h n.1)

abbrev Splits : Event → List Event → Type 0
Splits ev es =
    (before : List Event) × (after : List Event) × (es ≡ before ++ after)
    × (add_event ev es ≡ before ++ (ev ∷ after))
    × NoneAfter ev.when before
    × AllAfter ev.when after

split : (ev : Event) (es : List Event) → IsOrdered es → Splits ev es
unfolding add_event
split ev [] o = ([], [], refl, refl, tt, tt)
split ev (e ∷ es) o = elim (Bool-cases (less ev.when e.when)) [
  | inl l ↦ ([], e ∷ es, refl, rw l, tt, (l, AllAfter-mono ev.when e es l o.0))
  | inr l ↦
      let (before, after, p, q, n, a) = split ev es o.1 in
      (e ∷ before, after, ap (◌∷◌ e) p, rw l (ap (◌∷◌ e) q), (l, n), a)
]

-- `addEvent` keeps the queue in order, and puts the event behind all that are not after it, those of
-- the same time included, and before all that are.
pub add_event-IsOrdered :
    (ev : Event) (es : List Event)
    → IsOrdered es
    → IsOrdered (add_event ev es)
      × ((before : List Event) × (after : List Event) × (es ≡ before ++ after)
          × (add_event ev es ≡ before ++ (ev ∷ after))
          × NoneAfter ev.when before
          × AllAfter ev.when after)
add_event-IsOrdered ev es o = (insert-IsOrdered ev es o, split ev es o)
