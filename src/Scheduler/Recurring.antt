-- ===== src/Scheduler/Recurring.antt =====
-- Recurring events: `advance`, `doAlign` and `reschedNextEvent`.
use netmate_flowcalc.Common.{
  ℕ, ◌+◌, ◌*◌, ◌/◌, ◌%◌, ◌<◌, ◌≤◌, ◌≡◌, ◌≢◌, ap, subst, ◌∙◌, false, List, arith, ◌==◌,
}
use native.Mathlib.Nat.{add-mod_right, mul-mod_left, lt-div-mul-add, div-mul-le_self}
use netmate_flowcalc.Common.Int.{pos, ◌+ℤ◌, ◌≤ℤ◌, ltb_ℤ, +ℤ_parts, -ℤ_parts, eq_of_parts}
use netmate_flowcalc.Timeval.{Timeval, sub0, micros}
use netmate_flowcalc.Timeval.Order.{
  IsNormal, micros-add, add-IsNormal, cmp-micros, micros_parts, sub0_lem,
}
use netmate_flowcalc.Scheduler.{
  Event, less, add_event, advance, catch_up, do_align, align_micros, resched_next_event,
}
use netmate_flowcalc.Scheduler.Order.{IsOrdered, insert-IsOrdered}

micros-advance : (e : Event) → micros (advance e).when ≡ micros e.when +ℤ pos (e.interval * 1000)
unfolding advance
micros-advance e =
    let t : Timeval = record {
      tv_sec = pos (e.interval / 1000);
      tv_usec = pos (e.interval % 1000 * 1000);
    } in
    let m : micros t ≡ pos (e.interval * 1000) =
      omega (arith, micros_parts t, eq_of_parts (micros t) (pos (e.interval * 1000))) in
    micros-add e.when t ∙ ap (λ x. micros e.when +ℤ x) m

advance-IsNormal : (e : Event) → IsNormal e.when → IsNormal (advance e).when
unfolding advance
advance-IsNormal e n = add-IsNormal e.when _ n (record { low = omega arith; high = omega arith })

less-micros : (a b : Timeval) → IsNormal a → IsNormal b → less a b ≡ ltb_ℤ (micros a) (micros b)
unfolding less
less-micros a b m n = rw (cmp-micros a b m n) (ground arith)

-- The time of the event that is put back.
abbrev next_when : Timeval → Event → Timeval
next_when now e = (catch_up now (advance e)).when

catch_up_lem :
    (now : Timeval) (e : Event)
    → IsNormal now
    → IsNormal e.when
    → IsNormal (catch_up now e).when
      × (micros e.when ≤ℤ micros (catch_up now e).when)
      × (micros now ≤ℤ micros (catch_up now e).when +ℤ pos 999999)
unfolding catch_up
catch_up_lem now e m n =
    let d = sub0_lem now e.when m n in
    ground (
      arith,
      micros_parts (sub0 now e.when),
      -ℤ_parts (micros now) (micros e.when),
      +ℤ_parts (micros now) (pos 999999),
      +ℤ_parts (micros e.when) (pos 999999),
    )

same_body : (now : Timeval) (e : Event) → (catch_up now (advance e)).body ≡ e.body
unfolding catch_up advance
same_body now e = ground arith

same_interval : (now : Timeval) (e : Event) → (catch_up now (advance e)).interval ≡ e.interval
unfolding catch_up advance
same_interval now e = ground arith

-- An event with an interval goes back into the queue at a later time than before, by at least the
-- interval, and not a second or more before the current time; the queue stays in order.
pub resched_next_event-recurring :
    (now : Timeval) (e : Event) (es : List Event)
    → IsNormal now
    → IsNormal e.when
    → IsOrdered es
    → e.interval ≢ 0
    → (e' : Event) × (resched_next_event now e es ≡ add_event e' es)
      × IsOrdered (resched_next_event now e es)
      × (e'.body ≡ e.body)
      × (e'.interval ≡ e.interval)
      × (micros e.when +ℤ pos (e.interval * 1000) ≤ℤ micros e'.when)
      × (micros now ≤ℤ micros e'.when +ℤ pos 999999)
unfolding resched_next_event
resched_next_event-recurring now e es m n o i =
    let off : (e.interval == 0) ≡ false = ground arith in
    let c = catch_up_lem now (advance e) m (advance-IsNormal e n) in
    (
      catch_up now (advance e),
      rw off,
      rw off (insert-IsOrdered (catch_up now (advance e)) es o),
      same_body now e,
      same_interval now e,
      subst (λ x. x ≤ℤ micros (catch_up now (advance e)).when) (micros-advance e) c.1,
      c.2,
    )

-- A number of microseconds, as a time.
abbrev time_at : ℕ → Timeval
time_at t = record { tv_sec = pos (t / 1000000); tv_usec = pos (t % 1000000) }

time_of_micros : (t : ℕ) → micros (time_at t) ≡ pos t
time_of_micros t = omega (arith, micros_parts (time_at t), eq_of_parts (micros (time_at t)) (pos t))

align_micros_lem :
    (n k : ℕ)
    → k ≢ 0
    → (align_micros n k % k ≡ 0) × (n < align_micros n k) × (align_micros n k ≤ n + k)
unfolding align_micros
align_micros_lem n k i = (
  add-mod_right (n / k * k) k ∙ mul-mod_left (n / k) k,
  lt-div-mul-add (omega arith),
  omega (arith, div-mul-le_self n k),
)

-- With an alignment, an event at a time since the Epoch moves to the next multiple of its interval,
-- at most one interval on, and its microseconds are in range.
pub do_align_lem :
    (e : Event) (s u : ℕ)
    → e.when ≡ record { tv_sec = pos s; tv_usec = pos u }
    → e.interval ≢ 0
    → (t : ℕ) × (micros (do_align e).when ≡ pos t)
      × IsNormal (do_align e).when
      × (t % (e.interval * 1000) ≡ 0)
      × (s * 1000000 + u < t)
      × (t ≤ s * 1000000 + u + e.interval * 1000)
unfolding do_align
do_align_lem e s u w i =
    let off : (e.interval == 0) ≡ false = ground arith in
    let a = align_micros_lem (s * 1000000 + u) (e.interval * 1000) (omega arith) in
    let t = align_micros (s * 1000000 + u) (e.interval * 1000) in
    (
      t,
      rw (off, w) (time_of_micros t),
      rw (off, w) (record { low = omega arith; high = omega arith }),
      a.0,
      a.1,
      a.2,
    )
