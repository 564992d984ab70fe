-- ===== src/Timeval/Trace.antt =====
-- The clock that follows a trace file: `Timeval::settimeofday` over a sequence of packets.
use netmate_flowcalc.Common.{◌≡◌, refl, ◌∙◌, List, [], ◌∷◌, arith}
use netmate_flowcalc.Common.Int.{ℤ, ◌≤ℤ◌}
use netmate_flowcalc.Timeval.{Timeval, Clock, micros, gettimeofday, settimeofday}

-- The clock after the timestamps of a trace, in order.
pub follow : Clock → List Timeval → Clock
follow c [] = c
follow c (tv ∷ tvs) = follow (settimeofday c tv).1 tvs

abbrev pub NoneAfter : ℤ → List Timeval → Type 0
NoneAfter now [] = Unit {0}
NoneAfter now (tv ∷ tvs) = (micros tv ≤ℤ now) × NoneAfter now tvs

set_grows :
    (c : Clock) (tv : Timeval)
    → (micros c.g_time ≤ℤ micros (settimeofday c tv).1.g_time)
      × (micros tv ≤ℤ micros (settimeofday c tv).1.g_time)
unfolding settimeofday
set_grows c tv = ground arith

follow_grows : (c : Clock) (tvs : List Timeval) → micros c.g_time ≤ℤ micros (follow c tvs).g_time
unfolding follow
follow_grows c [] = omega arith
follow_grows c (tv ∷ tvs) = omega (arith, set_grows c tv, follow_grows (settimeofday c tv).1 tvs)

follow-NoneAfter : (c : Clock) (tvs : List Timeval) → NoneAfter (micros (follow c tvs).g_time) tvs
unfolding follow
follow-NoneAfter c [] = tt
follow-NoneAfter c (tv ∷ tvs) = (
  omega (arith, set_grows c tv, follow_grows (settimeofday c tv).1 tvs),
  follow-NoneAfter (settimeofday c tv).1 tvs,
)

follow_offline : (c : Clock) (tvs : List Timeval) → (follow c tvs).online_cap ≡ c.online_cap
unfolding follow settimeofday
follow_offline c [] = refl
follow_offline c (tv ∷ tvs) = ground (arith, follow_offline (settimeofday c tv).1 tvs)

gettimeofday_offline :
    (c : Clock) (system : Timeval) → c.online_cap ≡ 0 → gettimeofday c system ≡ c.g_time
unfolding gettimeofday
gettimeofday_offline c system off = ground arith

-- Offline, after any trace, the time that `gettimeofday` gives is not before the time that it gave
-- at the start, and not before any timestamp of the trace, also where packets came out of order.
pub gettimeofday-follow :
    (c : Clock) (tvs : List Timeval) (system : Timeval)
    → c.online_cap ≡ 0
    → (micros (gettimeofday c system) ≤ℤ micros (gettimeofday (follow c tvs) system))
      × NoneAfter (micros (gettimeofday (follow c tvs) system)) tvs
gettimeofday-follow c tvs system off =
    rw
      (
        gettimeofday_offline c system off,
        gettimeofday_offline (follow c tvs) system (follow_offline c tvs ∙ off),
      )
      (follow_grows c tvs, follow-NoneAfter c tvs)
