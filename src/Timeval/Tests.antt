-- ===== src/Timeval/Tests.antt =====
-- Runs of the time functions, and their theorems at concrete times.
use netmate_flowcalc.Common.{List, [], ◌∷◌, arith}
use netmate_flowcalc.Common.Int.{pos}
use netmate_flowcalc.Timeval.{Timeval, Clock}
use netmate_flowcalc.Timeval.Order.{IsNormal}

abbrev early : Timeval
early = record { tv_sec = pos 7; tv_usec = pos 900000 }

abbrev late : Timeval
late = record { tv_sec = pos 9; tv_usec = pos 200000 }

early-IsNormal : IsNormal early
early-IsNormal = record { low = omega arith; high = omega arith }

late-IsNormal : IsNormal late
late-IsNormal = record { low = omega arith; high = omega arith }

abbrev offline : Clock
offline = record { g_time = early; online_cap = 0 }

abbrev trace : List Timeval
trace = late ∷ early ∷ []
