-- ===== src/Timeval.antt =====
-- src/netmate/Timeval.cc: comparing, adding and subtracting `struct timeval`, and the meter's clock.
-- `tv_sec` and `tv_usec` are signed; that they fit in a `long` is not modelled.
pub mod Order
pub mod Trace
mod Tests
use netmate_flowcalc.Common.{ℕ, ◌≡◌, Bool, not, ◌==◌, if◌then◌else◌}
use netmate_flowcalc.Common.Int.{ℤ, pos, negsuc, ◌+ℤ◌, ◌-ℤ◌, ◌*ℤ◌, ◌≤ℤ◌, ltb_ℤ}

pub record Timeval : Type 0 where
  pub tv_sec : ℤ
  pub tv_usec : ℤ

abbrev pub million : ℤ
million = pos 1000000

-- -1, 0 or 1.
unfoldable pub cmp : Timeval → Timeval → ℤ
cmp t1 t2 =
    if ltb_ℤ t1.tv_sec t2.tv_sec
    then negsuc 0
    else if ltb_ℤ t2.tv_sec t1.tv_sec
    then pos 1
    else if ltb_ℤ t1.tv_usec t2.tv_usec
    then negsuc 0
    else if ltb_ℤ t2.tv_usec t1.tv_usec
    then pos 1
    else pos 0

carry : ℤ → ℤ → Timeval
carry sec usec =
    if ltb_ℤ usec million
    then record { tv_sec = sec; tv_usec = usec }
    else record { tv_sec = sec +ℤ pos 1; tv_usec = usec -ℤ million }

unfoldable pub add : Timeval → Timeval → Timeval
unfolding carry
add a b = carry (a.tv_sec +ℤ b.tv_sec) (a.tv_usec +ℤ b.tv_usec)

borrow : ℤ → ℤ → Timeval
borrow sec usec =
    if ltb_ℤ usec (pos 0)
    then record { tv_sec = sec -ℤ pos 1; tv_usec = usec +ℤ million }
    else record { tv_sec = sec; tv_usec = usec }

floor_zero : Timeval → Timeval
floor_zero rv = if ltb_ℤ rv.tv_sec (pos 0) then record { tv_sec = pos 0; tv_usec = pos 0 } else rv

unfoldable pub sub0 : Timeval → Timeval → Timeval
unfolding borrow floor_zero
sub0 num sub = floor_zero (borrow (num.tv_sec -ℤ sub.tv_sec) (num.tv_usec -ℤ sub.tv_usec))

-- The time in microseconds. The code computes it in `double`, which is exact up to 2^53.
unfoldable pub micros : Timeval → ℤ
micros t = t.tv_sec *ℤ million +ℤ t.tv_usec

-- The statics `g_time` and `onlineCap`.
pub record Clock : Type 0 where
  pub g_time : Timeval
  pub online_cap : ℕ

-- `::gettimeofday` is the argument.
unfoldable pub gettimeofday : Clock → Timeval → Timeval
gettimeofday c system = if c.online_cap == 0 then c.g_time else system

-- The seconds alone; `::time` is the argument.
unfoldable pub time : Clock → ℤ → ℤ
time c system = if c.online_cap == 0 then c.g_time.tv_sec else system

-- The return value, and the clock after the call.
unfoldable pub settimeofday : Clock → Timeval → ℤ × Clock
settimeofday c tv =
    if ltb_ℤ (micros tv) (micros c.g_time) then (negsuc 0, c) else (pos 0, record c { g_time = tv })
