-- ===== src/Timeval/Order.antt =====
-- The functions of Timeval.cc against integers of microseconds.
use netmate_flowcalc.Common.{◌+◌, ◌*◌, ◌∙◌, ◌≡◌, arith, if◌then◌else◌}
use netmate_flowcalc.Common.Int.{
  ℤ, pos, negsuc, ◌+ℤ◌, ◌-ℤ◌, ◌*ℤ◌, ◌≤ℤ◌, ltb_ℤ, int_laws, *ℤ-pos_parts, pos_part, neg_part,
  +ℤ_parts, -ℤ_parts, eq_of_parts,
}
use netmate_flowcalc.Timeval.{Timeval, million, cmp, add, sub0, carry, borrow, floor_zero, micros}

-- The microseconds stand below a second.
pub record IsNormal (t : Timeval) : Type 0 where
  pub low : pos 0 ≤ℤ t.tv_usec
  pub high : t.tv_usec ≤ℤ pos 999999

pub micros_parts :
    (t : Timeval)
    → pos_part (micros t) + neg_part t.tv_sec * 1000000 + neg_part t.tv_usec
      ≡ neg_part (micros t) + pos_part t.tv_sec * 1000000 + pos_part t.tv_usec
unfolding micros
micros_parts t =
    omega (arith, *ℤ-pos_parts t.tv_sec 1000000, +ℤ_parts (t.tv_sec *ℤ pos 1000000) t.tv_usec)

-- The sign of a difference.
abbrev pub sign_of_diff : ℤ → ℤ → ℤ
sign_of_diff a b = if ltb_ℤ a b then negsuc 0 else if ltb_ℤ b a then pos 1 else pos 0

-- Of two times with their microseconds in range, `cmp` gives the sign of their difference in
-- microseconds.
pub cmp-micros :
    (t u : Timeval) → IsNormal t → IsNormal u → cmp t u ≡ sign_of_diff (micros t) (micros u)
unfolding cmp
cmp-micros t u nt nu = ground (arith, micros_parts t, micros_parts u)

carry-IsNormal : (s u : ℤ) → pos 0 ≤ℤ u → u ≤ℤ pos 1999998 → IsNormal (carry s u)
unfolding carry
carry-IsNormal s u p q = ground (arith, -ℤ_parts u million)

micros-carry : (s u : ℤ) → micros (carry s u) ≡ s *ℤ million +ℤ u
unfolding carry
micros-carry s u = ground (
  arith,
  micros_parts (record { tv_sec = s; tv_usec = u }),
  micros_parts (record { tv_sec = s +ℤ pos 1; tv_usec = u -ℤ million }),
  +ℤ_parts s (pos 1),
  -ℤ_parts u million,
  *ℤ-pos_parts s 1000000,
  +ℤ_parts (s *ℤ million) u,
  eq_of_parts (micros (record { tv_sec = s; tv_usec = u })) (s *ℤ million +ℤ u),
  eq_of_parts (micros (record { tv_sec = s +ℤ pos 1; tv_usec = u -ℤ million })) (s *ℤ million +ℤ u),
)

pub add-IsNormal : (a b : Timeval) → IsNormal a → IsNormal b → IsNormal (add a b)
unfolding add
add-IsNormal a b p q =
    carry-IsNormal (a.tv_sec +ℤ b.tv_sec) (a.tv_usec +ℤ b.tv_usec) (omega int_laws) (omega int_laws)

pub micros-add : (a b : Timeval) → micros (add a b) ≡ micros a +ℤ micros b
unfolding add
micros-add a b =
    micros-carry (a.tv_sec +ℤ b.tv_sec) (a.tv_usec +ℤ b.tv_usec)
    ∙ omega (int_laws, *ℤ-pos_parts, micros_parts)

borrow-IsNormal : (s u : ℤ) → pos 0 ≤ℤ u +ℤ million → u ≤ℤ pos 999999 → IsNormal (borrow s u)
unfolding borrow
borrow-IsNormal s u p q = ground (arith, +ℤ_parts u million)

micros-borrow : (s u : ℤ) → micros (borrow s u) ≡ s *ℤ million +ℤ u
unfolding borrow
micros-borrow s u = ground (
  arith,
  micros_parts (record { tv_sec = s; tv_usec = u }),
  micros_parts (record { tv_sec = s -ℤ pos 1; tv_usec = u +ℤ million }),
  -ℤ_parts s (pos 1),
  +ℤ_parts u million,
  *ℤ-pos_parts s 1000000,
  +ℤ_parts (s *ℤ million) u,
  eq_of_parts (micros (record { tv_sec = s; tv_usec = u })) (s *ℤ million +ℤ u),
  eq_of_parts (micros (record { tv_sec = s -ℤ pos 1; tv_usec = u +ℤ million })) (s *ℤ million +ℤ u),
)

-- The larger of a number and 0.
abbrev pub at_least_zero : ℤ → ℤ
at_least_zero a = if ltb_ℤ a (pos 0) then pos 0 else a

floor_zero_lem :
    (t : Timeval)
    → IsNormal t
    → IsNormal (floor_zero t) × (micros (floor_zero t) ≡ at_least_zero (micros t))
unfolding floor_zero
floor_zero_lem t n = ground (
  arith,
  micros_parts t,
  micros_parts (record { tv_sec = pos 0; tv_usec = pos 0 }),
  eq_of_parts (micros (record { tv_sec = pos 0; tv_usec = pos 0 })) (pos 0),
)

-- Of two times with their microseconds in range, `sub0` gives the difference in microseconds, 0 if
-- that is negative, and its microseconds are in range again.
pub sub0_lem :
    (a b : Timeval)
    → IsNormal a
    → IsNormal b
    → IsNormal (sub0 a b) × (micros (sub0 a b) ≡ at_least_zero (micros a -ℤ micros b))
unfolding sub0
sub0_lem a b p q =
    let d : Timeval = borrow (a.tv_sec -ℤ b.tv_sec) (a.tv_usec -ℤ b.tv_usec) in
    let n : IsNormal d =
      borrow-IsNormal (a.tv_sec -ℤ b.tv_sec) (a.tv_usec -ℤ b.tv_usec) (omega int_laws)
        (omega int_laws) in
    let e : micros d ≡ micros a -ℤ micros b =
      micros-borrow (a.tv_sec -ℤ b.tv_sec) (a.tv_usec -ℤ b.tv_usec)
      ∙ omega (int_laws, *ℤ-pos_parts, micros_parts) in
    rw (← e) (floor_zero_lem d n)

normal_eq : (a b : Timeval) → IsNormal a → IsNormal b → micros a ≡ micros b → a ≡ b
normal_eq a b p q e = ground (
  arith,
  micros_parts a,
  micros_parts b,
  eq_of_parts a.tv_sec b.tv_sec,
  eq_of_parts a.tv_usec b.tv_usec,
)

-- With microseconds in range, taking away what was added to a time that is not before 0 gives that
-- time back.
pub sub0-add : (a b : Timeval) → IsNormal a → IsNormal b → pos 0 ≤ℤ a.tv_sec → sub0 (add a b) b ≡ a
sub0-add a b p q h =
    let r = sub0_lem (add a b) b (add-IsNormal a b p q) q in
    normal_eq (sub0 (add a b) b) a r.0 p (
      r.1
      ∙ ground (
        arith,
        micros-add a b,
        micros_parts a,
        +ℤ_parts (micros a) (micros b),
        -ℤ_parts (micros (add a b)) (micros b),
        eq_of_parts (micros (add a b) -ℤ micros b) (micros a),
      ))
