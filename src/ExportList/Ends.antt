-- ===== src/ExportList/Ends.antt =====
-- The loop over the type information ends.
use netmate_flowcalc.Common.{
  ℕ, zero, suc, ◌≤◌, ◌≢◌, Bool, List, [], ◌∷◌, length, arith, Bool-cases, Option-cases, inl, inr,
}
use netmate_flowcalc.ExportList.{
  DataType, TypeInfo, ExportTable, stuck, is_list, is_list_end, split_at, new_list, skip_end,
  next_table, collect, make, any_type, is_invalid,
}

split_at_shorter : (p : DataType → Bool) (ts : List TypeInfo) → length (split_at p ts).1 ≤ length ts
unfolding split_at
split_at_shorter p [] = omega arith
split_at_shorter p (t ∷ ts) = elim (Bool-cases (p t.type)) [
  | inl e ↦ rw e (omega arith)
  | inr e ↦ rw e (omega (arith, split_at_shorter p ts))
]

skip_end_shorter : (ts : List TypeInfo) → length (skip_end ts) ≤ length ts
unfolding skip_end
skip_end_shorter [] = omega arith
skip_end_shorter (t ∷ ts) = omega arith

next_table_shorter : (t : TypeInfo) (ts : List TypeInfo) → length (next_table t ts).2 ≤ length ts
unfolding next_table
next_table_shorter t ts = elim (Bool-cases (is_list t.type)) [
  | inl e ↦
      rw e (
        omega
          (arith, skip_end_shorter (split_at is_list_end ts).1, split_at_shorter is_list_end ts))
  | inr e ↦ rw e (split_at_shorter is_list ts)
]

collect_ends :
    (fuel : ℕ) (ts : List TypeInfo) (lists : List ExportTable)
    → length ts ≤ fuel
    → collect fuel ts lists ≢ stuck
unfolding collect
collect_ends fuel [] lists h e = cc e
collect_ends zero (t ∷ ts) lists h e = absurd (omega arith)
collect_ends (suc fuel) (t ∷ ts) lists h e =
    let (cols, nrows, rest) = next_table t ts in
    elim (Option-cases (new_list cols nrows lists)) [
      | inl d ↦ cc (rw (collect, d) at e)
      | inr (lists', d) ↦
          collect_ends fuel rest lists' (omega (arith, next_table_shorter t ts))
            (rw (collect, d) at e)
    ]

-- Whatever type information a module has, the constructor's loop ends: it gives the tables or throws.
pub make_ends : (rtt : List TypeInfo) → make rtt ≢ stuck
unfolding make
make_ends rtt e = elim (Bool-cases (any_type is_invalid rtt)) [
  | inl h ↦ cc (rw h at e)
  | inr h ↦ collect_ends (length rtt) rtt [] (omega arith) (rw h at e)
]
