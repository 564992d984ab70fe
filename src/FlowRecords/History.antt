-- ===== src/FlowRecords/History.antt =====
-- Sequences of calls of `storeData` of src/netmate/FlowRecordDB.cc and of turns of the exporter's loop
-- in src/netmate/Exporter.cc. A turn that takes a freed record has no result.
use Prim.Native.String.{String}
use netmate_flowcalc.Common.{
  ℕ, ◌+◌, ◌≤◌, ◌<◌, ◌≡◌, ◌≢◌, ◌∙◌, inl, inr, ap, refl, List, [], ◌∷◌, ◌++◌, Option, none, some,
  ◌==◌, ◌>>=◌, if◌then◌else◌, arith, Returns, Option-cases,
}
use netmate_flowcalc.Common.Int.{pos}
use netmate_flowcalc.FlowRecords.Ownership.{
  HeldIn, Unknown, Replaced, in_db, in_queue, one, times_freed, let_go_other, let_go_elist,
  one_self, one_other, queue_end, in_insert, replace-Replaced, store_data-HeldIn,
}
use netmate_flowcalc.FlowRecords.Export.{exported, let_go_db}
use netmate_flowcalc.FlowRecords.{
  Entry, FlowRec, FlowRecordDb, let_go, keep, replace, store_data, make, export_next,
}

-- The record `fr` is stored for a rule with its export modules, or the exporter takes a turn.
pub data Call : Type 0 where
  store : ℕ → List String → ℕ → Call
  export : Call

turn : FlowRecordDb → Option (ℕ × FlowRecordDb) → Option FlowRecordDb
turn s none = some s
turn s (some (r, t)) = if times_freed r s.freed == 0 then some t else none

step : Call → FlowRecordDb → Option FlowRecordDb
step (store rule_id expmods fr) s = some (store_data (pos rule_id) expmods (some fr) s)
step export s = turn s (export_next s)

-- The calls one after the other. An export from an empty queue does nothing.
pub run : List Call → FlowRecordDb → Option FlowRecordDb
run [] s = some s
run (c ∷ cs) s = step c s >>= run cs

-- How often a record is stored.
abbrev pub times_stored : ℕ → List Call → ℕ
times_stored x [] = 0
times_stored x (store rule_id expmods fr ∷ cs) = one (x == fr) + times_stored x cs
times_stored x (export ∷ cs) = times_stored x cs

kept-Unknown :
    (s : FlowRecordDb) (rule_id : ℕ) (expmods : List String) (fr x : ℕ)
    (o : Option (ℕ × List Entry))
    → Unknown s x
    → x ≢ fr
    → ((y : ℕ) → Replaced y fr s.db o)
    → Unknown
        (keep rule_id expmods fr
          (record s { elist = s.elist ++ record { expmods = expmods; fr = fr } ∷ [] })
          o)
        x
unfolding keep
kept-Unknown s rule_id expmods fr x none u n r = (
  omega (
    arith,
    u.0,
    one_other x fr n,
    in_insert x (record { rule_id = rule_id; expmods = expmods; fr = fr }) s.db,
  ),
  omega (arith, u.1, one_other x fr n, queue_end x s.elist (record { expmods = expmods; fr = fr })),
  u.2,
  u.3,
)
kept-Unknown s rule_id expmods fr x (some (old, es)) u n r =
    let queued : FlowRecordDb = record s {
      elist = s.elist ++ record { expmods = expmods; fr = fr } ∷ [];
    } in
    let ne : x ≢ old = λ e. omega (arith, (r x).1, ap (λ y. in_db y s.db) e, u.0) in
    let k = let_go_other queued old x ne in
    (
      omega (arith, (r x).0, u.0, one_other x fr n),
      ap (in_queue x) (let_go_elist queued old)
          ∙ omega (
            arith,
            u.1,
            one_other x fr n,
            queue_end x s.elist (record { expmods = expmods; fr = fr }),
          ),
      k.0 ∙ u.2,
      k.1 ∙ u.3,
    )

stored-Unknown :
    (s : FlowRecordDb) (rule_id : ℕ) (expmods : List String) (fr x : ℕ)
    → Unknown s x
    → x ≢ fr
    → Unknown (store_data (pos rule_id) expmods (some fr) s) x
unfolding store_data
stored-Unknown s rule_id expmods fr x u n =
    kept-Unknown s rule_id expmods fr x (replace rule_id expmods fr s.db) u n
      (λ y. replace-Replaced y rule_id expmods fr s.db)

popped-Unknown :
    (s : FlowRecordDb) (r : FlowRec) (rs : List FlowRec) (x : ℕ)
    → Unknown (record s { elist = r ∷ rs }) x
    → Unknown (let_go r.fr (record s { elist = rs })) x
popped-Unknown s r rs x u =
    let t : FlowRecordDb = record s { elist = rs } in
    let ne : x ≢ r.fr = λ e. omega (arith, u.1, ap (λ y. in_queue y (r ∷ rs)) e, one_self r.fr) in
    let k = let_go_other t r.fr x ne in
    (
      ap (in_db x) (let_go_db t r.fr) ∙ u.0,
      ap (in_queue x) (let_go_elist t r.fr) ∙ omega (arith, u.1),
      k.0 ∙ u.2,
      k.1 ∙ u.3,
    )

-- What holds between two calls, with the calls that are left.
record IsKept (cs : List Call) (s : FlowRecordDb) : Type 0 where
  held : (x : ℕ) → HeldIn s x
  once : (x : ℕ) → times_stored x cs ≤ 1
  unknown : (x : ℕ) → 0 < times_stored x cs → Unknown s x

store-IsKept :
    (rule_id : ℕ) (expmods : List String) (fr : ℕ) (cs : List Call) (s : FlowRecordDb)
    → IsKept (store rule_id expmods fr ∷ cs) s
    → IsKept cs (store_data (pos rule_id) expmods (some fr) s)
store-IsKept rule_id expmods fr cs s h = record {
  held = λ x.
      store_data-HeldIn s rule_id expmods fr x (h.unknown fr (omega (arith, one_self fr))) h.held;
  once = λ x. omega (arith, h.once x);
  unknown = λ x l.
      stored-Unknown s rule_id expmods fr x (h.unknown x (omega arith))
        (λ e. omega (arith, h.once fr, one_self fr, l, ap (λ y. times_stored y cs) e));
}

turn-IsKept :
    (cs : List Call) (s : FlowRecordDb) (rs : List FlowRec)
    → IsKept (export ∷ cs) (record s { elist = rs })
    → Returns (turn (record s { elist = rs }) (export_next (record s { elist = rs }))) (IsKept cs)
unfolding turn export_next
turn-IsKept cs s [] h = record { held = h.held; once = h.once; unknown = h.unknown }
turn-IsKept cs s (r ∷ rs) h =
    let free : times_freed r.fr s.freed ≡ 0 = (exported s (r ∷ rs) 0 h.held).0 in
    rw free (record {
      held = λ x. (exported s (r ∷ rs) x h.held).1;
      once = h.once;
      unknown = λ x l. popped-Unknown s r rs x (h.unknown x l);
    })

step-IsKept :
    (c : Call) (cs : List Call) (s : FlowRecordDb)
    → IsKept (c ∷ cs) s
    → Returns (step c s) (IsKept cs)
unfolding step
step-IsKept (store rule_id expmods fr) cs s h = store-IsKept rule_id expmods fr cs s h
step-IsKept export cs s h = turn-IsKept cs s s.elist h

run-IsKept :
    (cs : List Call) (s : FlowRecordDb)
    → IsKept cs s
    → Returns (run cs s) (λ t. (x : ℕ) → HeldIn t x)
unfolding run
run-IsKept [] s h = h.held
run-IsKept (c ∷ cs) s h =
    let ok = step-IsKept c cs s h in
    elim (Option-cases (step c s)) [
      | inl e ↦ absurd (rw e at ok)
      | inr (t, e) ↦ rw e (run-IsKept cs t (rw e at ok))
    ]

-- From the empty store, let `storeData` and the exporter be called in any order, each record being
-- stored at most once, and nothing be deleted. Then no turn of the exporter takes a record that was
-- freed. Afterwards every record is held by the table and the queue, or by one of the two and marked,
-- or by none and freed once, or was never stored: none was freed twice, and none is lost.
pub run-HeldIn :
    (cs : List Call)
    → ((x : ℕ) → times_stored x cs ≤ 1)
    → Returns (run cs make) (λ t. (x : ℕ) → HeldIn t x)
unfolding make
run-HeldIn cs h = run-IsKept cs make (record {
  held = λ x. inr (inr (inr (refl, refl, refl)));
  once = h;
  unknown = λ x l. (refl, refl, refl, refl);
})
