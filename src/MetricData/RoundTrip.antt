-- ===== src/MetricData/RoundTrip.antt =====
-- What a module writes by the functions of src/proc_modules/ProcModule.c is what an export module
-- reads by the cursors of src/netmate/MetricData.cc, with the loop over the columns of
-- src/export_modules/netai_arff.cc.
use Prim.Native.String.{String}
use netmate_flowcalc.Common.{
  ℕ, zero, suc, ◌+◌, ◌≤◌, ◌≡◌, refl, sym, ap, ◌∙◌, true, false, List, [], ◌∷◌, Option, none, some,
  ◌==◌, ◌>>=◌, length, get_elem?, map, arith,
}
use netmate_flowcalc.Common.Int.{ℤ, pos}
use netmate_flowcalc.ExportList.{DataType, ExportTable, TypeInfo}
use netmate_flowcalc.ExportData.{region, Writer, start_export, end_export}
use netmate_flowcalc.ExportData.Memory.{length-region}
use netmate_flowcalc.MetricData.{Buf, MetricData, make_metric, add_flow_data, data_buf}
use netmate_flowcalc.MetricData.Values.{
  Item, item_type, item_bytes, add_item, add_items, Remains, item-IsRead, value_at,
}
use netmate_flowcalc.MetricData.Writes.{AllReadable, before_items, add_item-Grows}
use netmate_flowcalc.MetricData.Filled.{filled}
use netmate_flowcalc.MetricData.Reader.{
  Reader, init_export, get_next_list, get_next_flow, get_next_flow_data_row, current,
}

-- The value that a column's pointer leads to.
unfoldable pub read_value : Reader → DataType × Option ℕ → Option (List ℕ)
unfolding current value_at
read_value r (t, tmp) = do o ← tmp; b ← current r.flow_number r.metric.data_bufs; value_at t b o

-- The loop of `exportMetricData` over the columns of a row, with as many rounds as the fuel allows.
unfoldable pub read_row : ℕ → Reader → Option (List (List ℕ) × Reader)
unfolding get_next_flow_data_row
read_row zero r = none
read_row (suc fuel) r = do
  (got, r') ← get_next_flow_data_row r
  elim got [
    | none ↦ some ([], r')
    | some x ↦
        (read_value r' x >>= (λ v. read_row fuel r' >>= (λ (rest, r''). some (v ∷ rest, r''))))
  ]

-- The first row of the first table, without the flow key: the number of rows of the first flow, its id
-- and flag, and the values. The loops over further lists, flows and rows are not run.
unfoldable pub read_first : ℕ → Reader → Option (ℤ × Option (ℕ × ℕ) × List (List ℕ))
read_first fuel r = do
  (lines, r₁) ← get_next_list (init_export r)
  (rows, flow, r₂) ← get_next_flow r₁
  (values, r₃) ← read_row fuel r₂
  some (rows, flow, values)

-- The columns have the types of the values.
abbrev pub AreTyped : List Item → List TypeInfo → Type 0
AreTyped [] [] = Unit {0}
AreTyped (it ∷ its) (c ∷ cs) = (c.type ≡ item_type it) × AreTyped its cs
AreTyped _ _ = ⊥

-- What is left of the columns from `k` on.
record IsRest (cols : List TypeInfo) (k : ℕ) (cs : List TypeInfo) : Type 0 where
  count : length cols ≡ k + length cs
  column : (j : ℕ) → get_elem? cols (k + j) ≡ get_elem? cs j

next-IsRest :
    (cols : List TypeInfo) (k : ℕ) (c : TypeInfo) (cs : List TypeInfo)
    → IsRest cols k (c ∷ cs)
    → IsRest cols (k + 1) cs
next-IsRest cols k c cs h = record {
  count = omega (arith, h.count);
  column = λ j.
      let there : k + 1 + j ≡ k + suc j = omega arith in
      ap (get_elem? cols) there ∙ h.column (suc j);
}

-- The reader on the first flow, which is the only one, at column `k` of the first table.
abbrev reader_on : MetricData → List TypeInfo → List ExportTable → ℕ → Buf → Reader
reader_on m cols more k b = record {
  metric = record m { data_bufs = b ∷ [] };
  export_lists = record { cols = cols; nrows = 1 } ∷ more;
  list_number = 1;
  flow_number = 1;
  col = k;
}

read_items :
    (m : MetricData) (cols : List TypeInfo) (more : List ExportTable) (b : Buf) (mem : ℕ → ℕ)
    (n : ℕ) (its : List Item) (cs : List TypeInfo) (k : ℕ) (w : Writer)
    → IsRest cols k cs
    → AreTyped its cs
    → AllReadable its w
    → Remains mem n (add_items its w)
    → read_row (suc (length its)) (reader_on m cols more k (filled b mem n w.pos))
      ≡ some (map item_bytes its, reader_on m cols more 0 (filled b mem n (add_items its w).pos))
unfolding read_row get_next_flow_data_row current read_value item_bytes region
read_items m cols more b mem n [] [] k w rest typed u r =
    let last : (k == length cols) ≡ true = ground (arith, rest.count) in rw last refl
read_items m cols more b mem n [] (c ∷ cs) k w rest typed u r = absurd typed
read_items m cols more b mem n (it ∷ its) [] k w rest typed u r = absurd typed
read_items m cols more b mem n (it ∷ its) (c ∷ cs) k w rest (e, es) (u, us) r =
    let inside : (k == length cols) ≡ false = ground (arith, rest.count) in
    let here : k + 0 ≡ k = omega arith in
    let column = sym (ap (get_elem? cols) here) ∙ rest.column 0 in
    let (tmp, x) = item-IsRead it b mem n w u (before_items mem n its (add_item it w) us r) in
    let later =
      read_items m cols more b mem n its cs (k + 1) (add_item it w) (next-IsRest cols k c cs rest)
        es us r in
    rw (inside, column, e, x.next, x.value, later) refl

later_pos : (its : List Item) (w : Writer) → AllReadable its w → w.pos ≤ (add_items its w).pos
later_pos its w u =
    (before_items (add_items its w).dest (add_items its w).pos its w u (omega arith, λ i c. refl)).0

-- Let a module write a row of values by the functions `ADD_…`: numbers, addresses, texts without a 0
-- and blocks of bytes, at least one of them, in the order of the columns of its first table, which
-- has one row. An integer of 64 bits must come where the alignment to 32 and to 64 bits is the same.
-- Then an export module that gets the data through `addFlowData`, and reads each value by its own size
-- as netai_arff.cc does, finds one row for the first flow, with its id and its flag, and a loop with
-- a round for each column and one more reads just the bytes of these values.
pub read_first-add_items :
    (mn : String) (old : ℕ → ℕ) (w : Writer) (it : Item) (its : List Item) (cols : List TypeInfo)
    (more : List ExportTable) (key : List ℕ) (new_flow flow_id i j : ℕ)
    → AllReadable (it ∷ its) (start_export old w)
    → AreTyped (it ∷ its) cols
    → read_first (suc (length (it ∷ its))) (record {
      metric =
          add_flow_data
            (end_export (add_items (it ∷ its) (start_export old w)))
            key
            new_flow
            flow_id
            (make_metric mn);
      export_lists = record { cols = cols; nrows = 1 } ∷ more;
      list_number = i;
      flow_number = j;
      col = 0;
    })
      ≡ some (pos 1, some (flow_id, new_flow), map item_bytes (it ∷ its))
unfolding read_first add_flow_data end_export start_export init_export get_next_list get_next_flow
    make_metric
read_first-add_items mn old w it its cols more key new_flow flow_id i j (u, us) typed =
    let w₀ = start_export old w in
    let w₂ = add_items its (add_item it w₀) in
    let g = add_item-Grows it w₀ u in
    let size : (length (end_export w₂) == 0) ≡ false =
      ground (arith, length-region w₂.dest 0 w₂.pos, g.more, later_pos its (add_item it w₀) us) in
    let present : (0 == suc (length more)) ≡ false = ground arith in
    let m = add_flow_data (end_export w₂) key new_flow flow_id (make_metric mn) in
    let rest : IsRest cols 0 cols = record {
      count = omega arith;
      column = λ k. let here : 0 + k ≡ k = omega arith in ap (get_elem? cols) here;
    } in
    let row =
      read_items
        (init_export (record {
          metric = m;
          export_lists = [];
          list_number = i;
          flow_number = j;
          col = 0;
        })).metric
        cols more (data_buf (end_export w₂) new_flow flow_id) w₂.dest w₂.pos (it ∷ its) cols 0 w₀
        rest typed (u, us) (omega arith, λ k c. refl) in
    rw (size, present) (rw (rw size at row) refl)
