-- ===== src/MetricData/Writes.antt =====
-- Each value that a module writes by the functions of src/proc_modules/ProcModule.c goes behind the
-- values before it.
use netmate_flowcalc.Common.{
  ℕ, ◌≤◌, ◌<◌, ◌≡◌, sym, ◌∙◌, List, [], ◌∷◌, length, arith, ◌++◌, length-append,
}
use netmate_flowcalc.ExportList.{
  DataType, char, int8, int16, int32, int64, uint64, uint8, uint16, uint32, ipv4addr, float, double,
}
use netmate_flowcalc.ExportData.{
  Writer, aligned, le_bytes, add_aligned, add_char, add_int8, add_int16, add_int32, add_int64,
  add_uint64, add_uint8, add_uint16, add_uint32, add_float, add_double, add_ipv4addr, add_string,
  add_binary,
}
use netmate_flowcalc.ExportData.Memory.{length-le_bytes, store_at_before}
use netmate_flowcalc.MetricData.Values.{
  Item, word, text, blob, add_word, add_item, add_items, IsPlaced, IsReadable, Remains,
}

-- A write goes behind what is there.
pub record Grows (w w' : Writer) : Type 0 where
  pub more : w.pos < w'.pos
  pub kept : (i : ℕ) → i < w.pos → w'.dest i ≡ w.dest i

add_aligned-Grows :
    (size v : ℕ) (w : Writer)
    → 0 < size
    → w.pos ≤ aligned w.pos size
    → Grows w (add_aligned size (le_bytes size v) w)
unfolding add_aligned
add_aligned-Grows size v w p h = record {
  more = omega (arith, length-le_bytes size v);
  kept = λ i c. store_at_before w.dest (aligned w.pos size) (le_bytes size v) i (omega arith);
}

aligned_behind :
    (q : ℕ) → (q ≤ aligned q 1) × (q ≤ aligned q 2) × (q ≤ aligned q 4) × (q ≤ aligned q 8)
unfolding aligned
aligned_behind q = (omega arith, omega arith, omega arith, omega arith)

add_word-Grows : (t : DataType) (v : ℕ) (w : Writer) → IsPlaced t w.pos → Grows w (add_word t v w)
unfolding add_int64 add_uint64 add_char add_int8 add_int16 add_int32 add_uint8 add_uint16 add_uint32
    add_float add_double add_ipv4addr
add_word-Grows char v w u = add_aligned-Grows 1 v w (omega arith) (aligned_behind w.pos).0
add_word-Grows int8 v w u = add_aligned-Grows 1 v w (omega arith) (aligned_behind w.pos).0
add_word-Grows uint8 v w u = add_aligned-Grows 1 v w (omega arith) (aligned_behind w.pos).0
add_word-Grows int16 v w u = add_aligned-Grows 2 v w (omega arith) (aligned_behind w.pos).1
add_word-Grows uint16 v w u = add_aligned-Grows 2 v w (omega arith) (aligned_behind w.pos).1
add_word-Grows int32 v w u = add_aligned-Grows 4 v w (omega arith) (aligned_behind w.pos).2
add_word-Grows uint32 v w u = add_aligned-Grows 4 v w (omega arith) (aligned_behind w.pos).2
add_word-Grows ipv4addr v w u = add_aligned-Grows 4 v w (omega arith) (aligned_behind w.pos).2
add_word-Grows float v w u = add_aligned-Grows 4 v w (omega arith) (aligned_behind w.pos).2
add_word-Grows double v w u = add_aligned-Grows 8 v w (omega arith) (aligned_behind w.pos).3
add_word-Grows int64 v w u = add_aligned-Grows 8 v w (omega arith) (aligned_behind w.pos).3
add_word-Grows uint64 v w u = add_aligned-Grows 8 v w (omega arith) (aligned_behind w.pos).3
add_word-Grows _ v w u = absurd u

pub add_item-Grows : (it : Item) (w : Writer) → IsReadable it w → Grows w (add_item it w)
unfolding add_string add_binary add_uint32 add_aligned
add_item-Grows (word t v) w u = add_word-Grows t v w u
add_item-Grows (text s) w u = record {
  more = omega (arith, length-append s (0 ∷ []));
  kept = λ i c. store_at_before w.dest w.pos (s ++ 0 ∷ []) i c;
}
add_item-Grows (blob s) w u =
    let first = add_aligned-Grows 4 (length s) w (omega arith) (aligned_behind w.pos).2 in
    let w₁ = add_aligned 4 (le_bytes 4 (length s)) w in
    record {
      more = omega (arith, first.more);
      kept = λ i c. store_at_before w₁.dest w₁.pos s i (omega (arith, first.more)) ∙ first.kept i c;
    }

-- Each value is readable where it comes.
abbrev pub AllReadable : List Item → Writer → Type 0
AllReadable [] w = Unit {0}
AllReadable (it ∷ its) w = IsReadable it w × AllReadable its (add_item it w)

pub before_items :
    (mem : ℕ → ℕ) (n : ℕ) (its : List Item) (w : Writer)
    → AllReadable its w
    → Remains mem n (add_items its w)
    → Remains mem n w
before_items mem n [] w u r = r
before_items mem n (it ∷ its) w (u, us) r =
    let (h, same) = before_items mem n its (add_item it w) us r in
    let g = add_item-Grows it w u in
    (omega (arith, g.more), λ i c. sym (g.kept i c) ∙ same i (omega (arith, g.more)))
