-- ===== src/MetricData/Values.antt =====
-- The values that a module writes by the functions of src/proc_modules/ProcModule.c, and what
-- `getNextData` of src/netmate/MetricData.cc gives for one of them.
use netmate_flowcalc.Common.{
  ℕ, suc, ◌+◌, ◌-◌, ◌^◌, ◌≤◌, ◌<◌, ◌≡◌, ◌≢◌, refl, sym, ap, subst, ◌∙◌, true, false, List, [], ◌∷◌,
  ◌++◌, Option, some, ◌==◌, ◌>>=◌, length, take, drop, arith, length-append,
}
use netmate_flowcalc.ExportList.{
  DataType, char, int8, int16, int32, int64, uint64, uint8, uint16, uint32, string, binary,
  ipv4addr, float, double,
}
use netmate_flowcalc.ExportData.{
  Writer, aligned, le_bytes, store_at, region, add_aligned, add_char, add_int8, add_int16,
  add_int32, add_int64, add_uint64, add_uint8, add_uint16, add_uint32, add_float, add_double,
  add_ipv4addr, add_string, add_binary,
}
use netmate_flowcalc.ExportData.Memory.{length-le_bytes, store_at_before}
use netmate_flowcalc.MetricData.{Buf}
use netmate_flowcalc.MetricData.Filled.{filled, load_written, behind}
use netmate_flowcalc.MetricData.Reader.{
  type_size, align, load, le_value, strlen, next_fixed, next_string, next_binary, get_next_data,
}

-- A value that a module exports: a number of a fixed width, a text or a block of bytes.
pub data Item : Type 0 where
  word : DataType → ℕ → Item
  text blob : List ℕ → Item

abbrev pub item_type : Item → DataType
item_type (word t v) = t
item_type (text s) = string
item_type (blob s) = binary

unfoldable pub item_bytes : Item → List ℕ
unfolding le_bytes type_size
item_bytes (word t v) = le_bytes (type_size t) v
item_bytes (text s) = s
item_bytes (blob s) = s

-- The call that a module makes for a value of such a type.
abbrev pub add_word : DataType → ℕ → Writer → Writer
add_word char v w = add_char v w
add_word int8 v w = add_int8 v w
add_word uint8 v w = add_uint8 v w
add_word int16 v w = add_int16 v w
add_word uint16 v w = add_uint16 v w
add_word int32 v w = add_int32 v w
add_word uint32 v w = add_uint32 v w
add_word ipv4addr v w = add_ipv4addr v w
add_word float v w = add_float v w
add_word double v w = add_double v w
add_word int64 v w = add_int64 v w
add_word uint64 v w = add_uint64 v w
add_word _ v w = w

abbrev pub add_item : Item → Writer → Writer
add_item (word t v) w = add_word t v w
add_item (text s) w = add_string s w
add_item (blob s) w = add_binary s w

abbrev pub add_items : List Item → Writer → Writer
add_items [] w = w
add_items (it ∷ its) w = add_items its (add_item it w)

-- A fixed type that is found behind the place `q`. The reader aligns an integer of 64 bits to 32.
abbrev pub IsPlaced : DataType → ℕ → Type 0
IsPlaced char q = Unit {0}
IsPlaced int8 q = Unit {0}
IsPlaced uint8 q = Unit {0}
IsPlaced int16 q = Unit {0}
IsPlaced uint16 q = Unit {0}
IsPlaced int32 q = Unit {0}
IsPlaced uint32 q = Unit {0}
IsPlaced ipv4addr q = Unit {0}
IsPlaced float q = Unit {0}
IsPlaced double q = Unit {0}
IsPlaced int64 q = aligned q 4 ≡ aligned q 8
IsPlaced uint64 q = aligned q 4 ≡ aligned q 8
IsPlaced _ q = ⊥

abbrev pub AllNonzero : List ℕ → Type 0
AllNonzero [] = Unit {0}
AllNonzero (c ∷ cs) = (c ≢ 0) × AllNonzero cs

-- What can be read back behind `w`: a number that is placed well, a text without a 0, a block with
-- a length of 32 bits.
abbrev pub IsReadable : Item → Writer → Type 0
IsReadable (word t v) w = IsPlaced t w.pos
IsReadable (text s) w = AllNonzero s
IsReadable (blob s) w = length s < 2 ^ 32

-- The bytes at the pointer that `writeData` of src/export_modules/netai_arff.cc prints: a text up to its
-- 0, a block by its length, and of every other type its own number of bytes.
unfoldable pub value_at : DataType → Buf → ℕ → Option (List ℕ)
unfolding load strlen le_value type_size
value_at string b o = do bytes ← b.buf; n ← strlen (drop o bytes); load b o n
value_at binary b o = do bytes ← load b o 4; load b (o + 4) (le_value bytes)
value_at t b o = load b o (type_size t)

-- `ptr` is behind the value, and the value is found where the pointer says.
pub record IsRead (it : Item) (b : Buf) (mem : ℕ → ℕ) (n : ℕ) (w : Writer) (tmp : ℕ) : Type 0 where
  pub next :
      get_next_data (item_type it) (filled b mem n w.pos)
      ≡ some (some tmp, filled b mem n (add_item it w).pos)
  pub value :
      value_at (item_type it) (filled b mem n (add_item it w).pos) tmp ≡ some (item_bytes it)

-- A number of `size` bytes, whose type the reader aligns as `t`.
read_fixed :
    (size v : ℕ) (t type : DataType) (b : Buf) (mem : ℕ → ℕ) (n : ℕ) (w : Writer)
    → align w.pos t ≡ aligned w.pos size
    → type_size type ≡ size
    → aligned w.pos size + size ≤ n
    → ((i : ℕ)
        → i < aligned w.pos size + size
        → store_at w.dest (aligned w.pos size) (le_bytes size v) i ≡ mem i)
    → (next_fixed t type (filled b mem n w.pos)
        ≡ some (some (aligned w.pos size), filled b mem n (aligned w.pos size + size)))
      × (load (filled b mem n (aligned w.pos size + size)) (aligned w.pos size) size
          ≡ some (le_bytes size v))
unfolding next_fixed
read_fixed size v t type b mem n w e e' h same =
    let l = length-le_bytes size v in
    (
      rw (e, e') refl,
      subst
          (λ k.
            load (filled b mem n (aligned w.pos size + size)) (aligned w.pos size) k
            ≡ some (le_bytes size v))
          l
          (load_written b w.dest mem n (aligned w.pos size + size) (aligned w.pos size)
            (le_bytes size v) (omega (arith, l)) (λ i c. same i (omega (arith, l, c)))),
    )

-- The memory in the end agrees with the writer after the value up to its place there.
abbrev pub Remains : (ℕ → ℕ) → ℕ → Writer → Type 0
Remains mem n w = (w.pos ≤ n) × ((i : ℕ) → i < w.pos → w.dest i ≡ mem i)

word-IsRead :
    (t : DataType) (v : ℕ) (b : Buf) (mem : ℕ → ℕ) (n : ℕ) (w : Writer)
    → IsPlaced t w.pos
    → Remains mem n (add_word t v w)
    → (tmp : ℕ) × IsRead (word t v) b mem n w tmp
unfolding get_next_data value_at add_char add_int8 add_int16 add_int32 add_int64 add_uint64 align
    aligned add_uint8 add_uint16 add_uint32 add_float add_double add_ipv4addr add_aligned item_bytes
word-IsRead char v b mem n w u (h, same) =
    let (x, y) = read_fixed 1 v char char b mem n w refl refl h same in
    (aligned w.pos 1, record { next = x; value = y })
word-IsRead int8 v b mem n w u (h, same) =
    let (x, y) = read_fixed 1 v char int8 b mem n w refl refl h same in
    (aligned w.pos 1, record { next = x; value = y })
word-IsRead uint8 v b mem n w u (h, same) =
    let (x, y) = read_fixed 1 v char uint8 b mem n w refl refl h same in
    (aligned w.pos 1, record { next = x; value = y })
word-IsRead int16 v b mem n w u (h, same) =
    let (x, y) = read_fixed 2 v int16 int16 b mem n w refl refl h same in
    (aligned w.pos 2, record { next = x; value = y })
word-IsRead uint16 v b mem n w u (h, same) =
    let (x, y) = read_fixed 2 v uint16 uint16 b mem n w refl refl h same in
    (aligned w.pos 2, record { next = x; value = y })
word-IsRead int32 v b mem n w u (h, same) =
    let (x, y) = read_fixed 4 v int32 int32 b mem n w refl refl h same in
    (aligned w.pos 4, record { next = x; value = y })
word-IsRead uint32 v b mem n w u (h, same) =
    let (x, y) = read_fixed 4 v uint32 uint32 b mem n w refl refl h same in
    (aligned w.pos 4, record { next = x; value = y })
word-IsRead ipv4addr v b mem n w u (h, same) =
    let (x, y) = read_fixed 4 v ipv4addr ipv4addr b mem n w refl refl h same in
    (aligned w.pos 4, record { next = x; value = y })
word-IsRead float v b mem n w u (h, same) =
    let (x, y) = read_fixed 4 v float float b mem n w refl refl h same in
    (aligned w.pos 4, record { next = x; value = y })
word-IsRead double v b mem n w u (h, same) =
    let (x, y) = read_fixed 8 v double double b mem n w refl refl h same in
    (aligned w.pos 8, record { next = x; value = y })
word-IsRead int64 v b mem n w u (h, same) =
    let (x, y) = read_fixed 8 v int32 int64 b mem n w u refl h same in
    (aligned w.pos 8, record { next = x; value = y })
word-IsRead uint64 v b mem n w u (h, same) =
    let (x, y) = read_fixed 8 v int32 uint64 b mem n w u refl h same in
    (aligned w.pos 8, record { next = x; value = y })
word-IsRead _ v b mem n w u r = absurd u

strlen_text : (s rest : List ℕ) → AllNonzero s → strlen ((s ++ 0 ∷ []) ++ rest) ≡ some (length s)
unfolding strlen
strlen_text [] rest u = refl
strlen_text (c ∷ cs) rest (u, us) =
    let differ : (c == 0) ≡ false = ground arith in
    let more : length cs + 1 ≡ suc (length cs) = omega arith in
    rw (differ, strlen_text cs rest us) (ap some more)

take_text : (s rest : List ℕ) → take (length s) ((s ++ 0 ∷ []) ++ rest) ≡ s
take_text [] rest = refl
take_text (c ∷ cs) rest = ap (λ t. c ∷ t) (take_text cs rest)

text-IsRead :
    (s : List ℕ) (b : Buf) (mem : ℕ → ℕ) (n : ℕ) (w : Writer)
    → AllNonzero s
    → Remains mem n (add_string s w)
    → (tmp : ℕ) × IsRead (text s) b mem n w tmp
unfolding get_next_data next_string value_at add_string item_bytes
text-IsRead s b mem n w u (h, same) =
    let l = length-append s (0 ∷ []) in
    let there = behind w.dest mem n w.pos (s ++ 0 ∷ []) h same in
    let rest = region mem (w.pos + length (s ++ 0 ∷ [])) (n - w.pos - length (s ++ 0 ∷ [])) in
    let self : (length s == length s) ≡ true = ground arith in
    let next_pos : w.pos + length s + 1 ≡ w.pos + length (s ++ 0 ∷ []) = omega (arith, l) in
    (
      w.pos,
      record {
        next = rw (there, strlen_text s rest u) (rw next_pos refl);
        value = rw (there, strlen_text s rest u, take_text s rest, self) refl;
      },
    )

aligned_word : (q : ℕ) → align q uint32 ≡ aligned q 4
unfolding align aligned
aligned_word q = refl

le_value-le_bytes : (n : ℕ) → n < 2 ^ 32 → le_value (le_bytes 4 n) ≡ n
unfolding le_value le_bytes
le_value-le_bytes n h = omega arith

blob-IsRead :
    (s : List ℕ) (b : Buf) (mem : ℕ → ℕ) (n : ℕ) (w : Writer)
    → length s < 2 ^ 32
    → Remains mem n (add_binary s w)
    → (tmp : ℕ) × IsRead (blob s) b mem n w tmp
unfolding get_next_data next_binary value_at add_binary add_uint32 add_aligned type_size item_bytes
blob-IsRead s b mem n w u (h, same) =
    let p = aligned w.pos 4 in
    let dest₁ = store_at w.dest p (le_bytes 4 (length s)) in
    let (x, y) =
      read_fixed 4 (length s) uint32 uint32 b mem n w (aligned_word w.pos) refl (omega arith)
        (λ i c. sym (store_at_before dest₁ (p + 4) s i c) ∙ same i (omega arith)) in
    let len = le_value-le_bytes (length s) u in
    let at = aligned_word w.pos in
    (
      p,
      record {
        next = rw (at, y, len) refl;
        value = rw (y, len) (load_written b dest₁ mem n (p + 4 + length s) (p + 4) s h same);
      },
    )

-- Each value that a module writes is where `getNextData` says, if nothing is written over it.
pub item-IsRead :
    (it : Item) (b : Buf) (mem : ℕ → ℕ) (n : ℕ) (w : Writer)
    → IsReadable it w
    → Remains mem n (add_item it w)
    → (tmp : ℕ) × IsRead it b mem n w tmp
item-IsRead (word t v) b mem n w u r = word-IsRead t v b mem n w u r
item-IsRead (text s) b mem n w u r = text-IsRead s b mem n w u r
item-IsRead (blob s) b mem n w u r = blob-IsRead s b mem n w u r
