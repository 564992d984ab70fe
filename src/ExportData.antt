-- ===== src/ExportData.antt =====
-- src/proc_modules/ProcModule.c: how a processing module writes the data that it exports. The
-- buffer is a memory of bytes, which the source does not bound either; a number stands in it with
-- the lowest byte first.
pub mod Memory
use netmate_flowcalc.Common.{
  ℕ, zero, suc, ◌+◌, ◌-◌, ◌*◌, ◌/◌, ◌%◌, List, [], ◌∷◌, ◌++◌, ◌==◌, if◌then◌else◌, length,
}

-- `_dest`, `_pos`, `_listlen` and `_listpos`.
pub record Writer : Type 0 where
  pub dest : ℕ → ℕ
  pub pos : ℕ
  pub listlen : ℕ
  pub listpos : ℕ

-- ALIGN, for a type of `size` bytes.
unfoldable pub aligned : ℕ → ℕ → ℕ
aligned pos size = (pos + size - 1) / size * size

-- The lowest `n` bytes of a number.
unfoldable pub le_bytes : ℕ → ℕ → List ℕ
le_bytes zero v = []
le_bytes (suc n) v = v % 256 ∷ le_bytes n (v / 256)

-- memcpy into the buffer.
unfoldable pub store_at : (ℕ → ℕ) → ℕ → List ℕ → ℕ → ℕ
store_at mem o [] i = mem i
store_at mem o (b ∷ bs) i = let later = store_at mem (o + 1) bs i in if i == o then b else later

-- The bytes of the memory from `o` on.
unfoldable pub region : (ℕ → ℕ) → ℕ → ℕ → List ℕ
region mem o zero = []
region mem o (suc n) = mem o ∷ region mem (o + 1) n

unfoldable pub start_export : (ℕ → ℕ) → Writer → Writer
start_export buf w = record w { dest = buf; pos = 0 }

-- `len` bytes at `exp`.
unfoldable pub end_export : Writer → List ℕ
unfolding region
end_export w = region w.dest 0 w.pos

-- Bytes at the next place that is aligned for `size` bytes.
unfoldable pub add_aligned : ℕ → List ℕ → Writer → Writer
unfolding aligned store_at
add_aligned size bs w =
    let p = aligned w.pos size in record w { dest = store_at w.dest p bs; pos = p + length bs }

-- A signed number or a floating point number is given by its bits.
unfoldable pub add_char : ℕ → Writer → Writer
unfolding add_aligned le_bytes
add_char val = add_aligned 1 (le_bytes 1 val)

unfoldable pub add_int8 : ℕ → Writer → Writer
unfolding add_aligned le_bytes
add_int8 val = add_aligned 1 (le_bytes 1 val)

unfoldable pub add_int16 : ℕ → Writer → Writer
unfolding add_aligned le_bytes
add_int16 val = add_aligned 2 (le_bytes 2 val)

unfoldable pub add_int32 : ℕ → Writer → Writer
unfolding add_aligned le_bytes
add_int32 val = add_aligned 4 (le_bytes 4 val)

unfoldable pub add_int64 : ℕ → Writer → Writer
unfolding add_aligned le_bytes
add_int64 val = add_aligned 8 (le_bytes 8 val)

unfoldable pub add_uint8 : ℕ → Writer → Writer
unfolding add_aligned le_bytes
add_uint8 val = add_aligned 1 (le_bytes 1 val)

unfoldable pub add_uint16 : ℕ → Writer → Writer
unfolding add_aligned le_bytes
add_uint16 val = add_aligned 2 (le_bytes 2 val)

unfoldable pub add_uint32 : ℕ → Writer → Writer
unfolding add_aligned le_bytes
add_uint32 val = add_aligned 4 (le_bytes 4 val)

unfoldable pub add_uint64 : ℕ → Writer → Writer
unfolding add_aligned le_bytes
add_uint64 val = add_aligned 8 (le_bytes 8 val)

unfoldable pub add_float : ℕ → Writer → Writer
unfolding add_aligned le_bytes
add_float val = add_aligned 4 (le_bytes 4 val)

unfoldable pub add_double : ℕ → Writer → Writer
unfolding add_aligned le_bytes
add_double val = add_aligned 8 (le_bytes 8 val)

unfoldable pub add_ipv4addr : ℕ → Writer → Writer
unfolding add_uint32
add_ipv4addr val = add_uint32 val

-- The number of rows and a place for the length of the list.
unfoldable pub add_list : ℕ → Writer → Writer
unfolding add_uint32
add_list num w =
    let w₁ = add_uint32 num w in
    let w₂ = add_uint32 0 (record w₁ { listpos = w₁.pos }) in record w₂ { listlen = w₂.pos }

-- The length goes into its place.
unfoldable pub end_list : Writer → Writer
unfolding store_at le_bytes
end_list w = record w { dest = store_at w.dest w.listpos (le_bytes 4 (w.pos - w.listlen)) }

-- A text with its final 0, not aligned.
unfoldable pub add_string : List ℕ → Writer → Writer
unfolding store_at
add_string txt w =
    let bytes = txt ++ 0 ∷ [] in
    record w { dest = store_at w.dest w.pos bytes; pos = w.pos + length bytes }

unfoldable pub add_binary : List ℕ → Writer → Writer
unfolding add_uint32 store_at
add_binary src w =
    let w₁ = add_uint32 (length src) w in
    record w₁ { dest = store_at w₁.dest w₁.pos src; pos = w₁.pos + length src }
