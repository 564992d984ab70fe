-- ===== src/MetricData/Reader.antt =====
-- The cursors of src/netmate/MetricData.cc, by which an export module reads the data of the flows. A
-- read outside of a buffer, a column or a list is `none`.
use netmate_flowcalc.Common.{
  ℕ, zero, suc, ◌+◌, ◌-◌, ◌*◌, ◌/◌, ◌^◌, List, [], ◌∷◌, Option, none, some, ◌==◌, ltb, ◌>>=◌,
  if◌then◌else◌, length, get_elem?, set, take, drop,
}
use netmate_flowcalc.Common.Int.{ℤ, pos, negsuc, ◌+ℤ◌}
use netmate_flowcalc.ExportList.{
  DataType, invalid1, list, list_end, char, int8, int16, int32, int64, uint8, uint16, uint32,
  uint64, string, binary, ipv4addr, ipv6addr, float, double, invalid2, ExportTable,
}
use netmate_flowcalc.MetricData.{Buf, MetricData}

-- DataTypeSize
unfoldable pub type_size : DataType → ℕ
type_size invalid1 = 0
type_size list = 0
type_size list_end = 0
type_size char = 1
type_size int8 = 1
type_size int16 = 2
type_size int32 = 4
type_size int64 = 8
type_size uint8 = 1
type_size uint16 = 2
type_size uint32 = 4
type_size uint64 = 8
type_size string = 0
type_size binary = 4
type_size ipv4addr = 4
type_size ipv6addr = 16
type_size float = 4
type_size double = 8
type_size invalid2 = 0

-- `align`; the buffer itself is aligned for every type.
unfoldable pub align : ℕ → DataType → ℕ
unfolding type_size
align var t = let size = type_size t in if size == 0 then var else (var + size - 1) / size * size

-- `n` bytes of a buffer, from `o` on.
unfoldable pub load : Buf → ℕ → ℕ → Option (List ℕ)
load b o n = do
  bytes ← b.buf
  let got = take n (drop o bytes)
  if length got == n then some got else none

-- The number whose bytes these are, the lowest first.
unfoldable pub le_value : List ℕ → ℕ
le_value [] = 0
le_value (b ∷ bs) = b + 256 * le_value bs

-- *((int *) tmp)
unfoldable pub load_int : Buf → ℕ → Option ℤ
unfolding load le_value
load_int b o = do
  bytes ← load b o 4
  let n = le_value bytes
  some (if ltb n (2 ^ 31) then pos n else negsuc (2 ^ 32 - 1 - n))

unfoldable pub strlen : List ℕ → Option ℕ
strlen [] = none
strlen (c ∷ cs) = let later = strlen cs in if c == 0 then some 0 else later >>= (λ n. some (n + 1))

-- A value of a type that is aligned as `t`: where it is, and the pointer behind it.
unfoldable pub next_fixed : DataType → DataType → Buf → Option (Option ℕ × Buf)
unfolding align type_size
next_fixed t type b =
    let tmp = align b.ptr t in some (some tmp, record b { ptr = tmp + type_size type })

unfoldable pub next_string : Buf → Option (Option ℕ × Buf)
unfolding strlen
next_string b = do
  bytes ← b.buf
  n ← strlen (drop b.ptr bytes)
  some (some b.ptr, record b { ptr = b.ptr + n + 1 })

unfoldable pub next_binary : Buf → Option (Option ℕ × Buf)
unfolding align type_size load le_value
next_binary b =
    let tmp = align b.ptr uint32 in
    do
      bytes ← load b tmp 4
      some (some tmp, record b { ptr = tmp + type_size uint32 + le_value bytes })

-- `getNextData`: the pointer to the value, or NULL, and the buffer with `ptr` behind it.
unfoldable pub get_next_data : DataType → Buf → Option (Option ℕ × Buf)
unfolding next_fixed next_string next_binary
get_next_data char b = next_fixed char char b
get_next_data int8 b = next_fixed char int8 b
get_next_data uint8 b = next_fixed char uint8 b
get_next_data int16 b = next_fixed int16 int16 b
get_next_data uint16 b = next_fixed uint16 uint16 b
get_next_data int32 b = next_fixed int32 int32 b
get_next_data uint32 b = next_fixed uint32 uint32 b
get_next_data ipv4addr b = next_fixed ipv4addr ipv4addr b
get_next_data float b = next_fixed float float b
get_next_data double b = next_fixed double double b
get_next_data ipv6addr b = next_fixed int32 ipv6addr b
get_next_data int64 b = next_fixed int32 int64 b
get_next_data uint64 b = next_fixed int32 uint64 b
get_next_data string b = next_string b
get_next_data binary b = next_binary b
get_next_data list b = some (none, b)
get_next_data list_end b = some (none, b)
get_next_data invalid1 b = some (none, b)
get_next_data invalid2 b = some (none, b)

-- The members for the export. `list_number` is `currList + 1`, `flow_number` is `currFlow + 1`, and
-- `col` is the static variable of `getNextFlowDataRow`.
pub record Reader : Type 0 where
  pub metric : MetricData
  pub export_lists : List ExportTable
  pub list_number : ℕ
  pub flow_number : ℕ
  pub col : ℕ

rewound : List Buf → List Buf
rewound [] = []
rewound (b ∷ bs) = record b { ptr = 0 } ∷ rewound bs

unfoldable pub init_export : Reader → Reader
unfolding rewound
init_export r = record r {
  metric = record r.metric {
    data_bufs = rewound r.metric.data_bufs;
    key_bufs = rewound r.metric.key_bufs;
  };
  list_number = 0;
  flow_number = 0;
}

-- The element of the list or of the flow that the cursor is on.
unfoldable pub current : {A : Type 0} → ℕ → List A → Option A
current zero xs = none
current (suc i) xs = get_elem? xs i

-- The rows of all flows of a variable list, from the headers of their data.
unfoldable pub sum_rows : ℕ → List Buf → Option ℤ
unfolding load_int align
sum_rows zero bufs = some (pos 0)
sum_rows (suc n) [] = none
sum_rows (suc n) (b ∷ bufs) = do
  r ← load_int b (align b.ptr binary)
  rest ← sum_rows n bufs
  some (r +ℤ rest)

-- `getNextList`
unfoldable pub get_next_list : Reader → Option (ℤ × Reader)
unfolding sum_rows
get_next_list r =
    let r₁ = record r { list_number = r.list_number + 1; flow_number = 0 } in
    let rows = sum_rows r.metric.flow_count r.metric.data_bufs in
    if r.list_number == length r.export_lists then some (negsuc 0, r₁) else do
      table ← get_elem? r.export_lists r.list_number
      if table.nrows == 1
          then some (pos r.metric.flow_count, r₁)
          else if table.nrows == 0
          then (rows >>= (λ n. some (n, r₁)))
          else some (negsuc 0, r₁)

-- The header of a variable list is skipped from where `ptr` is.
skip_header : ℕ → Buf → Reader → Option (ℤ × Reader)
unfolding load_int align
skip_header i b r = do
  n ← load_int b (align b.ptr binary)
  let bufs = set r.metric.data_bufs i (record b { ptr = b.ptr + 8 })
  some (n, record r { metric = record r.metric { data_bufs = bufs } })

rows_of_flow : ExportTable → ℕ → Buf → Reader → Option (ℤ × Reader)
unfolding skip_header
rows_of_flow table i b r =
    if table.nrows == 1
    then some (pos 1, r)
    else if table.nrows == 0
    then skip_header i b r
    else some (negsuc 0, r)

-- `getNextFlow`: the rows, with the id of the flow and whether it is new; -1 behind the last flow.
unfoldable pub get_next_flow : Reader → Option (ℤ × Option (ℕ × ℕ) × Reader)
unfolding rows_of_flow current
get_next_flow r =
    let i = r.flow_number in
    let r₁ = record r { flow_number = i + 1 } in
    if i == r.metric.flow_count then some (negsuc 0, none, r₁) else do
      b ← get_elem? r.metric.data_bufs i
      table ← current r.list_number r.export_lists
      (n, r₂) ← rows_of_flow table i b r₁
      some (n, some (b.flow_id, b.new_flow), r₂)

-- `getNextFlowDataRow`: the type and the pointer, or NULL behind the last column.
unfoldable pub get_next_flow_data_row : Reader → Option (Option (DataType × Option ℕ) × Reader)
unfolding get_next_data current
get_next_flow_data_row r = do
  table ← current r.list_number r.export_lists
  if r.col == length table.cols then some (none, record r { col = 0 }) else do
    t ← get_elem? table.cols r.col
    b ← current r.flow_number r.metric.data_bufs
    (tmp, b') ← get_next_data t.type b
    let bufs = set r.metric.data_bufs (r.flow_number - 1) b'
    some (
      some (t.type, tmp),
      record r { metric = record r.metric { data_bufs = bufs }; col = r.col + 1 },
    )
