-- ===== src/ExportList.antt =====
-- src/netmate/ExportList.h and ExportList.cc: the tables that a processing module exports, from its
-- run time type information (src/include/ProcModuleInterface.h). The array ends at EXPORTEND, which
-- is the end of the list here.
pub mod Ends
pub mod Tables
mod Tests
use Prim.Native.String.{String}
use netmate_flowcalc.Common.{
  ℕ, zero, suc, Bool, true, false, ◌||◌, not, List, [], ◌∷◌, ◌++◌, Option, none, some, length,
  is_empty, if◌then◌else◌,
}

-- DataType_e
pub data DataType : Type 0 where
  invalid1 list list_end char int8 int16 int32 int64 uint8 uint16 uint32 uint64 : DataType
  string binary ipv4addr ipv6addr float double invalid2 : DataType

-- typeInfo_t
pub record TypeInfo : Type 0 where
  pub type : DataType
  pub name : String

-- exportTable_t; a column is a type with its label, as in the type information.
pub record ExportTable : Type 0 where
  pub cols : List TypeInfo
  pub nrows : ℕ

-- What the constructor does: it ends, throws, or is still running when the fuel is used up.
pub data Result : Type 0 where
  done : List ExportTable → Result
  thrown stuck : Result

unfoldable pub is_invalid : DataType → Bool
is_invalid invalid1 = true
is_invalid invalid2 = true
is_invalid list = false
is_invalid list_end = false
is_invalid char = false
is_invalid int8 = false
is_invalid int16 = false
is_invalid int32 = false
is_invalid int64 = false
is_invalid uint8 = false
is_invalid uint16 = false
is_invalid uint32 = false
is_invalid uint64 = false
is_invalid string = false
is_invalid binary = false
is_invalid ipv4addr = false
is_invalid ipv6addr = false
is_invalid float = false
is_invalid double = false

unfoldable pub is_list : DataType → Bool
is_list list = true
is_list _ = false

unfoldable pub is_list_end : DataType → Bool
is_list_end list_end = true
is_list_end _ = false

-- Whether some entry has such a type.
unfoldable pub any_type : (DataType → Bool) → List TypeInfo → Bool
any_type p [] = false
any_type p (t ∷ ts) = p t.type || any_type p ts

-- The entries in front of the first of such a type, and those from it on.
unfoldable pub split_at : (DataType → Bool) → List TypeInfo → List TypeInfo × List TypeInfo
split_at p [] = ([], [])
split_at p (t ∷ ts) =
    let (front, back) = split_at p ts in if p t.type then ([], t ∷ ts) else (t ∷ front, back)

-- `newList`; `none` is a thrown Error.
unfoldable pub new_list : List TypeInfo → ℕ → List ExportTable → Option (List ExportTable)
unfolding any_type is_invalid is_list is_list_end
new_list cols nrows lists =
    if is_empty cols || any_type (λ t. is_invalid t || is_list t || is_list_end t) cols
    then none
    else some (lists ++ record { cols = cols; nrows = nrows } ∷ [])

-- Behind a LISTEND, if there is one.
unfoldable pub skip_end : List TypeInfo → List TypeInfo
skip_end [] = []
skip_end (t ∷ ts) = ts

-- The columns, the rows and the rest of a table that LIST starts, and of one without.
unfoldable pub rows_table : List TypeInfo → List TypeInfo × ℕ × List TypeInfo
unfolding split_at skip_end is_list_end
rows_table ts = let (cols, rest) = split_at is_list_end ts in (cols, 0, skip_end rest)

unfoldable pub row_table : TypeInfo → List TypeInfo → List TypeInfo × ℕ × List TypeInfo
unfolding split_at is_list
row_table t ts = let (cols, rest) = split_at is_list ts in (t ∷ cols, 1, rest)

-- One round: the columns of the next table, its rows, and where the next round starts.
unfoldable pub next_table : TypeInfo → List TypeInfo → List TypeInfo × ℕ × List TypeInfo
unfolding rows_table row_table
next_table t ts = if is_list t.type then rows_table ts else row_table t ts

-- The second loop of the constructor.
unfoldable pub collect : ℕ → List TypeInfo → List ExportTable → Result
collect fuel [] lists = done lists
collect zero (t ∷ ts) lists = stuck
collect (suc fuel) (t ∷ ts) lists =
    let (cols, nrows, rest) = next_table t ts in
    elim (new_list cols nrows lists) [ none ↦ thrown | some lists' ↦ collect fuel rest lists' ]

-- The constructor. Every round takes an entry at least, so one round for each is enough.
unfoldable pub make : List TypeInfo → Result
unfolding any_type is_invalid collect
make rtt = if any_type is_invalid rtt then thrown else collect (length rtt) rtt []
