-- ===== src/ExportList/Tests.antt =====
-- The type information of a module with a table of one row and a table of several.
use netmate_flowcalc.Common.{◌≡◌, ◌≢◌, refl, [], ◌∷◌}
use netmate_flowcalc.ExportList.{
  next_table, new_list, is_list_end, is_list, is_invalid, TypeInfo, uint64, ipv4addr, done, thrown,
  make, list_end, stuck,
}
use netmate_flowcalc.ExportList.Ends.{make_ends}
use netmate_flowcalc.ExportList.Tables.{one_row, rows, encode, make-encode, IsData}

abbrev packets : TypeInfo
packets = record { type = uint64; name = "packets" }

abbrev address : TypeInfo
address = record { type = ipv4addr; name = "address" }

packets-IsData : IsData packets
unfolding is_invalid is_list is_list_end
packets-IsData = record { valid = refl; no_list = refl; no_end = refl }

address-IsData : IsData address
unfolding is_invalid is_list is_list_end
address-IsData = record { valid = refl; no_list = refl; no_end = refl }

make-encode_example :
    make (encode (one_row packets (packets ∷ []) ∷ rows address [] ∷ []))
    ≡ done (
        record { cols = packets ∷ packets ∷ []; nrows = 1 }
        ∷ record { cols = address ∷ []; nrows = 0 }
        ∷ [])
make-encode_example =
    make-encode (one_row packets (packets ∷ []) ∷ rows address [] ∷ [])
      ((packets-IsData, (packets-IsData, tt)), ((address-IsData, tt), tt))

-- A LISTEND that nothing opened is refused.
open_test : make (packets ∷ record { type = list_end; name = "LEnd" } ∷ []) ≡ thrown
unfolding make new_list next_table
open_test = refl

make_ends_example : make (packets ∷ record { type = list_end; name = "LEnd" } ∷ []) ≢ stuck
make_ends_example = make_ends (packets ∷ record { type = list_end; name = "LEnd" } ∷ [])
