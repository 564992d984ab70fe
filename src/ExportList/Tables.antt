-- ===== src/ExportList/Tables.antt =====
-- Tables written as type information come back from the constructor.
use netmate_flowcalc.Common.{
  ℕ, zero, suc, ◌≤◌, ◌≡◌, refl, sym, ap, ◌∙◌, false, ◌||◌, List, [], ◌∷◌, ◌++◌, some, length,
  length-append, arith, map,
}
use netmate_flowcalc.ExportList.{
  TypeInfo, ExportTable, done, list, list_end, is_list, is_list_end, split_at, new_list, skip_end,
  next_table, rows_table, row_table, collect, make, any_type, is_invalid,
}

-- A table with its first column and the others: with one row, or with a LIST around the columns.
pub data Table : Type 0 where
  one_row : TypeInfo → List TypeInfo → Table
  rows : TypeInfo → List TypeInfo → Table

abbrev pub table_of : Table → ExportTable
table_of (one_row c cols) = record { cols = c ∷ cols; nrows = 1 }
table_of (rows c cols) = record { cols = c ∷ cols; nrows = 0 }

abbrev pub list_start : TypeInfo
list_start = record { type = list; name = "List" }

abbrev pub list_stop : TypeInfo
list_stop = record { type = list_end; name = "LEnd" }

abbrev pub encode : List Table → List TypeInfo
encode [] = []
encode (one_row c cols ∷ ts) = c ∷ (cols ++ encode ts)
encode (rows c cols ∷ ts) = list_start ∷ c ∷ (cols ++ list_stop ∷ encode ts)

-- A type of data.
pub record IsData (t : TypeInfo) : Type 0 where
  pub valid : is_invalid t.type ≡ false
  pub no_list : is_list t.type ≡ false
  pub no_end : is_list_end t.type ≡ false

abbrev pub AllData : List TypeInfo → Type 0
AllData [] = Unit {0}
AllData (t ∷ ts) = IsData t × AllData ts

-- Two tables with one row may not stand side by side, since nothing parts them.
abbrev pub AreApart : List Table → Type 0
AreApart [] = Unit {0}
AreApart (one_row c cols ∷ []) = AllData (c ∷ cols)
AreApart (one_row c cols ∷ one_row d dols ∷ ts) = ⊥
AreApart (one_row c cols ∷ rows d dols ∷ ts) = AllData (c ∷ cols) × AreApart (rows d dols ∷ ts)
AreApart (rows c cols ∷ ts) = AllData (c ∷ cols) × AreApart ts

no_special :
    (cols : List TypeInfo)
    → AllData cols
    → any_type (λ t. is_invalid t || is_list t || is_list_end t) cols ≡ false
unfolding any_type
no_special [] h = refl
no_special (t ∷ ts) (h, hs) = rw (h.valid, h.no_list, h.no_end) (no_special ts hs)

split_at-list_end :
    (cols rest : List TypeInfo)
    → AllData cols
    → split_at is_list_end (cols ++ list_stop ∷ rest) ≡ (cols, list_stop ∷ rest)
unfolding split_at is_list_end
split_at-list_end [] rest h = refl
split_at-list_end (t ∷ ts) rest (h, hs) = rw (h.no_end, split_at-list_end ts rest hs)

split_at-list :
    (cols rest : List TypeInfo)
    → AllData cols
    → split_at is_list (cols ++ list_start ∷ rest) ≡ (cols, list_start ∷ rest)
unfolding split_at is_list
split_at-list [] rest h = refl
split_at-list (t ∷ ts) rest (h, hs) = rw (h.no_list, split_at-list ts rest hs)

split_at-none : (cols : List TypeInfo) → AllData cols → split_at is_list (cols ++ []) ≡ (cols, [])
unfolding split_at
split_at-none [] h = refl
split_at-none (t ∷ ts) (h, hs) = rw (h.no_list, split_at-none ts hs)

new_list-data :
    (c : TypeInfo) (cols : List TypeInfo) (nrows : ℕ) (lists : List ExportTable)
    → AllData (c ∷ cols)
    → new_list (c ∷ cols) nrows lists
      ≡ some (lists ++ record { cols = c ∷ cols; nrows = nrows } ∷ [])
unfolding new_list
new_list-data c cols nrows lists h = rw (no_special (c ∷ cols) h)

next_table-rows :
    (c : TypeInfo) (cols rest : List TypeInfo)
    → AllData (c ∷ cols)
    → next_table list_start (c ∷ (cols ++ list_stop ∷ rest)) ≡ (c ∷ cols, 0, rest)
unfolding next_table rows_table is_list skip_end
next_table-rows c cols rest h = rw (split_at-list_end (c ∷ cols) rest h)

next_table-row_list :
    (c : TypeInfo) (cols rest : List TypeInfo)
    → AllData (c ∷ cols)
    → next_table c (cols ++ list_start ∷ rest) ≡ (c ∷ cols, 1, list_start ∷ rest)
unfolding next_table row_table
next_table-row_list c cols rest (h, hs) = rw (h.no_list, split_at-list cols rest hs)

next_table-row_end :
    (c : TypeInfo) (cols : List TypeInfo)
    → AllData (c ∷ cols)
    → next_table c (cols ++ []) ≡ (c ∷ cols, 1, [])
unfolding next_table row_table
next_table-row_end c cols (h, hs) = rw (h.no_list, split_at-none cols hs)

collect_step :
    (fuel : ℕ) (t c : TypeInfo) (ts cols rest : List TypeInfo) (nrows : ℕ)
    (lists : List ExportTable)
    → next_table t ts ≡ (c ∷ cols, nrows, rest)
    → AllData (c ∷ cols)
    → collect (suc fuel) (t ∷ ts) lists
      ≡ collect fuel rest (lists ++ record { cols = c ∷ cols; nrows = nrows } ∷ [])
unfolding collect
collect_step fuel t c ts cols rest nrows lists e h =
    let more = lists ++ record { cols = c ∷ cols; nrows = nrows } ∷ [] in
    rw (e, new_list-data c cols nrows lists h, collect) (ap (λ r. collect fuel r.2 more) e)

append_table :
    (lists : List ExportTable) (t : ExportTable) (more : List ExportTable)
    → (lists ++ t ∷ []) ++ more ≡ lists ++ t ∷ more
append_table [] t more = refl
append_table (l ∷ lists) t more = ap (◌∷◌ l) (append_table lists t more)

append_none : (lists : List ExportTable) → lists ++ [] ≡ lists
append_none [] = refl
append_none (l ∷ lists) = ap (◌∷◌ l) (append_none lists)

collect-encode :
    (ts : List Table) (fuel : ℕ) (lists : List ExportTable)
    → AreApart ts
    → length (encode ts) ≤ fuel
    → collect fuel (encode ts) lists ≡ done (lists ++ map table_of ts)
unfolding collect
collect-encode [] fuel lists a h = ap done (sym (append_none lists))
collect-encode (one_row c cols ∷ ts) zero lists a h = absurd (omega (arith, h))
collect-encode (rows c cols ∷ ts) zero lists a h = absurd (omega (arith, h))
collect-encode (one_row c cols ∷ []) (suc fuel) lists a h =
    collect_step fuel c c (cols ++ []) cols [] 1 lists (next_table-row_end c cols a) a
collect-encode (one_row c cols ∷ one_row d dols ∷ ts) (suc fuel) lists a h = absurd a
collect-encode (one_row c cols ∷ rows d dols ∷ ts) (suc fuel) lists (a, as') h =
    collect_step fuel c c (cols ++ encode (rows d dols ∷ ts)) cols (encode (rows d dols ∷ ts)) 1
      lists (next_table-row_list c cols (d ∷ (dols ++ list_stop ∷ encode ts)) a) a
    ∙ collect-encode (rows d dols ∷ ts) fuel (lists ++ table_of (one_row c cols) ∷ []) as'
        (omega (arith, h, length-append cols (encode (rows d dols ∷ ts))))
    ∙ ap done (append_table lists (table_of (one_row c cols)) (map table_of (rows d dols ∷ ts)))
collect-encode (rows c cols ∷ ts) (suc fuel) lists (a, as') h =
    collect_step fuel list_start c (c ∷ (cols ++ list_stop ∷ encode ts)) cols (encode ts) 0 lists
      (next_table-rows c cols (encode ts) a) a
    ∙ collect-encode ts fuel (lists ++ table_of (rows c cols) ∷ []) as'
        (omega (arith, h, length-append cols (list_stop ∷ encode ts)))
    ∙ ap done (append_table lists (table_of (rows c cols)) (map table_of ts))

valid_before :
    (cols rest : List TypeInfo)
    → AllData cols
    → any_type is_invalid rest ≡ false
    → any_type is_invalid (cols ++ rest) ≡ false
unfolding any_type
valid_before [] rest h e = e
valid_before (t ∷ ts) rest (h, hs) e = rw h.valid (valid_before ts rest hs e)

any_invalid : (ts : List Table) → AreApart ts → any_type is_invalid (encode ts) ≡ false
unfolding any_type is_invalid
any_invalid [] a = refl
any_invalid (one_row c cols ∷ []) (h, hs) = rw h.valid (valid_before cols [] hs refl)
any_invalid (one_row c cols ∷ one_row d dols ∷ ts) a = absurd a
any_invalid (one_row c cols ∷ rows d dols ∷ ts) ((h, hs), a) =
    rw h.valid (valid_before cols (encode (rows d dols ∷ ts)) hs (any_invalid (rows d dols ∷ ts) a))
any_invalid (rows c cols ∷ ts) ((h, hs), a) =
    rw h.valid (valid_before cols (list_stop ∷ encode ts) hs (any_invalid ts a))

-- Tables whose columns are data, each with one row or in LIST and LISTEND, are just what the
-- constructor gives back from their type information, if no two tables with one row stand side by
-- side.
pub make-encode : (ts : List Table) → AreApart ts → make (encode ts) ≡ done (map table_of ts)
unfolding make
make-encode ts a = rw (any_invalid ts a) (collect-encode ts (length (encode ts)) [] a (omega arith))
