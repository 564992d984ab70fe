-- ===== src/PacketProcessor/Key/Size.antt =====
-- How long a flow key can get, against the buffers of 1024 bytes that it is built in.
use netmate_flowcalc.Common.{
  ℕ, zero, suc, ◌+◌, ◌*◌, ◌≤◌, ◌≡◌, refl, ap, Bool, List, [], ◌∷◌, ◌++◌, some, length,
  length-append, arith, Bool-cases, Option-cases, inl, inr, some_inj, sym, true, false, leb,
  Returns, ◌∙◌,
}
use netmate_flowcalc.Common.Int.{ℤ, pos, ◌+ℤ◌, ℤ-cases}
use netmate_flowcalc.Classifier.{MetaData}
use netmate_flowcalc.FilterValue.{max_filter_len}
use netmate_flowcalc.PacketProcessor.Key.{
  Filter, read_field, reverse_field, shifted, encoded, filter_keys, build_keys, flow_keys_of,
  masked_from, append_key, end_keys,
}

abbrev pub AreShort : List Filter → Type 0
AreShort [] = Unit {0}
AreShort (fi ∷ fs) = (fi.len ≤ max_filter_len) × AreShort fs

length-masked_from :
    (payload : ℕ → ℕ) (fi : Filter) (o i n : ℕ) → length (masked_from payload fi o i n) ≡ n
unfolding masked_from
length-masked_from payload fi o i zero = refl
length-masked_from payload fi o i (suc n) = ap suc (length-masked_from payload fi o (i + 1) n)

length-read_field :
    (meta : MetaData) (fi : Filter) (refer offs : ℕ)
    → (tmp : List ℕ) → read_field meta fi refer offs ≡ some tmp
    → length tmp ≡ fi.len
unfolding read_field
length-read_field meta fi refer offs tmp h = elim (ℤ-cases (meta.offs refer +ℤ pos offs)) [
  | inl (o, e) ↦ elim (Bool-cases (leb fi.len max_filter_len)) [
    | inr b ↦ cc (rw (e, b, read_field) at h)
    | inl b ↦
        sym (ap length (some_inj (rw (e, b, read_field) at h)))
        ∙ length-masked_from meta.payload fi o 0 fi.len
  ]
  | inr (n, e) ↦ cc (rw (e, read_field) at h)
]

length-reverse_field :
    (meta : MetaData) (fi : Filter) (tmp r : List ℕ)
    → length tmp ≡ fi.len
    → reverse_field meta fi tmp ≡ some r
    → length r ≡ fi.len
unfolding reverse_field
length-reverse_field meta fi tmp r l h = elim (Bool-cases fi.rname_empty) [
  | inl e ↦ sym (ap length (some_inj (rw e at h))) ∙ l
  | inr e ↦ length-read_field meta fi fi.rrefer fi.roffs r (rw e at h)
]

length-shifted : (fi : Filter) (tmp : List ℕ) → length (shifted fi tmp) ≡ length tmp
unfolding shifted
length-shifted fi [] = ground arith
length-shifted fi (b ∷ bs) = ground arith

length-encoded : (fi : Filter) (tmp : List ℕ) → length (encoded fi tmp) ≤ length tmp + 4
unfolding encoded
length-encoded fi tmp = ground (arith, length-append tmp (0 ∷ []))

encoded_short :
    (fi : Filter) (tmp m : List ℕ)
    → fi.len ≤ max_filter_len
    → length tmp ≡ fi.len
    → encoded fi tmp ≡ m
    → length m ≤ 36
encoded_short fi tmp m h l e = omega (arith, length-encoded fi tmp, ap length e)

length-filter_keys :
    (meta : MetaData) (bidir : Bool) (fi : Filter) (m r : List ℕ)
    → fi.len ≤ max_filter_len
    → filter_keys meta bidir fi ≡ some (m, r)
    → (length m ≤ 36) × (length r ≤ 36)
unfolding filter_keys
length-filter_keys meta bidir fi m r h e =
    elim (Option-cases (read_field meta fi fi.refer fi.offs)) [
      | inl a ↦ cc (rw a at e)
      | inr (raw, a) ↦
          let l = length-shifted fi raw ∙ length-read_field meta fi fi.refer fi.offs raw a in
          elim (Bool-cases bidir) [
            | inr b ↦
                let f = some_inj (rw (a, b) at e) in
                (
                  encoded_short fi (shifted fi raw) m h l (ap (λ k. k.0) f),
                  omega (arith, ap (λ k. length k.1) f),
                )
            | inl b ↦ elim (Option-cases (reverse_field meta fi (shifted fi raw))) [
              | inl d ↦ cc (rw (a, b, d) at e)
              | inr (rtmp, d) ↦
                  let f = some_inj (rw (a, b, d) at e) in
                  (
                    encoded_short fi (shifted fi raw) m h l (ap (λ k. k.0) f),
                    encoded_short fi rtmp r h
                        (length-reverse_field meta fi (shifted fi raw) rtmp l d) (ap (λ k. k.1) f),
                  )
            ]
          ]
    ]

-- A field at this offset does not start before the packet.
abbrev pub IsInside : (ℕ → ℤ) → ℕ → ℕ → Type 0
IsInside meta_offs refer offs = (o : ℕ) × (meta_offs refer +ℤ pos offs ≡ pos o)

-- So for the attributes of the filters, and for the reverse attributes that they have.
abbrev pub AreInside : (ℕ → ℤ) → List Filter → Type 0
AreInside meta_offs [] = Unit {0}
AreInside meta_offs (fi ∷ fs) =
    IsInside meta_offs fi.refer fi.offs
    × (fi.rname_empty ≡ false → IsInside meta_offs fi.rrefer fi.roffs)
    × AreInside meta_offs fs

read_field-some :
    (meta : MetaData) (fi : Filter) (refer offs : ℕ)
    → fi.len ≤ max_filter_len
    → IsInside meta.offs refer offs
    → (tmp : List ℕ) × (read_field meta fi refer offs ≡ some tmp)
unfolding read_field
read_field-some meta fi refer offs h (o, e) =
    let l : leb fi.len max_filter_len ≡ true = ground arith in
    (masked_from meta.payload fi o 0 fi.len, rw (read_field, e, l) refl)

reverse_field-some :
    (meta : MetaData) (fi : Filter) (tmp : List ℕ)
    → fi.len ≤ max_filter_len
    → (fi.rname_empty ≡ false → IsInside meta.offs fi.rrefer fi.roffs)
    → (r : List ℕ) × (reverse_field meta fi tmp ≡ some r)
unfolding reverse_field
reverse_field-some meta fi tmp h back = elim (Bool-cases fi.rname_empty) [
  | inl e ↦ (tmp, rw e refl)
  | inr e ↦
      let (r, d) = read_field-some meta fi fi.rrefer fi.roffs h (back e) in (r, simp (e, d) refl)
]

filter_keys-some :
    (meta : MetaData) (bidir : Bool) (fi : Filter)
    → fi.len ≤ max_filter_len
    → IsInside meta.offs fi.refer fi.offs
    → (fi.rname_empty ≡ false → IsInside meta.offs fi.rrefer fi.roffs)
    → (m : List ℕ) × (r : List ℕ) × (filter_keys meta bidir fi ≡ some (m, r))
unfolding filter_keys
filter_keys-some meta bidir fi h there back =
    let (raw, a) = read_field-some meta fi fi.refer fi.offs h there in
    let (rtmp, d) = reverse_field-some meta fi (shifted fi raw) h back in
    elim (Bool-cases bidir) [
      | inl b ↦ (encoded fi (shifted fi raw), encoded fi rtmp, rw (a, b, d) refl)
      | inr b ↦ (encoded fi (shifted fi raw), [], rw (a, b) refl)
    ]

append_key-fits :
    (values more : List ℕ)
    → length values + length more ≤ 1024
    → append_key values more ≡ some (values ++ more)
unfolding append_key
append_key-fits values more h =
    let l : leb (length (values ++ more)) 1024 ≡ true = ground (arith, length-append values more) in
    rw l refl

-- Both keys have at most `n` bytes.
abbrev Fit : ℕ → List ℕ × List ℕ → Type 0
Fit n (m, r) = (length m ≤ n) × (length r ≤ n)

build_keys-Returns :
    (meta : MetaData) (bidir : Bool) (fs : List Filter) (n : ℕ) (m r : List ℕ)
    → AreShort fs
    → AreInside meta.offs fs
    → Fit n (m, r)
    → n + 36 * length fs ≤ 1024
    → Returns (build_keys meta bidir fs m r) (Fit (n + 36 * length fs))
unfolding build_keys
build_keys-Returns meta bidir [] n m r h t f l = (omega (arith, f.0), omega (arith, f.1))
build_keys-Returns meta bidir (fi ∷ fs) n m r (h, hs) (there, back, ts) f l =
    let (x, y, d) = filter_keys-some meta bidir fi h there back in
    let (lx, ly) = length-filter_keys meta bidir fi x y h d in
    let k = append_key-fits m x (omega (arith, lx, f.0)) in
    let k' = append_key-fits r y (omega (arith, ly, f.1)) in
    let longer : Fit (n + 36) (m ++ x, r ++ y) =
      (omega (arith, lx, f.0, length-append m x), omega (arith, ly, f.1, length-append r y)) in
    let same : n + 36 + 36 * length fs ≡ n + 36 * suc (length fs) = omega arith in
    let later =
      build_keys-Returns meta bidir fs (n + 36) (m ++ x) (r ++ y) hs ts longer (omega arith) in
    rw (d, k, k', ← same) later

end_keys-Returns :
    (seppaths : Bool) (keys : List ℕ × List ℕ)
    → Fit 1008 keys
    → Returns (end_keys seppaths keys) (Fit 1024)
unfolding end_keys
end_keys-Returns false (m, r) f = (omega (arith, f.0), omega (arith, f.1))
end_keys-Returns true (m, r) f =
    rw
      (
        append_key-fits m (1 ∷ []) (omega (arith, f.0)),
        append_key-fits r (1 ∷ []) (omega (arith, f.1)),
      )
      (omega (arith, f.0, length-append m (1 ∷ [])), omega (arith, f.1, length-append r (1 ∷ [])))

-- With at most 28 filters, of at most 32 bytes each as FilterValue allows, whose attributes do not
-- start before the packet, both keys are built and fit the 1024 bytes of `mvalues` and `rmvalues`,
-- which the loop writes without a test.
pub flow_keys_of-fits :
    (meta : MetaData) (bidir seppaths : Bool) (fs : List Filter)
    → AreShort fs
    → length fs ≤ 28
    → AreInside meta.offs fs
    → Returns
        (flow_keys_of meta bidir seppaths fs)
        (λ (m, r). (length m ≤ 1024) × (length r ≤ 1024))
unfolding flow_keys_of
flow_keys_of-fits meta bidir seppaths fs h n t =
    let ok =
      build_keys-Returns meta bidir fs 0 [] [] h t (omega arith, omega arith) (omega arith) in
    elim (Option-cases (build_keys meta bidir fs [] [])) [
      | inl d ↦ absurd (rw d at ok)
      | inr (keys, d) ↦
          let f = (rw d at ok) in
          rw d (end_keys-Returns seppaths keys (omega (arith, f.0), omega (arith, f.1)))
    ]
