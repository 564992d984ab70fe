-- ===== src/PacketProcessor/Key/Swap.antt =====
-- The two keys of a packet in the other direction.
use netmate_flowcalc.Common.{
  ℕ, ◌≡◌, Bool, true, false, List, [], ◌∷◌, some, arith, Bool-cases, Option-cases, inl, inr,
}
use netmate_flowcalc.Classifier.{MetaData}
use netmate_flowcalc.PacketProcessor.Key.{
  Filter, read_field, reverse_field, shifted, encoded, filter_keys, build_keys, flow_keys_of,
  append_key, end_keys,
}

-- The packet `q` goes back: what `p` has in an attribute `q` has in its reverse attribute, and an
-- attribute with no reverse is the same in both. An attribute with a reverse is not shifted.
pub record IsReplyAt (p q : MetaData) (fi : Filter) : Type 0 where
  pub same :
      fi.rname_empty ≡ true → read_field q fi fi.refer fi.offs ≡ read_field p fi fi.refer fi.offs
  pub back :
      fi.rname_empty ≡ false → read_field q fi fi.refer fi.offs ≡ read_field p fi fi.rrefer fi.roffs
  pub forth :
      fi.rname_empty ≡ false → read_field q fi fi.rrefer fi.roffs ≡ read_field p fi fi.refer fi.offs
  pub unshifted : fi.rname_empty ≡ false → fi.fdshift ≡ 0

abbrev pub IsReply : MetaData → MetaData → List Filter → Type 0
IsReply p q [] = Unit {0}
IsReply p q (fi ∷ fs) = IsReplyAt p q fi × IsReply p q fs

shifted_zero : (fi : Filter) (tmp : List ℕ) → fi.fdshift ≡ 0 → shifted fi tmp ≡ tmp
unfolding shifted
shifted_zero fi tmp h = ground arith

filter_keys-reply :
    (p q : MetaData) (fi : Filter) (m r : List ℕ)
    → IsReplyAt p q fi
    → filter_keys p true fi ≡ some (m, r)
    → filter_keys q true fi ≡ some (r, m)
unfolding filter_keys reverse_field encoded shifted
filter_keys-reply p q fi m r h e = elim (Option-cases (read_field p fi fi.refer fi.offs)) [
  | inl a ↦ cc (rw a at e)
  | inr (raw, a) ↦ elim (Bool-cases fi.rname_empty) [
    | inl b ↦ let f = (rw (a, b) at e) in rw (h.same b, a, b) (cc f)
    | inr b ↦ elim (Option-cases (read_field p fi fi.rrefer fi.roffs)) [
      | inl d ↦ cc (rw (a, b, d) at e)
      | inr (rraw, d) ↦
          let z = shifted_zero fi raw (h.unshifted b) in
          let z' = shifted_zero fi rraw (h.unshifted b) in
          let f = (rw (a, b, d, z) at e) in rw (h.back b, d, b, h.forth b, a, z') (cc f)
    ]
  ]
]

build_keys-reply :
    (p q : MetaData) (fs : List Filter) (m r a b : List ℕ)
    → IsReply p q fs
    → build_keys p true fs m r ≡ some (a, b)
    → build_keys q true fs r m ≡ some (b, a)
unfolding build_keys
build_keys-reply p q [] m r a b h e = cc
build_keys-reply p q (fi ∷ fs) m r a b (h, hs) e = elim (Option-cases (filter_keys p true fi)) [
  | inl d ↦ cc (rw d at e)
  | inr ((x, y), d) ↦ elim (Option-cases (append_key m x)) [
    | inl l ↦ cc (rw (d, l) at e)
    | inr (m', l) ↦ elim (Option-cases (append_key r y)) [
      | inl k ↦ cc (rw (d, l, k) at e)
      | inr (r', k) ↦
          rw (filter_keys-reply p q fi x y h d, k, l)
            (build_keys-reply p q fs m' r' a b hs (rw (d, l, k) at e))
    ]
  ]
]

end_keys-reply :
    (seppaths : Bool) (a b m r : List ℕ)
    → end_keys seppaths (a, b) ≡ some (m, r)
    → end_keys seppaths (b, a) ≡ some (r, m)
unfolding end_keys
end_keys-reply false a b m r e = cc e
end_keys-reply true a b m r e = elim (Option-cases (append_key a (1 ∷ []))) [
  | inl l ↦ cc (rw l at e)
  | inr (a', l) ↦ elim (Option-cases (append_key b (1 ∷ []))) [
    | inl k ↦ cc (rw (l, k) at e)
    | inr (b', k) ↦ let f = (rw (l, k) at e) in rw (k, l) (cc f)
  ]
]

-- If the filters of a bidirectional rule see in `q` the attributes of `p` with each attribute
-- and its reverse swapped, and no attribute with a reverse is shifted, then the two keys that are
-- built from `q` are those of `p` the other way round.
pub flow_keys_of-reply :
    (p q : MetaData) (seppaths : Bool) (fs : List Filter) (m r : List ℕ)
    → IsReply p q fs
    → flow_keys_of p true seppaths fs ≡ some (m, r)
    → flow_keys_of q true seppaths fs ≡ some (r, m)
unfolding flow_keys_of
flow_keys_of-reply p q seppaths fs m r h e = elim (Option-cases (build_keys p true fs [] [])) [
  | inl d ↦ cc (rw d at e)
  | inr ((a, b), d) ↦
      rw (build_keys-reply p q fs [] [] a b h d) (end_keys-reply seppaths a b m r (rw d at e))
]
