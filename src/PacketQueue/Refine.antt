-- ===== src/PacketQueue/Refine.antt =====
-- The methods of the queue against a list of packets, oldest first.
use netmate_flowcalc.Common.{
  ℕ, zero, suc, ◌+◌, ◌-◌, ◌<◌, ◌≤◌, ◌≡◌, refl, sym, ap, subst, ◌∙◌, List, [], ◌∷◌, arith,
}
use netmate_flowcalc.Common.Int.{pos, ◌+ℤ◌}
use netmate_flowcalc.PacketQueue.Ring.{cells, index_after}
use netmate_flowcalc.PacketQueue.Layout.{Chain, taken, cost, behind}
use netmate_flowcalc.PacketQueue.Invariant.{contents, IsValid}
use netmate_flowcalc.PacketQueue.{PktBufRec, PacketQueue, no_rec, next_index, oldest, release}

-- The list is empty exactly when all buffers are free, and else begins with the oldest record.
data View (q : PacketQueue) : List PktBufRec → Type 0 where
  empty : q.free_buffers ≡ q.max_buffers → View q []
  used :
      (rs : List PktBufRec)
      → q.free_buffers < q.max_buffers
      → rs
        ≡ cells no_rec q.max_buffers q.buf_recs
            (next_index q.max_buffers q.next_out_buf)
            (q.max_buffers - (q.free_buffers + 1))
      → View q (oldest q ∷ rs)

View-at :
    (q : PacketQueue) (k : ℕ)
    → q.free_buffers ≤ q.max_buffers
    → q.max_buffers - q.free_buffers ≡ k
    → View q (cells no_rec q.max_buffers q.buf_recs q.next_out_buf k)
unfolding cells oldest
View-at q zero h e = empty (omega arith)
View-at q (suc k) h e =
    let d : k ≡ q.max_buffers - (q.free_buffers + 1) = omega arith in
    used (cells no_rec q.max_buffers q.buf_recs (next_index q.max_buffers q.next_out_buf) k)
      (omega arith)
      (ap (cells no_rec q.max_buffers q.buf_recs (next_index q.max_buffers q.next_out_buf)) d)

view : (q : PacketQueue) → q.free_buffers ≤ q.max_buffers → View q (contents q)
unfolding contents
view q h = View-at q (q.max_buffers - q.free_buffers) h refl

contents_cons-View :
    (q : PacketQueue) (xs : List PktBufRec) (r : PktBufRec) (rs : List PktBufRec)
    → View q xs
    → xs ≡ r ∷ rs
    → (oldest q ≡ r) × (q.free_buffers < q.max_buffers) × (contents (release q) ≡ rs)
unfolding contents release
contents_cons-View q [] r rs v e = cc
contents_cons-View q (x ∷ xs) r rs (used ys f d) e = (cc, f, sym d ∙ cc)

contents_nil-View :
    (q : PacketQueue) (xs : List PktBufRec) → View q xs → xs ≡ [] → q.free_buffers ≡ q.max_buffers
contents_nil-View q [] (empty f) e = f
contents_nil-View q (x ∷ xs) v e = cc

module _ (q : PacketQueue) (v : IsValid q) where
  pub contents_nil : contents q ≡ [] → q.free_buffers ≡ q.max_buffers
  contents_nil e = contents_nil-View q (contents q) (view q v.free_le) e

  pub contents_cons :
      (r : PktBufRec) (rs : List PktBufRec)
      → contents q ≡ r ∷ rs
      → (oldest q ≡ r) × (q.free_buffers < q.max_buffers) × (contents (release q) ≡ rs)
  contents_cons r rs e = contents_cons-View q (contents q) r rs (view q v.free_le) e

  memory_released :
      (r : PktBufRec) (t : ℕ)
      → oldest q ≡ r
      → q.free_memory ≡ pos (q.max_memory - (cost q.guard_buf_len q.max_memory r.pos r.len + t))
      → cost q.guard_buf_len q.max_memory r.pos r.len + t ≤ q.max_memory
      → r.pos + r.len ≤ q.max_memory
      → (release q).free_memory ≡ pos (q.max_memory - t)
  unfolding release ◌+ℤ◌
  memory_released r t o m f b = rw (o, m) (ground arith)

  pub release-IsValid :
      (r : PktBufRec) (rs : List PktBufRec) → contents q ≡ r ∷ rs → IsValid (release q)
  unfolding release index_after
  release-IsValid r rs e =
      let c = contents_cons r rs e in
      let ch : Chain q.guard_buf_len q.max_memory v.start (r ∷ rs) q.cur_data =
        subst (λ xs. Chain q.guard_buf_len q.max_memory v.start xs q.cur_data) e v.chain in
      let t : taken q.guard_buf_len q.max_memory (r ∷ rs) ≤ q.max_memory =
        subst (λ xs. taken q.guard_buf_len q.max_memory xs ≤ q.max_memory) e v.fits in
      let m : q.free_memory ≡ pos (q.max_memory - taken q.guard_buf_len q.max_memory (r ∷ rs)) =
        subst (λ xs. q.free_memory ≡ pos (q.max_memory - taken q.guard_buf_len q.max_memory xs)) e
          v.memory in
      record {
        guarded = v.guarded;
        room = v.room;
        sized = v.sized;
        free_le = omega (arith, c.1);
        out_lt = ground arith;
        in_place =
            let k : q.max_buffers - q.free_buffers ≡ suc (q.max_buffers - (q.free_buffers + 1)) =
              omega (arith, c.1) in
            v.in_place ∙ ap (index_after q.max_buffers q.next_out_buf) k;
        start = behind q.guard_buf_len q.max_memory v.start r.len;
        chain = rw c.2 ch.4;
        fits = rw c.2 (omega arith);
        memory =
            rw c.2
              (memory_released r (taken q.guard_buf_len q.max_memory rs) c.0 m t (omega arith));
      }
