-- ===== src/PacketQueue/Invariant.antt =====
-- The queue as a list of packets, oldest first, and the invariant that its methods keep.
use netmate_flowcalc.Common.{
  ℕ, suc, ◌+◌, ◌-◌, ◌<◌, ◌≤◌, ◌≡◌, sym, ap, ◌∙◌, List, [], ◌∷◌, ◌++◌, arith, length, length-set,
}
use netmate_flowcalc.Common.Int.{pos, ◌-ℤ◌}
use netmate_flowcalc.PacketQueue.Ring.{cells, index_after, index_after-suc, cells_push}
use netmate_flowcalc.PacketQueue.Layout.{
  Chain, taken, cost, Chain-append, taken-append, cost_fits, Chain-end,
}
use netmate_flowcalc.PacketQueue.{PktBufRec, PacketQueue, no_rec, next_index, occupy}

unfoldable pub contents : PacketQueue → List PktBufRec
contents q = cells no_rec q.max_buffers q.buf_recs q.next_out_buf (q.max_buffers - q.free_buffers)

pub record IsValid (q : PacketQueue) : Type 0 where
  pub guarded : 0 < q.guard_buf_len
  pub room : q.guard_buf_len ≤ q.max_memory
  pub sized : length q.buf_recs ≡ q.max_buffers
  pub free_le : q.free_buffers ≤ q.max_buffers
  pub out_lt : q.next_out_buf < q.max_buffers
  pub in_place :
      q.next_in_buf ≡ index_after q.max_buffers q.next_out_buf (q.max_buffers - q.free_buffers)
  pub start : ℕ
  pub chain : Chain q.guard_buf_len q.max_memory start (contents q) q.cur_data
  pub fits : taken q.guard_buf_len q.max_memory (contents q) ≤ q.max_memory
  pub memory : q.free_memory ≡ pos (q.max_memory - taken q.guard_buf_len q.max_memory (contents q))

abbrev newest : PacketQueue → ℕ → PktBufRec
newest q len = record { pos = q.cur_data; len = len }

pub contents-occupy :
    (q : PacketQueue) (len : ℕ)
    → IsValid q
    → 0 < q.free_buffers
    → contents (occupy q len) ≡ contents q ++ (newest q len ∷ [])
unfolding contents occupy
contents-occupy q len v f =
    let k = q.max_buffers - q.free_buffers in
    let grow : q.max_buffers - (q.free_buffers - 1) ≡ suc k = omega arith in
    rw (grow, v.in_place)
      (cells_push no_rec q.max_buffers q.buf_recs q.next_out_buf k (newest q len) v.sized v.out_lt
        (omega arith))

memory_taken :
    (q : PacketQueue) (len t : ℕ)
    → q.free_memory ≡ pos (q.max_memory - t)
    → q.cur_data + q.guard_buf_len ≤ q.max_memory
    → len ≤ q.guard_buf_len
    → cost q.guard_buf_len q.max_memory q.cur_data len + t ≤ q.max_memory
    → (occupy q len).free_memory
      ≡ pos (q.max_memory - (t + cost q.guard_buf_len q.max_memory q.cur_data len))
unfolding occupy ◌-ℤ◌
memory_taken q len t m c g f = ground arith

pub occupy-IsValid :
    (q : PacketQueue) (len : ℕ)
    → IsValid q
    → 0 < q.free_buffers
    → 1 ≤ len
    → len ≤ q.guard_buf_len
    → len + taken q.guard_buf_len q.max_memory (contents q) ≤ q.max_memory
    → IsValid (occupy q len)
unfolding occupy
occupy-IsValid q len v f l g m =
    let e = contents-occupy q len v f in
    let c =
      cost_fits q.guard_buf_len q.max_memory v.start (contents q) q.cur_data len v.chain v.guarded l
        g m in
    let t = taken-append q.guard_buf_len q.max_memory (contents q) (newest q len) in
    record {
      guarded = v.guarded;
      room = v.room;
      sized = length-set q.buf_recs _ _ ∙ v.sized;
      free_le = omega arith;
      out_lt = v.out_lt;
      in_place =
          let grow : q.max_buffers - (q.free_buffers - 1) ≡ suc (q.max_buffers - q.free_buffers) =
            omega arith in
          rw grow (
            ap (next_index q.max_buffers) v.in_place
            ∙ sym (index_after-suc q.max_buffers q.next_out_buf (q.max_buffers - q.free_buffers)));
      start = v.start;
      chain = rw e (
          Chain-append q.guard_buf_len q.max_memory v.start (contents q) q.cur_data len v.chain l g
            v.room);
      fits = rw (e, t) (omega (arith, c));
      memory =
          rw (e, t)
            (memory_taken q len (taken q.guard_buf_len q.max_memory (contents q)) v.memory
              (Chain-end q.guard_buf_len q.max_memory v.start (contents q) q.cur_data v.chain) g c);
    }
