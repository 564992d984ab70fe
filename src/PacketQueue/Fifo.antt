-- ===== src/PacketQueue/Fifo.antt =====
-- What the methods of the queue do to the list of packets.
use mathlib.Core.Option
use netmate_flowcalc.Common.{
  ℕ, zero, suc, ◌+◌, ◌-◌, ◌*◌, ◌<◌, ◌≤◌, ◌≡◌, refl, ap, subst, Bool, true, false, ◌&&◌, List, [],
  ◌∷◌, ◌++◌, Option, none, some, arith, ◌==◌, if◌then◌else◌, length-replicate,
}
use netmate_flowcalc.Common.Int.{pos}
use netmate_flowcalc.PacketQueue.Ring.{cells, index_after}
use netmate_flowcalc.PacketQueue.Layout.{
  Chain, taken, Chain-end, ApartAll, free_apart, head_apart, behind,
}
use netmate_flowcalc.PacketQueue.Invariant.{contents, IsValid, occupy-IsValid, contents-occupy}
use netmate_flowcalc.PacketQueue.Refine.{contents_nil, contents_cons, release-IsValid}
use netmate_flowcalc.PacketQueue.{
  PktBufRec, PacketQueue, no_rec, make, get_used_buffers, get_buffer_space, set_buffer_occupied,
  release_buffer, read_buffer, read_buffer_len, ReadResult, packet, null, waits, occupy, oldest,
  release,
}

-- The constructor gives a valid, empty queue, if it has a buffer and room for one guaranteed buffer.
pub make-IsValid :
    (max_bufs : ℕ) (threaded : Bool) (guaranteed avg : ℕ)
    → 0 < max_bufs
    → 0 < guaranteed
    → guaranteed ≤ max_bufs * avg
    → IsValid (make max_bufs threaded (pos guaranteed) avg)
      × (contents (make max_bufs threaded (pos guaranteed) avg) ≡ [])
unfolding make contents cells index_after
make-IsValid m t zero avg p g r = absurd (omega arith)
make-IsValid m t (suc n) avg p g r =
    let z : m - m ≡ 0 = omega arith in
    (
      record {
        guarded = g;
        room = r;
        sized = length-replicate m no_rec;
        free_le = omega arith;
        out_lt = p;
        in_place = rw z;
        start = 0;
        chain = rw z (refl, omega arith);
        fits = rw z (omega arith);
        memory = rw z (ap pos (omega arith));
      },
      rw z,
    )

-- What the tests of `setBufferOccupied` say of an accepted packet.
accepted :
    (q : PacketQueue) (len t : ℕ) (signal : Bool) (q' : PacketQueue)
    → q.free_memory ≡ pos (q.max_memory - t)
    → t ≤ q.max_memory
    → set_buffer_occupied q (pos len) ≡ some (signal, q')
    → (1 ≤ len)
      × (len ≤ q.guard_buf_len)
      × (0 < q.free_buffers)
      × (len + t ≤ q.max_memory)
      × (occupy q len ≡ q')
      × ((q'.threaded && get_used_buffers q' == 1) ≡ signal)
unfolding set_buffer_occupied
accepted q len t signal q' m f e = ground arith

-- An accepted packet stands at the end of the queue, at `curData`, with its length, and the queue
-- stays valid.
pub set_buffer_occupied-contents :
    (q : PacketQueue) (len : ℕ) (signal : Bool) (q' : PacketQueue)
    → IsValid q
    → set_buffer_occupied q (pos len) ≡ some (signal, q')
    → IsValid q' × (contents q' ≡ contents q ++ (record { pos = q.cur_data; len = len } ∷ []))
set_buffer_occupied-contents q len signal q' v e =
    let a =
      accepted q len (taken q.guard_buf_len q.max_memory (contents q)) signal q' v.memory v.fits
        e in
    subst
      (λ x. IsValid x × (contents x ≡ contents q ++ (record { pos = q.cur_data; len = len } ∷ [])))
      a.4 (occupy-IsValid q len v a.2 a.0 a.1 a.3, contents-occupy q len v a.2)

-- What the tests of `getBufferSpace` say of a granted address.
granted :
    (q : PacketQueue) (a t : ℕ) (q' : PacketQueue)
    → q.free_memory ≡ pos (q.max_memory - t)
    → t ≤ q.max_memory
    → get_buffer_space q ≡ (some a, q')
    → (0 < q.free_buffers) × (q.guard_buf_len + t ≤ q.max_memory) × (q.cur_data ≡ a) × (q ≡ q')
unfolding get_buffer_space
granted q a t q' m f e = ground arith

accepts :
    (q : PacketQueue) (len t : ℕ)
    → q.free_memory ≡ pos (q.max_memory - t)
    → t ≤ q.max_memory
    → 1 ≤ len
    → len ≤ q.guard_buf_len
    → 0 < q.free_buffers
    → q.guard_buf_len + t ≤ q.max_memory
    → set_buffer_occupied q (pos len)
      ≡ some ((occupy q len).threaded && get_used_buffers (occupy q len) == 1, occupy q len)
unfolding set_buffer_occupied
accepts q len t m f l g b r = ground arith

-- After a successful `getBufferSpace` a packet of any length up to the guaranteed one is accepted.
pub get_buffer_space-set_buffer_occupied :
    (q : PacketQueue) (a len : ℕ) (q' : PacketQueue)
    → IsValid q
    → get_buffer_space q ≡ (some a, q')
    → 1 ≤ len
    → len ≤ q.guard_buf_len
    → (signal : Bool) × (r : PacketQueue) × (set_buffer_occupied q' (pos len) ≡ some (signal, r))
      × IsValid r
      × (contents r ≡ contents q ++ (record { pos = a; len = len } ∷ []))
get_buffer_space-set_buffer_occupied q a len q' v e l g =
    let t = taken q.guard_buf_len q.max_memory (contents q) in
    let s = granted q a t q' v.memory v.fits e in
    let o = accepts q len t v.memory v.fits l g s.0 s.1 in
    let c = set_buffer_occupied-contents q len _ (occupy q len) v o in
    (
      (occupy q len).threaded && get_used_buffers (occupy q len) == 1,
      occupy q len,
      rw (← s.3) o,
      c.0,
      rw (← s.2) c.1,
    )

-- The list without its first packet, if it has one.
abbrev pub without_oldest : List PktBufRec → Option (List PktBufRec)
without_oldest [] = none
without_oldest (r ∷ rs) = some rs

release_at :
    (q : PacketQueue) (rs : List PktBufRec)
    → IsValid q
    → contents q ≡ rs
    → Option.map contents (release_buffer q) ≡ without_oldest rs
unfolding release_buffer
release_at q [] v e = ground (arith, contents_nil q v e)
release_at q (r ∷ rs) v e = ground (arith, contents_cons q v r rs e)

-- `releaseBuffer` drops the oldest packet, and fails on the empty queue only.
pub release_buffer-contents :
    (q : PacketQueue)
    → IsValid q
    → Option.map contents (release_buffer q) ≡ without_oldest (contents q)
release_buffer-contents q v = release_at q (contents q) v refl

released : (q : PacketQueue) (q' : PacketQueue) → release_buffer q ≡ some q' → release q ≡ q'
unfolding release_buffer
released q q' e = ground arith

release-IsValid_at :
    (q : PacketQueue) (rs : List PktBufRec) (q' : PacketQueue)
    → IsValid q
    → contents q ≡ rs
    → release_buffer q ≡ some q'
    → IsValid q' × (rs ≡ oldest q ∷ contents q')
release-IsValid_at q [] q' v c e =
    cc (release_buffer-contents q v, ap (Option.map contents) e, ap without_oldest c)
release-IsValid_at q (r ∷ rs) q' v c e =
    let k = contents_cons q v r rs c in
    subst (λ x. IsValid x × (r ∷ rs ≡ oldest q ∷ contents x)) (released q q' e)
      (release-IsValid q v r rs c, cc (k.0, k.2))

-- A release keeps the queue valid, and the packets before it are the oldest one and those after it.
pub release_buffer-IsValid :
    (q : PacketQueue) (q' : PacketQueue)
    → IsValid q
    → release_buffer q ≡ some q'
    → IsValid q' × (contents q ≡ oldest q ∷ contents q')
release_buffer-IsValid q q' v e = release-IsValid_at q (contents q) q' v refl e

-- What the readers see of a list of packets.
abbrev pub read_list : Bool → List PktBufRec → ReadResult × Option (ℕ × ℕ)
read_list block [] = (if block then waits else null, none)
read_list block (r ∷ rs) = (packet r.pos, some (r.pos, r.len))

read_at :
    (q : PacketQueue) (block : Bool) (rs : List PktBufRec)
    → IsValid q
    → contents q ≡ rs
    → ◌≡◌ {A = ReadResult × Option (ℕ × ℕ)}
        (read_buffer q block, read_buffer_len q)
        (read_list block rs)
unfolding read_buffer read_buffer_len
read_at q true [] v e = ground (arith, contents_nil q v e)
read_at q false [] v e = ground (arith, contents_nil q v e)
read_at q block (r ∷ rs) v e = ground (arith, contents_cons q v r rs e)

-- The readers see the oldest packet, and of an empty queue nothing: then `readBuffer(block)` waits if
-- it is told to, and gives NULL if not.
pub read_buffer-contents :
    (q : PacketQueue) (block : Bool)
    → IsValid q
    → ◌≡◌ {A = ReadResult × Option (ℕ × ℕ)}
        (read_buffer q block, read_buffer_len q)
        (read_list block (contents q))
read_buffer-contents q block v = read_at q block (contents q) v refl

-- The address that `getBufferSpace` grants lies in the ring with a whole guaranteed buffer, which
-- meets no byte of a queued packet.
pub get_buffer_space-ApartAll :
    (q : PacketQueue) (a : ℕ) (q' : PacketQueue)
    → IsValid q
    → get_buffer_space q ≡ (some a, q')
    → (a + q.guard_buf_len ≤ q.max_memory)
      × ApartAll q.guard_buf_len q.max_memory a q.guard_buf_len (contents q)
get_buffer_space-ApartAll q a q' v e =
    let t = taken q.guard_buf_len q.max_memory (contents q) in
    let s = granted q a t q' v.memory v.fits e in
    rw (← s.2) (
      Chain-end q.guard_buf_len q.max_memory v.start (contents q) q.cur_data v.chain,
      free_apart q.guard_buf_len q.max_memory v.start (contents q) q.cur_data q.guard_buf_len
          v.chain v.guarded s.1,
    )

-- Every packet of the list lies in the ring, and none meets a later one.
abbrev pub Disjoint : ℕ → ℕ → List PktBufRec → Type 0
Disjoint guard size [] = Unit {0}
Disjoint guard size (r ∷ rs) =
    (r.pos + r.len ≤ size) × ApartAll guard size r.pos r.len rs × Disjoint guard size rs

Chain-Disjoint :
    (guard size p : ℕ) (rs : List PktBufRec) (c : ℕ)
    → Chain guard size p rs c
    → 0 < guard
    → taken guard size rs ≤ size
    → Disjoint guard size rs
Chain-Disjoint g n p [] c h k t = tt
Chain-Disjoint g n p (r ∷ rs) c h k t = (
  omega arith,
  head_apart g n p r rs c h k t,
  Chain-Disjoint g n (behind g n p r.len) rs c h.4 k (omega arith),
)

-- No two packets in a valid queue share a byte.
pub contents-Disjoint :
    (q : PacketQueue) → IsValid q → Disjoint q.guard_buf_len q.max_memory (contents q)
contents-Disjoint q v =
    Chain-Disjoint q.guard_buf_len q.max_memory v.start (contents q) q.cur_data v.chain v.guarded
      v.fits
