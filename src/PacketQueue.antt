-- ===== src/PacketQueue.antt =====
-- src/netmate/PacketQueue.h and PacketQueue.cc: the ring of packet buffers between the classifier and
-- the packet processor. Every method takes the lock, so each is one step on the state. Addresses are
-- offsets into `rawData`, so `endData` is `maxMemory`; `int` overflow and a failing `new` are not
-- modelled.
pub mod Ring
pub mod Layout
pub mod Invariant
pub mod Refine
pub mod Fifo
pub mod History
mod Tests
use netmate_flowcalc.Common.{
  ℕ, zero, suc, ◌+◌, ◌-◌, ◌*◌, ◌≡◌, Bool, true, false, ◌&&◌, ◌||◌, not, List, [], ◌∷◌, Option, none,
  some, ◌==◌, ltb, leb, if◌then◌else◌, get_or, set, replicate,
}
use netmate_flowcalc.Common.Int.{ℤ, pos, negsuc, ◌+ℤ◌, ◌-ℤ◌, sub_ℕ, ltb_ℤ}

pub record PktBufRec : Type 0 where
  pub pos : ℕ
  pub len : ℕ

-- The constructor's NULL stands as offset 0; no record is read before it is written.
abbrev pub no_rec : PktBufRec
no_rec = record { pos = 0; len = 0 }

pub record PacketQueue : Type 0 where
  pub threaded : Bool
  pub free_buffers : ℕ
  pub max_buffers : ℕ
  pub free_memory : ℤ
  pub max_memory : ℕ
  pub dropped_packets : ℕ
  pub guard_buf_len : ℕ
  pub next_in_buf : ℕ
  pub next_out_buf : ℕ
  pub cur_data : ℕ
  pub buf_recs : List PktBufRec

-- (guaranteedBuf >= 1) ? guaranteedBuf : 1
guard_len : ℤ → ℕ
guard_len (ℤ.pos zero) = 1
guard_len (ℤ.pos (suc n)) = suc n
guard_len (ℤ.negsuc n) = 1

unfoldable pub clear_queue : PacketQueue → PacketQueue
clear_queue q = record q {
  free_buffers = q.max_buffers;
  free_memory = pos q.max_memory;
  next_in_buf = 0;
  next_out_buf = 0;
  cur_data = 0;
}

unfoldable pub make : ℕ → Bool → ℤ → ℕ → PacketQueue
unfolding guard_len clear_queue
make max_bufs threaded guaranteed_buf avg_buf_size = clear_queue record {
  threaded = threaded;
  free_buffers = 0;
  max_buffers = max_bufs;
  free_memory = pos 0;
  max_memory = max_bufs * avg_buf_size;
  dropped_packets = 0;
  guard_buf_len = guard_len guaranteed_buf;
  next_in_buf = 0;
  next_out_buf = 0;
  cur_data = 0;
  buf_recs = replicate max_bufs no_rec;
}

unfoldable pub get_used_buffers : PacketQueue → ℕ
get_used_buffers q = q.max_buffers - q.free_buffers

unfoldable pub get_used_memory : PacketQueue → ℤ
get_used_memory q = pos q.max_memory -ℤ q.free_memory

-- The address, or NULL with return value -1; and the queue after the call.
unfoldable pub get_buffer_space : PacketQueue → Option ℕ × PacketQueue
get_buffer_space q =
    if q.free_buffers == 0 || ltb_ℤ q.free_memory (pos q.guard_buf_len)
    then (none, record q { dropped_packets = q.dropped_packets + 1 })
    else (some q.cur_data, q)

-- The index behind `i` in an array of `n`, with wrap around.
abbrev pub next_index : ℕ → ℕ → ℕ
next_index n i = if i + 1 == n then 0 else i + 1

-- curData + guardBufLen > endData: a rest shorter than the guaranteed length is skipped.
skips : PacketQueue → ℕ → Bool
skips q cur = ltb q.max_memory (cur + q.guard_buf_len)

pub occupy : PacketQueue → ℕ → PacketQueue
unfolding skips
occupy q len =
    let cur = q.cur_data + len in
    let free = q.free_memory -ℤ pos len in
    record q {
      buf_recs = set q.buf_recs q.next_in_buf (record { pos = q.cur_data; len = len });
      next_in_buf = next_index q.max_buffers q.next_in_buf;
      free_memory = if skips q cur then free -ℤ sub_ℕ q.max_memory cur else free;
      cur_data = if skips q cur then 0 else cur;
      free_buffers = q.free_buffers - 1;
    }

-- Whether `freeBufCond` is signalled, and the queue after the call; `none` for -1, which changes
-- nothing.
unfoldable pub set_buffer_occupied : PacketQueue → ℤ → Option (Bool × PacketQueue)
unfolding get_used_buffers
set_buffer_occupied q (ℤ.negsuc n) = none
set_buffer_occupied q (ℤ.pos len) =
    if leb len 0 || ltb q.guard_buf_len len || q.free_buffers == 0 || ltb_ℤ q.free_memory (pos len)
    then none
    else (let q' = occupy q len in some (q'.threaded && get_used_buffers q' == 1, q'))

-- readBuffer(int block): the address of the oldest packet, NULL, or the call waits for a signal.
pub data ReadResult : Type 0 where
  packet : ℕ → ReadResult
  null : ReadResult
  waits : ReadResult

pub oldest : PacketQueue → PktBufRec
oldest q = get_or q.buf_recs q.next_out_buf no_rec

unfoldable pub read_buffer : PacketQueue → Bool → ReadResult
unfolding oldest get_used_buffers
read_buffer q block =
    if get_used_buffers q == 0 then (if block then waits else null) else packet (oldest q).pos

-- readBuffer(char **buf, int *len): the address and the length, or -1.
unfoldable pub read_buffer_len : PacketQueue → Option (ℕ × ℕ)
unfolding oldest
read_buffer_len q =
    if q.free_buffers == q.max_buffers then none else some ((oldest q).pos, (oldest q).len)

pub release : PacketQueue → PacketQueue
unfolding oldest skips
release q =
    let end = (oldest q).pos + (oldest q).len in
    let free = q.free_memory +ℤ pos (oldest q).len in
    record q {
      next_out_buf = next_index q.max_buffers q.next_out_buf;
      free_memory = if skips q end then free +ℤ sub_ℕ q.max_memory end else free;
      free_buffers = q.free_buffers + 1;
    }

-- `none` for -1, which changes nothing.
unfoldable pub release_buffer : PacketQueue → Option PacketQueue
release_buffer q = if q.free_buffers == q.max_buffers then none else some (release q)

unfoldable pub reset_stats : PacketQueue → PacketQueue
reset_stats q = record q { dropped_packets = 0 }
