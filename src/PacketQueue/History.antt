-- ===== src/PacketQueue/History.antt =====
-- The queue under any sequence of calls.
use mathlib.Core.List.{append-nil, append_assoc}
use mathlib.Core.Path.{◌≡⟨◌⟩◌, ◌∎}
use netmate_flowcalc.Common.{
  ℕ, ◌+◌, ◌==◌, ◌||◌, Bool-cases, ◌≡◌, sym, ap, ◌∙◌, inl, inr, List, [], ◌∷◌, ◌++◌, none, some,
  Option-cases,
}
use netmate_flowcalc.Common.Int.{pos, ltb_ℤ}
use netmate_flowcalc.PacketQueue.Invariant.{contents, IsValid}
use netmate_flowcalc.PacketQueue.Fifo.{set_buffer_occupied-contents, release_buffer-IsValid}
use netmate_flowcalc.PacketQueue.{
  PktBufRec, PacketQueue, get_buffer_space, set_buffer_occupied, release_buffer, oldest,
}

-- The calls that may change the queue while it is in use.
pub data Call : Type 0 where
  space : Call
  occupied : ℕ → Call
  release : Call

-- The packets that a run accepts and that it releases, in order, and the queue after it.
pub record Run : Type 0 where
  pub accepted : List PktBufRec
  pub released : List PktBufRec
  pub queue : PacketQueue

abbrev nothing : PacketQueue → Run
nothing q = record { accepted = []; released = []; queue = q }

unfoldable pub step : PacketQueue → Call → Run
step q space = nothing (get_buffer_space q).1
step q (occupied len) = elim (set_buffer_occupied q (pos len)) [
  | none ↦ nothing q
  | some (signal, q') ↦ record {
    accepted = record { pos = q.cur_data; len = len } ∷ [];
    released = [];
    queue = q';
  }
]
step q release = elim (release_buffer q) [
  | none ↦ nothing q
  | some q' ↦ record { accepted = []; released = oldest q ∷ []; queue = q' }
]

unfoldable pub run : PacketQueue → List Call → Run
run q [] = nothing q
run q (c ∷ cs) =
    let r = step q c in
    let rest = run r.queue cs in
    record {
      accepted = r.accepted ++ rest.accepted;
      released = r.released ++ rest.released;
      queue = rest.queue;
    }

-- Nothing is lost, made up or reordered.
abbrev pub Kept : PacketQueue → Run → Type 0
Kept q r = IsValid r.queue × (contents q ++ r.accepted ≡ r.released ++ contents r.queue)

drop-IsValid :
    (q : PacketQueue) (d : ℕ) → IsValid q → Kept q (nothing (record q { dropped_packets = d }))
unfolding contents
drop-IsValid q d v = (
  record {
    guarded = v.guarded;
    room = v.room;
    sized = v.sized;
    free_le = v.free_le;
    out_lt = v.out_lt;
    in_place = v.in_place;
    start = v.start;
    chain = v.chain;
    fits = v.fits;
    memory = v.memory;
  },
  append-nil _,
)

space-Kept : (q : PacketQueue) → IsValid q → Kept q (nothing (get_buffer_space q).1)
unfolding get_buffer_space
space-Kept q v =
    elim (Bool-cases (q.free_buffers == 0 || ltb_ℤ q.free_memory (pos q.guard_buf_len))) [
      | inl e ↦ rw e (drop-IsValid q (q.dropped_packets + 1) v)
      | inr e ↦ rw e (v, append-nil _)
    ]

step-Kept : (q : PacketQueue) (c : Call) → IsValid q → Kept q (step q c)
unfolding step
step-Kept q space v = space-Kept q v
step-Kept q (occupied len) v = elim (Option-cases (set_buffer_occupied q (pos len))) [
  | inl e ↦ rw (e, step) (v, append-nil _)
  | inr ((signal, q'), e) ↦
      let k = set_buffer_occupied-contents q len signal q' v e in rw (e, step) (k.0, sym k.1)
]
step-Kept q release v = elim (Option-cases (release_buffer q)) [
  | inl e ↦ rw (e, step) (v, append-nil _)
  | inr (q', e) ↦ let k = release_buffer-IsValid q q' v e in rw (e, step) (k.0, append-nil _ ∙ k.1)
]

-- Whatever the calls: the queue stays valid, and the packets in it at the start, followed by those
-- accepted, are those released, followed by those still in it, in the same order.
pub run-Kept : (q : PacketQueue) (cs : List Call) → IsValid q → Kept q (run q cs)
unfolding run
run-Kept q [] v = (v, append-nil _)
run-Kept q (c ∷ cs) v =
    let k = step-Kept q c v in
    let h = run-Kept (step q c).queue cs k.0 in
    (
      h.0,
      contents q ++ ((step q c).accepted ++ (run (step q c).queue cs).accepted)
          ≡⟨ sym (append_assoc (contents q) _ _) ⟩
            (contents q ++ (step q c).accepted) ++ (run (step q c).queue cs).accepted
          ≡⟨ ap (λ xs. xs ++ (run (step q c).queue cs).accepted) k.1 ⟩
            ((step q c).released ++ contents (step q c).queue) ++ (run (step q c).queue cs).accepted
          ≡⟨ append_assoc (step q c).released _ _ ⟩
            (step q c).released ++ (contents (step q c).queue ++ (run (step q c).queue cs).accepted)
          ≡⟨ ap (λ xs. (step q c).released ++ xs) h.1 ⟩
            (step q c).released
            ++ ((run (step q c).queue cs).released ++ contents (run (step q c).queue cs).queue)
          ≡⟨ sym (append_assoc (step q c).released _ _) ⟩
            ((step q c).released ++ (run (step q c).queue cs).released)
            ++ contents (run (step q c).queue cs).queue ∎,
    )
