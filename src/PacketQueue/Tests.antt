-- ===== src/PacketQueue/Tests.antt =====
-- Runs of the packet queue, and its theorems at concrete queues.
use netmate_flowcalc.Common.{◌≡◌, refl, Bool, false, List, [], ◌∷◌, ◌++◌, some, arith}
use netmate_flowcalc.Common.Int.{pos, ◌-ℤ◌, ◌+ℤ◌}
use netmate_flowcalc.PacketQueue.{
  PacketQueue, make, occupy, oldest, release, get_buffer_space, set_buffer_occupied, release_buffer,
}
use netmate_flowcalc.PacketQueue.Invariant.{contents, IsValid}
use netmate_flowcalc.PacketQueue.Fifo.{
  make-IsValid, set_buffer_occupied-contents, get_buffer_space-set_buffer_occupied,
}
use netmate_flowcalc.PacketQueue.History.{Call, space, occupied, run, step, Kept, run-Kept}

abbrev empty_queue : PacketQueue
empty_queue = make 4 false (pos 100) 100

abbrev one_packet : PacketQueue
one_packet = occupy empty_queue 60

abbrev after_release : PacketQueue
after_release = release one_packet

empty_queue-IsValid : IsValid empty_queue
empty_queue-IsValid = (make-IsValid 4 false 100 100 (omega arith) (omega arith) (omega arith)).0

one_packet_accepted : set_buffer_occupied empty_queue (pos 60) ≡ some (false, one_packet)
unfolding set_buffer_occupied make occupy
one_packet_accepted = refl

one_packet-IsValid : IsValid one_packet
one_packet-IsValid =
    (set_buffer_occupied-contents empty_queue 60 false one_packet empty_queue-IsValid
      one_packet_accepted).0

space_granted : get_buffer_space one_packet ≡ (some 60, one_packet)
unfolding get_buffer_space make occupy ◌-ℤ◌
space_granted = refl

get_buffer_space-set_buffer_occupied_example :
    (signal : Bool) × (r : PacketQueue) × (set_buffer_occupied one_packet (pos 100)
      ≡ some (signal, r))
    × IsValid r
    × (contents r ≡ contents one_packet ++ (record { pos = 60; len = 100 } ∷ []))
get_buffer_space-set_buffer_occupied_example =
    get_buffer_space-set_buffer_occupied one_packet 60 100 one_packet one_packet-IsValid
      space_granted (omega arith) (unfold make occupy in omega arith)

released_one : release_buffer one_packet ≡ some after_release
unfolding release_buffer make occupy release
released_one = refl

abbrev calls : List Call
calls = space ∷ occupied 100 ∷ space ∷ occupied 7 ∷ Call.release ∷ occupied 0 ∷ []

-- The call with length 0 is refused.
first_released : (run empty_queue calls).released ≡ record { pos = 0; len = 100 } ∷ []
unfolding run step set_buffer_occupied get_buffer_space release_buffer make occupy release oldest
    ◌-ℤ◌ ◌+ℤ◌
first_released = refl

run-Kept_example : Kept one_packet (run one_packet calls)
run-Kept_example = run-Kept one_packet calls one_packet-IsValid
