-- ===== src/FlowStats/Tcp/Handshake.antt =====
-- A side counts as established only after a three-way handshake.
use netmate_flowcalc.Common.{
  ℕ, ◌≡◌, ◌≢◌, refl, ◌∙◌, ◌⊎◌, inl, inr, Bool, true, false, ◌&&◌, not, List, [], ◌∷◌, arith, ◌==◌,
  if◌then◌else◌,
}
use netmate_flowcalc.FlowStats.Tcp.{
  TcpState, initial, syn, synack, established, fin, closed, is_set, tcp_syn, tcp_ack, update_state,
  Segment, run,
}

-- What a segment has to be, for the side `dir`.
pub data Part : Type 0 where
  own_syn other_synack own_ack : Part

abbrev pub fits : ℕ → Part → Segment → Bool
fits dir own_syn x = is_set tcp_syn x.flags && dir == x.pdir
fits dir other_synack x = is_set tcp_syn x.flags && is_set tcp_ack x.flags && not (dir == x.pdir)
fits dir own_ack x = is_set tcp_ack x.flags && dir == x.pdir

-- Segments that fit the parts occur in this order.
pub occur : ℕ → List Part → List Segment → Bool
occur dir [] xs = true
occur dir (p ∷ ps) [] = false
occur dir (p ∷ ps) (x ∷ xs) = occur dir (if fits dir p x then ps else p ∷ ps) xs

missing : TcpState → List Part
missing initial = own_syn ∷ other_synack ∷ own_ack ∷ []
missing syn = other_synack ∷ own_ack ∷ []
missing synack = own_ack ∷ []
missing _ = []

-- No way leads back from the end of a connection.
run_ended :
    (s : TcpState) (dir : ℕ) (xs : List Segment)
    → (s ≡ fin) ⊎ (s ≡ closed)
    → run s dir xs ≢ established
unfolding run update_state
run_ended s dir [] (inl e) = λ h. cc
run_ended s dir [] (inr e) = λ h. cc
run_ended fin dir (x ∷ xs) h = run_ended (update_state fin x.flags dir x.pdir) dir xs (ground arith)
run_ended closed dir (x ∷ xs) h =
    run_ended (update_state closed x.flags dir x.pdir) dir xs (ground arith)
run_ended initial dir (x ∷ xs) h = absurd (ground arith)
run_ended _ dir (x ∷ xs) h = absurd (ground arith)

-- A segment ends the connection, or what is missing behind it is what was missing without it.
missing_step :
    (s : TcpState) (dir : ℕ) (x : Segment) (xs : List Segment)
    → ((update_state s x.flags dir x.pdir ≡ fin) ⊎ (update_state s x.flags dir x.pdir ≡ closed))
      ⊎ (occur dir (missing s) (x ∷ xs)
          ≡ occur dir (missing (update_state s x.flags dir x.pdir)) xs)
unfolding update_state occur missing
missing_step initial dir x xs = ground arith
missing_step syn dir x xs = ground arith
missing_step synack dir x xs = ground arith
missing_step _ dir x xs = ground arith

run-missing :
    (s : TcpState) (dir : ℕ) (xs : List Segment)
    → run s dir xs ≡ established
    → occur dir (missing s) xs ≡ true
unfolding run
run-missing s dir [] h = rw h (unfold missing occur in refl)
run-missing s dir (x ∷ xs) h = elim (missing_step s dir x xs) [
  | inl e ↦ absurd (run_ended (update_state s x.flags dir x.pdir) dir xs e h)
  | inr e ↦ e ∙ run-missing (update_state s x.flags dir x.pdir) dir xs h
]

-- A side that is established had sent a SYN, then got a SYN with ACK, then sent an ACK.
pub handshake :
    (dir : ℕ) (xs : List Segment)
    → run initial dir xs ≡ established
    → occur dir (own_syn ∷ other_synack ∷ own_ack ∷ []) xs ≡ true
unfolding missing
handshake dir xs h = run-missing initial dir xs h
