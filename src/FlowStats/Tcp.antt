-- ===== src/FlowStats/Tcp.antt =====
-- The TCP states of one side of a connection: `isSet` and `updateState` of netai_flowstats.c.
pub mod Handshake
use Prim.Native.Nat.{bit_and}
use netmate_flowcalc.Common.{ℕ, Bool, true, false, ◌&&◌, not, List, [], ◌∷◌, ◌==◌, if◌then◌else◌}

pub data TcpState : Type 0 where
  initial syn synack established fin closed : TcpState

unfoldable pub is_set : ℕ → ℕ → Bool
is_set bit test = bit_and bit test == bit

abbrev pub tcp_fin : ℕ
tcp_fin = 0x01

abbrev pub tcp_syn : ℕ
tcp_syn = 0x02

abbrev pub tcp_rst : ℕ
tcp_rst = 0x04

abbrev pub tcp_psh : ℕ
tcp_psh = 0x08

abbrev pub tcp_ack : ℕ
tcp_ack = 0x10

abbrev pub tcp_urg : ℕ
tcp_urg = 0x20

-- The tests of `*state` behind those of RST and FIN. `own` is `dir == pdir`.
by_state : TcpState → ℕ → Bool → TcpState
by_state fin flags own = if is_set tcp_ack flags && not own then closed else fin
by_state initial flags own = if is_set tcp_syn flags && own then syn else initial
by_state syn flags own =
    if is_set tcp_syn flags && is_set tcp_ack flags && not own then synack else syn
by_state synack flags own = if is_set tcp_ack flags && own then established else synack
by_state established flags own = established
by_state closed flags own = closed

-- `dir` is the direction of the state, `pdir` that of the packet.
unfoldable pub update_state : TcpState → ℕ → ℕ → ℕ → TcpState
unfolding by_state
update_state state flags dir pdir =
    if is_set tcp_rst flags
    then closed
    else if is_set tcp_fin flags && dir == pdir
    then fin
    else by_state state flags (dir == pdir)

pub record Segment : Type 0 where
  pub flags : ℕ
  pub pdir : ℕ

-- The state of the side `dir` after some segments.
unfoldable pub run : TcpState → ℕ → List Segment → TcpState
run s dir [] = s
run s dir (x ∷ xs) = run (update_state s x.flags dir x.pdir) dir xs
