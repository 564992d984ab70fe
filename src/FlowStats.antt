-- ===== src/FlowStats.antt =====
-- src/proc_modules/netai_flowstats.c: the statistics of one flow, fed with its packets. This file has
-- the data and the packet; the children have the TCP states and `processPacket`.
-- A `double` is only summed up here, so its type and operations are a parameter. `uint32_t` and
-- `uint64_t` counters wrap; the overflow of an `int32_t` count of periods is an outcome of its own.
pub mod Tcp
pub mod Record
pub mod Process
pub mod Export
mod Tests
use netmate_flowcalc.Common.{
  ℕ, zero, suc, ◌+◌, ◌-◌, ◌*◌, ◌/◌, ◌%◌, ◌^◌, Bool, true, false, ◌&&◌, ◌||◌, ◌==◌, ltb,
  if◌then◌else◌,
}

abbrev pub u32 : ℕ → ℕ
u32 x = x % 2 ^ 32

abbrev pub u64 : ℕ → ℕ
u64 x = x % 2 ^ 64

-- a - b of `unsigned long long`.
abbrev pub sub_u64 : ℕ → ℕ → ℕ
sub_u64 a b = u64 (a + 2 ^ 64 - u64 b)

-- What the module does with a `double`.
pub record Double (F : Type 0) : Type 0 where
  pub zero_f : F
  pub add_f : F → F → F
  -- conversion from an integer
  pub of_int : ℕ → F

-- metaData_t, as far as the module reads it; `payload i` is the byte at index `i`.
pub record Packet : Type 0 where
  pub tv_sec : ℕ
  pub tv_usec : ℕ
  pub net : ℕ
  pub trans : ℕ
  pub reverse : ℕ
  pub payload : ℕ → ℕ

-- ntohs of the two bytes at `i`.
abbrev pub ntohs_at : Packet → ℕ → ℕ
ntohs_at p i = p.payload i * 256 + p.payload (i + 1)

unfoldable pub len : Packet → ℕ
len p = ntohs_at p (p.net + 2)

unfoldable pub now : Packet → ℕ
now p = u64 (p.tv_sec * 1000000 + p.tv_usec)

-- (payload[offs[L_NET]] & 0x0F) * 4
unfoldable pub iphlen : Packet → ℕ
iphlen p = p.payload p.net % 16 * 4

unfoldable pub proto : Packet → ℕ
proto p = p.payload (p.net + 9)

unfoldable pub tcp_flags : Packet → ℕ
tcp_flags p = p.payload (p.trans + 13)

-- ((payload[offs[L_TRANS] + 12] & 0xF0) >> 4) * 4
unfoldable pub tcphlen : Packet → ℕ
tcphlen p = p.payload (p.trans + 12) % 256 / 16 * 4

unfoldable pub udplen : Packet → ℕ
udplen p = ntohs_at p (p.trans + 4)
