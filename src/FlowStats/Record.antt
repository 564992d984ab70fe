-- ===== src/FlowStats/Record.antt =====
-- `struct flowData_t` of netai_flowstats.c, `initFlowRec`, `resetFlowRec` and `getLast`.
-- The fields that the source has twice, as `fpackets` and `bpackets`, stand in two records of one
-- type, as `f.packets` and `b.packets`; so do those of active and idle periods.
use Prim.Native.Char.{code}
use Prim.Native.String.{String}
use text.Mathlib.Text.{◌==◌ as str_eq}
use netmate_flowcalc.Common.{
  ℕ, ◌+◌, ◌-◌, ◌*◌, ◌^◌, Bool, ◌&&◌, ◌||◌, List, [], ◌∷◌, ◌==◌, ltb, leb, if◌then◌else◌,
}
use netmate_flowcalc.FlowStats.{Double, u64}
use netmate_flowcalc.FlowStats.Tcp.{TcpState, initial}

pub record Side (F : Type 0) : Type 0 where
  pub packets : ℕ
  pub bytes : ℕ
  pub min_pktl : ℕ
  pub pktl_sum : F
  pub pktl_sqsum : F
  pub max_pktl : ℕ
  pub min_iat : ℕ
  pub max_iat : ℕ
  pub iat_sum : F
  pub iat_sqsum : F
  pub last : ℕ
  pub ivals : ℕ
  pub psh_cnt : ℕ
  pub urg_cnt : ℕ
  pub total_hlen : ℕ

-- `activep`, `activet`, `min_active`, `max_active` and `active_sqsum`, or those of idle periods.
pub record Periods (F : Type 0) : Type 0 where
  pub count : ℕ
  pub time : F
  pub min_time : ℕ
  pub max_time : ℕ
  pub sqsum : F

pub record FlowData (F : Type 0) : Type 0 where
  pub f : Side F
  pub b : Side F
  pub first : ℕ
  pub lactive_start : ℕ
  pub active : Periods F
  pub idle : Periods F
  pub cstate : TcpState
  pub sstate : TcpState
  pub valid : ℕ
  pub tcp_has_data : ℕ
  pub idle_threshold : ℕ
  pub min_duration : ℕ
  pub time_cap : ℕ

module _ {F : Type 0} where
  -- The time of the last packet, in either direction.
  unfoldable pub get_last : FlowData F → ℕ
  get_last d =
      if d.b.last == 0
      then d.f.last
      else if d.f.last == 0
      then d.b.last
      else if ltb d.b.last d.f.last
      then d.f.last
      else d.b.last

module _ {F : Type 0} (fl : Double F) where
  open fl use {zero_f}

  abbrev pub no_side : Side F
  no_side = record {
    packets = 0;
    bytes = 0;
    min_pktl = 0;
    pktl_sum = zero_f;
    pktl_sqsum = zero_f;
    max_pktl = 0;
    min_iat = 0;
    max_iat = 0;
    iat_sum = zero_f;
    iat_sqsum = zero_f;
    last = 0;
    ivals = 0;
    psh_cnt = 0;
    urg_cnt = 0;
    total_hlen = 0;
  }

  abbrev pub no_periods : Periods F
  no_periods = record { count = 0; time = zero_f; min_time = 0; max_time = 0; sqsum = zero_f }

  -- `memset` to 0 of all but the last three fields.
  unfoldable pub reset_flow_rec : FlowData F → FlowData F
  reset_flow_rec d = record d {
    f = no_side;
    b = no_side;
    first = 0;
    lactive_start = 0;
    active = no_periods;
    idle = no_periods;
    cstate = initial;
    sstate = initial;
    valid = 0;
    tcp_has_data = 0;
  }

-- The value that `atoll` reads at the head of a text, as an `unsigned long long`.
abbrev codes : String → List ℕ
codes String.[] = []
codes (String.◌∷◌ c s) = code c ∷ codes s

is_space : ℕ → Bool
is_space c = c == b' ' || leb 9 c && leb c 13

digits_value : ℕ → List ℕ → ℕ
digits_value acc [] = acc
digits_value acc (c ∷ cs) =
    let rest = digits_value (acc * 10 + (c - b'0')) cs in
    if leb b'0' c && leb c b'9' then rest else acc

signed_value : List ℕ → ℕ
signed_value [] = 0
signed_value (c ∷ cs) =
    if c == b'-'
    then u64 (2 ^ 64 - u64 (digits_value 0 cs))
    else if c == b'+'
    then u64 (digits_value 0 cs)
    else u64 (digits_value 0 (c ∷ cs))

skip_spaces : List ℕ → List ℕ
skip_spaces [] = []
skip_spaces (c ∷ cs) = let rest = skip_spaces cs in if is_space c then rest else c ∷ cs

unfoldable pub atoll : String → ℕ
unfolding signed_value digits_value skip_spaces is_space
atoll s = signed_value (skip_spaces (codes s))

-- configParam_t
pub record ConfigParam : Type 0 where
  pub name : String
  pub value : String

module _ {F : Type 0} where
  set_param : FlowData F → ConfigParam → FlowData F
  set_param d p =
      if str_eq p.name "Idle_Threshold"
      then record d { idle_threshold = atoll p.value }
      else if str_eq p.name "Min_Duration"
      then record d { min_duration = atoll p.value }
      else if str_eq p.name "Time_Cap"
      then record d { time_cap = atoll p.value }
      else d

  set_params : FlowData F → List ConfigParam → FlowData F
  unfolding set_param
  set_params d [] = d
  set_params d (p ∷ ps) = set_params (set_param d p) ps

module _ {F : Type 0} (fl : Double F) where
  -- What `malloc` finds is the argument; that it fails is not modelled.
  unfoldable pub init_flow_rec : FlowData F → List ConfigParam → FlowData F
  unfolding set_params reset_flow_rec
  init_flow_rec raw params =
      set_params
        (record (reset_flow_rec fl raw) {
          idle_threshold = 62000000;
          min_duration = 0;
          time_cap = 0xFFFF_FFFF_FFFF_FFFF;
        })
        params
