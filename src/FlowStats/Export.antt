-- ===== src/FlowStats/Export.antt =====
-- `exportData` of src/proc_modules/netai_flowstats.c. A failed assertion is `none`.
pub mod Layout
mod Tests
use netmate_flowcalc.Common.{
  ℕ, ◌+◌, ◌-◌, ◌*◌, ◌/◌, ◌%◌, ◌^◌, Bool, true, false, ◌&&◌, ◌||◌, not, List, [], ◌∷◌, ◌++◌, Option,
  none, some, ◌==◌, ltb, leb, if◌then◌else◌,
}
use netmate_flowcalc.ExportList.{TypeInfo, int32, uint32, uint64}
use netmate_flowcalc.ExportData.{
  Writer, add_int32, add_uint32, add_uint64, start_export, end_export,
}
use netmate_flowcalc.FlowStats.{Double, u32, u64, sub_u64}
use netmate_flowcalc.FlowStats.Record.{FlowData, Side, Periods, get_last}

-- What the export does with a `double`; `trunc` is the conversion to an integer.
pub record Arithmetic (F : Type 0) : Type 0 where
  pub sums : Double F
  pub sub_f : F → F → F
  pub mul_f : F → F → F
  pub div_f : F → F → F
  pub sqrt_f : F → F
  pub trunc : F → ℕ
  pub is_positive : F → Bool
  pub leb_f : F → F → Bool

unfoldable pub add_uint32s : List ℕ → Writer → Writer
unfolding add_uint32
add_uint32s [] w = w
add_uint32s (v ∷ vs) w = add_uint32s vs (add_uint32 v w)

unfoldable pub add_int32s : List ℕ → Writer → Writer
unfolding add_int32
add_int32s [] w = w
add_int32s (v ∷ vs) w = add_int32s vs (add_int32 v w)

unfoldable pub add_uint64s : List ℕ → Writer → Writer
unfolding add_uint64
add_uint64s [] w = w
add_uint64s (v ∷ vs) w = add_uint64s vs (add_uint64 v w)

-- -1 of an `int32_t`.
abbrev pub minus_one : ℕ
minus_one = 2 ^ 32 - 1

module _ {F : Type 0} (ar : Arithmetic F) where
  open ar use {sub_f, mul_f, div_f, sqrt_f, trunc, is_positive, leb_f}
  open ar.sums use {zero_f, add_f, of_int}

  -- The standard deviation, without its fraction.
  unfoldable pub stddev : F → F → ℕ → ℕ
  stddev sqsum sum n =
      trunc (sqrt_f (div_f (sub_f sqsum (div_f (mul_f sum sum) (of_int n))) (of_int (n - 1))))

  mean : F → ℕ → ℕ
  mean sum n = trunc (div_f sum (of_int n))

  -- What is asserted of a side with packets.
  unfoldable pub side_ok : Side F → Bool
  side_ok s =
      s.packets == 0
      || ltb 0 s.bytes
        && is_positive s.pktl_sum
        && is_positive s.pktl_sqsum
        && ltb 0 s.min_pktl
        && ltb 0 s.max_pktl
        && leb s.min_pktl s.max_pktl

  unfoldable pub ivals_ok : Side F → Bool
  ivals_ok s =
      s.ivals == 0 || leb_f zero_f s.iat_sum && leb_f zero_f s.iat_sqsum && leb s.min_iat s.max_iat

  -- The assertions in front of the update of the active periods.
  unfoldable pub sides_ok : FlowData F → Bool
  unfolding side_ok ivals_ok
  sides_ok d =
      side_ok d.f
      && (d.f.packets == 0 || ltb d.f.ivals d.f.packets)
      && (d.b.ivals == 0 || ltb d.b.ivals d.b.packets)
      && side_ok d.b
      && ivals_ok d.f
      && ivals_ok d.b
      && (d.f.packets == 0 || ltb 0 d.first && (ltb 0 d.b.last || ltb 0 d.f.last))

  -- Those behind it.
  unfoldable pub periods_ok : FlowData F → Bool
  periods_ok d =
      (not (ltb 1 d.f.packets || ltb 1 d.b.packets) || ltb 0 d.active.count)
      && (d.idle.count == 0
          || leb_f (of_int d.idle_threshold) (div_f d.idle.time (of_int d.idle.count)))
      && leb d.active.count (u32 (d.f.packets + d.b.packets))

  -- The last active period is added.
  unfoldable pub end_active : FlowData F → FlowData F
  unfolding get_last
  end_active d =
      let diff = sub_u64 (get_last d) d.lactive_start in
      record d {
        active = record d.active {
          time = add_f d.active.time (of_int diff);
          max_time = if ltb d.active.max_time diff then diff else d.active.max_time;
          min_time =
              if ltb diff d.active.min_time || d.active.min_time == 0
              then diff
              else d.active.min_time;
          sqsum = add_f d.active.sqsum (of_int (u64 (diff * diff)));
        };
      }

  unfoldable pub totals : FlowData F → List ℕ
  totals d = d.f.packets ∷ d.f.bytes ∷ d.b.packets ∷ d.b.bytes ∷ []

  -- Least, mean and greatest length of a side; `cast` is applied to the mean.
  unfoldable pub lengths : (ℕ → ℕ) → Side F → List ℕ
  unfolding mean
  lengths cast s =
      (if s.packets == 0 then minus_one else s.min_pktl)
      ∷ (if s.packets == 0 then minus_one else cast (mean s.pktl_sum s.packets))
      ∷ (if s.packets == 0 then minus_one else s.max_pktl)
      ∷ []

  unfoldable pub length_dev : Side F → List ℕ
  unfolding stddev
  length_dev s = (if ltb s.packets 2 then 0 else stddev s.pktl_sqsum s.pktl_sum s.packets) ∷ []

  unfoldable pub iats : Side F → List ℕ
  unfolding mean stddev
  iats s =
      (if s.ivals == 0 then 0 else s.min_iat)
      ∷ (if s.ivals == 0 then 0 else mean s.iat_sum s.ivals)
      ∷ (if s.ivals == 0 then 0 else s.max_iat)
      ∷ (if ltb s.ivals 2 then 0 else stddev s.iat_sqsum s.iat_sum s.ivals)
      ∷ []

  -- The mean active time is computed for no active period too.
  unfoldable pub active_times : Periods F → List ℕ
  unfolding mean stddev
  active_times p =
      p.min_time
      ∷ mean p.time p.count
      ∷ p.max_time
      ∷ (if ltb p.count 2 then 0 else stddev p.sqsum p.time p.count)
      ∷ []

  unfoldable pub idle_times : Periods F → List ℕ
  unfolding mean stddev
  idle_times p =
      p.min_time
      ∷ (if ltb 0 p.count then mean p.time p.count else 0)
      ∷ p.max_time
      ∷ (if ltb p.count 2 then 0 else stddev p.sqsum p.time p.count)
      ∷ []

  -- Packets and bytes of a subflow on average.
  unfoldable pub subflows : FlowData F → List ℕ
  subflows d =
      let per = λ (n : ℕ). if ltb 0 d.active.count then n / d.active.count else 0 in
      per d.f.packets ∷ per d.f.bytes ∷ per d.b.packets ∷ per d.b.bytes ∷ []

  unfoldable pub flags : FlowData F → List ℕ
  flags d = d.f.psh_cnt ∷ d.b.psh_cnt ∷ d.f.urg_cnt ∷ d.b.urg_cnt ∷ []

  unfoldable pub headers : FlowData F → List ℕ
  headers d = d.f.total_hlen ∷ d.b.total_hlen ∷ []

  -- The values, of which the periods are those of `d'` with the last active period added.
  unfoldable pub add_values : FlowData F → FlowData F → Writer → Writer
  unfolding add_uint32s add_int32s add_uint64s
  add_values d d' w =
      let w₁ = add_uint32s (totals d) w in
      let w₂ = add_uint32s (length_dev d.f) (add_int32s (lengths (λ n. n % 65536) d.f) w₁) in
      let w₃ = add_uint32s (length_dev d.b) (add_int32s (lengths (λ n. n) d.b) w₂) in
      let w₄ = add_uint64s (iats d.b) (add_uint64s (iats d.f) w₃) in
      let w₅ = add_uint64 (sub_u64 (get_last d) d.first) w₄ in
      let w₆ = add_uint64s (idle_times d.idle) (add_uint64s (active_times d'.active) w₅) in
      add_uint32s (headers d) (add_uint32s (flags d) (add_uint32s (subflows d') w₆))

  -- Whether there is anything to export: a valid flow that lasted long enough.
  unfoldable pub is_exported : FlowData F → Bool
  unfolding get_last
  is_exported d = not (d.valid == 0) && not (ltb (sub_u64 (get_last d) d.first) d.min_duration)

  unfoldable pub export_data : (ℕ → ℕ) → Writer → FlowData F → Option (List ℕ × FlowData F)
  unfolding start_export end_export
  export_data exp_data w d =
      let d' = end_active d in
      if is_exported d
      then if sides_ok d && periods_ok d'
        then some (end_export (add_values d d' (start_export exp_data w)), d')
        else none
      else some (end_export (start_export exp_data w), d)

-- exportInfo
abbrev pub export_info : List TypeInfo
export_info =
    record { type = uint32; name = "total_fpackets" }
    ∷ record { type = uint32; name = "total_fvolume" }
    ∷ record { type = uint32; name = "total_bpackets" }
    ∷ record { type = uint32; name = "total_bvolume" }
    ∷ record { type = int32; name = "min_fpktl" }
    ∷ record { type = int32; name = "mean_fpktl" }
    ∷ record { type = int32; name = "max_fpktl" }
    ∷ record { type = uint32; name = "std_fpktl" }
    ∷ record { type = int32; name = "min_bpktl" }
    ∷ record { type = int32; name = "mean_bpktl" }
    ∷ record { type = int32; name = "max_bpktl" }
    ∷ record { type = uint32; name = "std_bpktl" }
    ∷ record { type = uint64; name = "min_fiat" }
    ∷ record { type = uint64; name = "mean_fiat" }
    ∷ record { type = uint64; name = "max_fiat" }
    ∷ record { type = uint64; name = "std_fiat" }
    ∷ record { type = uint64; name = "min_biat" }
    ∷ record { type = uint64; name = "mean_biat" }
    ∷ record { type = uint64; name = "max_biat" }
    ∷ record { type = uint64; name = "std_biat" }
    ∷ record { type = uint64; name = "duration" }
    ∷ record { type = uint64; name = "min_active" }
    ∷ record { type = uint64; name = "mean_active" }
    ∷ record { type = uint64; name = "max_active" }
    ∷ record { type = uint64; name = "std_active" }
    ∷ record { type = uint64; name = "min_idle" }
    ∷ record { type = uint64; name = "mean_idle" }
    ∷ record { type = uint64; name = "max_idle" }
    ∷ record { type = uint64; name = "std_idle" }
    ∷ record { type = uint32; name = "sflow_fpackets" }
    ∷ record { type = uint32; name = "sflow_fbytes" }
    ∷ record { type = uint32; name = "sflow_bpackets" }
    ∷ record { type = uint32; name = "sflow_bbytes" }
    ∷ record { type = uint32; name = "fpsh_cnt" }
    ∷ record { type = uint32; name = "bpsh_cnt" }
    ∷ record { type = uint32; name = "furg_cnt" }
    ∷ record { type = uint32; name = "burg_cnt" }
    ∷ record { type = uint32; name = "total_fhlen" }
    ∷ record { type = uint32; name = "total_bhlen" }
    ∷ []
