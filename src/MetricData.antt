-- ===== src/MetricData.antt =====
-- src/netmate/MetricData.h and MetricData.cc: the buffers of exported flow data and flow keys. A
-- pointer into a buffer is an offset, since `new` aligns buffers for every type of the program.
pub mod Reader
pub mod Filled
pub mod Values
pub mod Writes
pub mod RoundTrip
pub mod Misplaced
mod Tests
use Prim.Native.String.{String}
use netmate_flowcalc.Common.{
  ℕ, ◌+◌, ◌==◌, List, [], ◌∷◌, ◌++◌, Option, none, some, length, if◌then◌else◌,
}

-- buf_t; `ptr` counts from the start of `buf`, and `none` is NULL.
pub record Buf : Type 0 where
  pub flow_id : ℕ
  pub new_flow : ℕ
  pub buf : Option (List ℕ)
  pub len : ℕ
  pub ptr : ℕ
  pub swap : ℕ

-- The members that hold data: the module's name, and the buffers of data and of keys.
pub record MetricData : Type 0 where
  pub mname : String
  pub flow_count : ℕ
  pub key_bufs : List Buf
  pub data_bufs : List Buf

-- The constructor with no data.
unfoldable pub make_metric : String → MetricData
make_metric mn = record { mname = mn; flow_count = 0; key_bufs = []; data_bufs = [] }

data_buf : List ℕ → ℕ → ℕ → Buf
data_buf mdata new_flow flow_id = record {
  flow_id = flow_id;
  new_flow = new_flow;
  buf = some mdata;
  len = length mdata;
  ptr = 0;
  swap = 0;
}

key_buf : Buf → List ℕ → Buf
key_buf b kdata =
    if length kdata == 0
    then record b { buf = none; len = 0; ptr = 0; swap = 0 }
    else record b { buf = some kdata; len = length kdata; ptr = 0; swap = 0 }

-- `size` and `ksize` are the lengths of the lists. Memory is always there.
unfoldable pub add_flow_data : List ℕ → List ℕ → ℕ → ℕ → MetricData → MetricData
unfolding data_buf key_buf
add_flow_data mdata kdata new_flow flow_id m =
    let b = data_buf mdata new_flow flow_id in
    if length mdata == 0 then m else record m {
      flow_count = m.flow_count + 1;
      data_bufs = m.data_bufs ++ b ∷ [];
      key_bufs = m.key_bufs ++ key_buf b kdata ∷ [];
    }
