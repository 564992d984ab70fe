-- ===== src/PacketProcessor/Key.antt =====
-- The flow keys of src/netmate/PacketProcessor.cc: the masked fields of a packet, in the order of
-- the rule's filters, and those of a packet in the other direction.
pub mod Swap
pub mod Size
use Prim.Native.Nat.{bit_and}
use Prim.Native.String.{String}
use text.Mathlib.Text.{◌==◌ as str_eq}
use netmate_flowcalc.Common.{
  ℕ, zero, suc, ◌+◌, ◌/◌, ◌%◌, ◌^◌, Bool, true, false, ◌&&◌, not, List, [], ◌∷◌, ◌++◌, Option, none,
  some, ◌==◌, ◌>>=◌, if◌then◌else◌, leb, length,
}
use netmate_flowcalc.Common.Int.{ℤ, pos, negsuc, ◌+ℤ◌}
use netmate_flowcalc.Classifier.{MetaData}
use netmate_flowcalc.FilterValue.{max_filter_len}

-- filter_t, as far as the processor reads it; `rname_empty` is `rname.empty()`.
pub record Filter : Type 0 where
  pub rname_empty : Bool
  pub type : String
  pub refer : ℕ
  pub rrefer : ℕ
  pub offs : ℕ
  pub roffs : ℕ
  pub len : ℕ
  pub fdmask : ℕ → ℕ
  pub fdshift : ℕ
  pub mask : ℕ → ℕ

-- tmp[i] = pval[i] & fdmask[i] & mask[i], for `n` bytes from `i` on, where `pval` starts at `o`.
unfoldable pub masked_from : (ℕ → ℕ) → Filter → ℕ → ℕ → ℕ → List ℕ
masked_from payload fi o i zero = []
masked_from payload fi o i (suc n) =
    bit_and (bit_and (payload (o + i)) (fi.fdmask i)) (fi.mask i)
    ∷ masked_from payload fi o (i + 1) n

-- The sum of the offsets is not tested: a field that starts before the packet is `none`, and so is
-- one that is longer than `tmp`.
unfoldable pub read_field : MetaData → Filter → ℕ → ℕ → Option (List ℕ)
unfolding masked_from
read_field meta fi refer offs = elim (meta.offs refer +ℤ pos offs) [
  | pos o ↦
      if leb fi.len max_filter_len then some (masked_from meta.payload fi o 0 fi.len) else none
  | negsuc n ↦ none
]

shift_first : ℕ → List ℕ → List ℕ
shift_first s [] = []
shift_first s (b ∷ bs) = b / 2 ^ s ∷ bs

-- A value of one byte is shifted down.
unfoldable pub shifted : Filter → List ℕ → List ℕ
unfolding shift_first
shifted fi tmp = if fi.len == 1 && not (fi.fdshift == 0) then shift_first fi.fdshift tmp else tmp

-- An unsigned int in memory, the lowest byte first.
int_bytes : ℕ → List ℕ
int_bytes n = n % 256 ∷ n / 256 % 256 ∷ n / 65536 % 256 ∷ n / 16777216 % 256 ∷ []

-- What the `switch` on the type appends.
unfoldable pub encoded : Filter → List ℕ → List ℕ
unfolding int_bytes
encoded fi tmp =
    if str_eq fi.type "String"
    then tmp ++ 0 ∷ []
    else if str_eq fi.type "Binary"
    then int_bytes fi.len ++ tmp
    else tmp

-- The reverse value: that of the reverse attribute, which is not shifted, or else `tmp` as it is.
unfoldable pub reverse_field : MetaData → Filter → List ℕ → Option (List ℕ)
unfolding read_field
reverse_field meta fi tmp =
    if fi.rname_empty then some tmp else read_field meta fi fi.rrefer fi.roffs

-- What one filter appends to `mvalues` and `rmvalues`; nothing to the latter if not `bidir`.
unfoldable pub filter_keys : MetaData → Bool → Filter → Option (List ℕ × List ℕ)
filter_keys meta bidir fi = do
  raw ← read_field meta fi fi.refer fi.offs
  let tmp = shifted fi raw
  rtmp ← if bidir then reverse_field meta fi tmp else some []
  some (encoded fi tmp, if bidir then encoded fi rtmp else [])

-- `mvalues` and `rmvalues` have 1024 bytes; what would be written behind them is `none`.
unfoldable pub append_key : List ℕ → List ℕ → Option (List ℕ)
append_key values more = if leb (length (values ++ more)) 1024 then some (values ++ more) else none

-- The loop over the filters, with what `mvalues` and `rmvalues` hold so far.
unfoldable pub build_keys :
    MetaData → Bool → List Filter → List ℕ → List ℕ → Option (List ℕ × List ℕ)
build_keys meta bidir [] mvalues rmvalues = some (mvalues, rmvalues)
build_keys meta bidir (fi ∷ fs) mvalues rmvalues = do
  (m, r) ← filter_keys meta bidir fi
  mvalues' ← append_key mvalues m
  rmvalues' ← append_key rmvalues r
  build_keys meta bidir fs mvalues' rmvalues'

unfoldable pub end_keys : Bool → List ℕ × List ℕ → Option (List ℕ × List ℕ)
end_keys false keys = some keys
end_keys true (mvalues, rmvalues) = do
  mvalues' ← append_key mvalues (1 ∷ [])
  rmvalues' ← append_key rmvalues (1 ∷ [])
  some (mvalues', rmvalues')

-- Both keys of a packet. With separate paths the last byte tells the path.
unfoldable pub flow_keys_of : MetaData → Bool → Bool → List Filter → Option (List ℕ × List ℕ)
flow_keys_of meta bidir seppaths flist = do
  keys ← build_keys meta bidir flist [] []
  end_keys seppaths keys
