-- ===== src/Pfcp/BitRate.antt =====
-- src/pfcp/3gpp_29.244.hpp, classes pfcp_mbr_ie and pfcp_gbr_ie: an uplink and a downlink bit rate
-- in five bytes each. The two classes differ in the type code.
pub mod Laws
use openair_cn_cups.Common.{
  ℕ, zero, suc, ◌+◌, ◌*◌, ◌/◌, ◌%◌, ◌^◌, ◌==◌, List, [], ◌∷◌, ◌++◌, Result, ok, err, ◌>>=◌, ◌>>◌,
  require, bad_length,
}
use openair_cn_cups.Pfcp.Tlv
use openair_cn_cups.Pfcp.Tlv.{Tlv, no_tlv, ie_tlv}

-- pfcp::mbr_t, pfcp::gbr_t
pub record BitRate : Type 0 where
  pub ul : ℕ
  pub dl : ℕ

pub record BitRateIe : Type 0 where
  pub tlv : Tlv
  pub ul : List ℕ
  pub dl : List ℕ

abbrev pub mbr : ℕ
mbr = 26

abbrev pub gbr : ℕ
gbr = 27

-- The loop of the constructor, from the last byte to the first: `ul_mbr[i] = uplink & 0xFF`,
-- `uplink = uplink >> 8`. `filled` is what stands behind byte i.
unfoldable pub fill : ℕ → ℕ → List ℕ → List ℕ
fill zero rate filled = filled
fill (suc i) rate filled = fill i (rate / 256) ((rate % 256) ∷ filled)

unfoldable pub of_core : ℕ → BitRate → BitRateIe
unfolding fill
of_core type b = record {
  tlv = ie_tlv type 10;
  ul = fill 5 (b.ul % 2 ^ 40) [];
  dl = fill 5 (b.dl % 2 ^ 40) [];
}

-- The loop of to_core_type: `uplink = uplink << 8` in 64 bits, `uplink |= ul_mbr[i]`, whose low
-- byte is then clear.
unfoldable pub gather : ℕ → List ℕ → ℕ
gather rate [] = rate
gather rate (b ∷ bs) = gather (rate * 256 % 2 ^ 64 + b) bs

unfoldable pub to_core_type : BitRateIe → BitRate
unfolding gather
to_core_type ie = record { ul = gather 0 ie.ul; dl = gather 0 ie.dl }

unfoldable pub dump_to : BitRateIe → List ℕ
dump_to ie = Tlv.dump_to ie.tlv ++ (ie.ul ++ ie.dl)

-- is.read into an array of bytes, which keeps what lies behind the end of the stream.
unfoldable pub read_bytes : List ℕ → List ℕ → Result (List ℕ × List ℕ)
read_bytes [] s = ok ([], s)
read_bytes (old ∷ olds) [] = ok (old ∷ olds, [])
read_bytes (old ∷ olds) (b ∷ s) = do (bs, s) ← read_bytes olds s; ok (b ∷ bs, s)

abbrev pub zeros : List ℕ
zeros = 0 ∷ 0 ∷ 0 ∷ 0 ∷ 0 ∷ []

unfoldable pub load_from : BitRateIe → List ℕ → Result (BitRateIe × List ℕ)
unfolding read_bytes
load_from this s = do
  require (this.tlv.length == 10) bad_length
  (ul, s) ← read_bytes this.ul s
  (dl, s) ← read_bytes this.dl s
  ok (record this { ul = ul; dl = dl }, s)

-- new_pfcp_ie_from_stream on these classes; the constructor from a header clears both arrays.
unfoldable pub receive : List ℕ → Result (BitRateIe × List ℕ)
unfolding load_from
receive s = do
  (tlv, s) ← Tlv.load_from no_tlv s
  load_from (record { tlv = tlv; ul = zeros; dl = zeros }) s
