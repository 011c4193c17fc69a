-- ===== src/Pfcp/VolumeThreshold.antt =====
-- src/pfcp/3gpp_29.244.hpp, classes pfcp_volume_threshold_ie and
-- pfcp_subsequent_volume_threshold_ie: total, uplink and downlink volumes, each behind a flag. The
-- two classes differ in the type code.
pub mod Laws
use openair_cn_cups.Common.{
  ℕ, ◌+◌, ◌*◌, ◌/◌, ◌%◌, ◌^◌, List, ◌++◌, Bool, true, false, bit, Result, ok, ◌>>=◌, ◌>>◌, require,
  bad_length, not, ltb, if◌then◌else◌,
}
use openair_cn_cups.Common.Words.{write_be, read_be}
use openair_cn_cups.Common.Flags.{flag, bits, write_if, read_if}
use openair_cn_cups.Pfcp.Tlv
use openair_cn_cups.Pfcp.Tlv.{Tlv, no_tlv, set_length, ie_tlv}

-- pfcp::volume_threshold_t
pub record VolumeThreshold : Type 0 where
  pub tovol : Bool
  pub ulvol : Bool
  pub dlvol : Bool
  pub total_volume : ℕ
  pub uplink_volume : ℕ
  pub downlink_volume : ℕ

pub record VolumeThresholdIe : Type 0 where
  pub tlv : Tlv
  pub u1 : ℕ
  pub total_volume : ℕ
  pub uplink_volume : ℕ
  pub downlink_volume : ℕ

abbrev pub volume_threshold : ℕ
volume_threshold = 31

abbrev pub subsequent_volume_threshold : ℕ
subsequent_volume_threshold = 34

abbrev pub body_length : Bool → Bool → Bool → ℕ
body_length tovol ulvol dlvol = 1 + 8 * bit tovol + 8 * bit ulvol + 8 * bit dlvol

unfoldable pub of_core : ℕ → VolumeThreshold → VolumeThresholdIe
of_core type b = record {
  tlv = ie_tlv type (body_length b.tovol b.ulvol b.dlvol);
  u1 = bits b.tovol b.ulvol b.dlvol false false;
  total_volume = if b.tovol then b.total_volume else 0;
  uplink_volume = if b.ulvol then b.uplink_volume else 0;
  downlink_volume = if b.dlvol then b.downlink_volume else 0;
}

unfoldable pub to_core_type : VolumeThresholdIe → VolumeThreshold
to_core_type ie = record {
  tovol = flag 0 ie.u1;
  ulvol = flag 1 ie.u1;
  dlvol = flag 2 ie.u1;
  total_volume = if flag 0 ie.u1 then ie.total_volume else 0;
  uplink_volume = if flag 1 ie.u1 then ie.uplink_volume else 0;
  downlink_volume = if flag 2 ie.u1 then ie.downlink_volume else 0;
}

unfoldable pub dump_to : VolumeThresholdIe → List ℕ
dump_to ie =
    let tovol = flag 0 ie.u1 in
    let ulvol = flag 1 ie.u1 in
    let dlvol = flag 2 ie.u1 in
    Tlv.dump_to (set_length ie.tlv (body_length tovol ulvol dlvol))
    ++ (write_be 1 ie.u1
        ++ (write_if tovol 8 ie.total_volume
            ++ (write_if ulvol 8 ie.uplink_volume ++ write_if dlvol 8 ie.downlink_volume)))

-- A word of eight bytes with its bytes in the opposite order: what a member holds, on a
-- little-endian host, that was read from the stream and not converted.
unfoldable pub swap64 : ℕ → ℕ
swap64 n =
    n % 256 * 2 ^ 56
    + n / 2 ^ 8 % 256 * 2 ^ 48
    + n / 2 ^ 16 % 256 * 2 ^ 40
    + n / 2 ^ 24 % 256 * 2 ^ 32
    + n / 2 ^ 32 % 256 * 2 ^ 24
    + n / 2 ^ 40 % 256 * 2 ^ 16
    + n / 2 ^ 48 % 256 * 2 ^ 8
    + n / 2 ^ 56 % 256

-- The flags are those that the object holds already: no byte is read for them. The last two reads
-- put what they read, converted, into total_volume, and leave the member itself unconverted.
unfoldable pub load_from : VolumeThresholdIe → List ℕ → Result (VolumeThresholdIe × List ℕ)
unfolding swap64
load_from this s = do
  require (not (ltb this.tlv.length 1)) bad_length
  let tovol = flag 0 this.u1
  let ulvol = flag 1 this.u1
  let dlvol = flag 2 this.u1
  (total, s) ← read_if tovol 8 this.total_volume s
  (uplink, s) ← read_if ulvol 8 this.uplink_volume s
  (downlink, s) ← read_if dlvol 8 this.downlink_volume s
  ok (
    record this {
      total_volume = if dlvol then downlink else (if ulvol then uplink else total);
      uplink_volume = if ulvol then swap64 uplink else uplink;
      downlink_volume = if dlvol then swap64 downlink else downlink;
    },
    s,
  )

-- new_pfcp_ie_from_stream on these classes; the constructor from a header sets no member.
unfoldable pub receive : VolumeThresholdIe → List ℕ → Result (VolumeThresholdIe × List ℕ)
unfolding load_from
receive garbage s = do (tlv, s) ← Tlv.load_from no_tlv s; load_from (record garbage { tlv = tlv }) s
