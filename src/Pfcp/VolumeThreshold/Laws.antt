-- ===== src/Pfcp/VolumeThreshold/Laws.antt =====
-- A volume threshold as the other end reads it.
use native.Mathlib.Nat.{mod-eq_of_lt}
use openair_cn_cups.Common.{
  ℕ, ◌^◌, ◌<◌, ◌≡◌, List, ◌++◌, Bool, true, false, ok, not, ltb, if◌then◌else◌, arith, append_assoc,
}
use openair_cn_cups.Common.Words.{write_be}
use openair_cn_cups.Common.Flags.{bits, flag, flags, write_if}
use openair_cn_cups.Pfcp.Tlv
use openair_cn_cups.Pfcp.Tlv.{ie_tlv}
use openair_cn_cups.Pfcp.VolumeThreshold.{
  VolumeThreshold, VolumeThresholdIe, body_length, of_core, to_core_type, dump_to, receive,
}

-- The bytes behind the header.
unfoldable pub body : VolumeThreshold → List ℕ
body b =
    write_be 1 (bits b.tovol b.ulvol b.dlvol false false)
    ++ (write_if b.tovol 8 (if b.tovol then b.total_volume else 0)
        ++ (write_if b.ulvol 8 (if b.ulvol then b.uplink_volume else 0)
            ++ write_if b.dlvol 8 (if b.dlvol then b.downlink_volume else 0)))

body_length-lt : (a b c : Bool) → body_length a b c < 2 ^ 16
body_length-lt a b c = ground arith

not_short : (a b c : Bool) → not (ltb (body_length a b c) 1) ≡ true
not_short a b c = ground arith

-- Read into an object whose memory has the three flags clear, a volume element of a type
-- that is no vendor's brings nothing: no flag and no volume arrives, and the whole element
-- behind its header is left in the stream.
pub receive_reads_nothing :
    (type : ℕ) (garbage : VolumeThresholdIe) (b : VolumeThreshold) (rest : List ℕ)
    → type < 2 ^ 15
    → flag 0 garbage.u1 ≡ false
    → flag 1 garbage.u1 ≡ false
    → flag 2 garbage.u1 ≡ false
    → (ie : VolumeThresholdIe) × (receive garbage (dump_to (of_core type b) ++ rest)
        ≡ ok (ie, body b ++ rest))
      × (to_core_type ie ≡ record {
        tovol = false;
        ulvol = false;
        dlvol = false;
        total_volume = 0;
        uplink_volume = 0;
        downlink_volume = 0;
      })
unfolding receive dump_to of_core to_core_type body
receive_reads_nothing type garbage b rest ht h0 h1 h2 = (
  record garbage { tlv = ie_tlv type (body_length b.tovol b.ulvol b.dlvol) },
  simp (flags, append_assoc)
      (rw (
        mod-eq_of_lt (body_length-lt b.tovol b.ulvol b.dlvol),
        Tlv.load_from-ie_tlv type (body_length b.tovol b.ulvol b.dlvol) _ ht
            (body_length-lt b.tovol b.ulvol b.dlvol),
        not_short b.tovol b.ulvol b.dlvol,
        h0,
        h1,
        h2,
      )),
  rw (h0, h1, h2),
)
