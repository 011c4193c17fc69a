-- ===== src/Pfcp/Tests.antt =====
-- The theorems on headers and information elements at concrete values.
use openair_cn_cups.Common.{◌≡◌, refl, [], ◌∷◌, ◌++◌, true, false, ok, err, bad_length, arith}
use openair_cn_cups.Common.Flags.{flag}
use openair_cn_cups.Pfcp.Tlv.{Tlv, no_tlv}
use openair_cn_cups.Pfcp.Scalar
use openair_cn_cups.Pfcp.Scalar.Classes.{
  cause, source_interface, destination_interface, urr_id, qer_correlation_id,
}
use openair_cn_cups.Pfcp.Scalar.Laws.{
  receive-dump_to_scalar, qer_correlation_id_refused, urr_id_swapped, swap32,
}
use openair_cn_cups.Pfcp.Fteid
use openair_cn_cups.Pfcp.Fteid.Laws.{receive-dump_to_fteid, stray, on_wire}
use openair_cn_cups.Pfcp.Fseid
use openair_cn_cups.Pfcp.Fseid.Laws as FseidLaws
use openair_cn_cups.Pfcp.Fseid.Laws.{receive-dump_to_fseid}
use openair_cn_cups.Pfcp.UeIpAddress
use openair_cn_cups.Pfcp.UeIpAddress.Laws as UeLaws
use openair_cn_cups.Pfcp.UeIpAddress.Laws.{receive-dump_to_ue_ip_address, no_address}
use openair_cn_cups.Pfcp.ApplyAction
use openair_cn_cups.Pfcp.ApplyAction.{receive-dump_to_apply_action}
use openair_cn_cups.Pfcp.OuterHeaderCreation
use openair_cn_cups.Pfcp.BitRate
use openair_cn_cups.Pfcp.BitRate.{mbr}
use openair_cn_cups.Pfcp.VolumeThreshold
use openair_cn_cups.Pfcp.VolumeThreshold.Laws.{receive_reads_nothing, body}
use openair_cn_cups.Pfcp.Header

-- An element of another vendor, with its enterprise number.
abbrev vendor : Tlv
vendor = record { type = 32769; length = 2; enterprise_id = 10415 }

receive-dump_to_scalar_example :
    Scalar.receive destination_interface 9
      (Scalar.dump_to destination_interface (Scalar.of_core destination_interface 1) ++ (5 ∷ []))
    ≡ ok (Scalar.of_core destination_interface 1, 5 ∷ [])
receive-dump_to_scalar_example =
    receive-dump_to_scalar destination_interface 9 1 (5 ∷ [])
      (cause ∷ source_interface ∷ [], _, refl) (omega arith)

qer_correlation_id_refused_example :
    Scalar.receive qer_correlation_id 0
      (Scalar.dump_to qer_correlation_id (Scalar.of_core qer_correlation_id 7) ++ [])
    ≡ err bad_length
qer_correlation_id_refused_example = qer_correlation_id_refused 0 7 []

urr_id_swapped_example :
    (ie : Scalar.ScalarIe) × (Scalar.receive urr_id 0
        (Scalar.dump_to urr_id (Scalar.of_core urr_id 1) ++ [])
      ≡ ok (ie, []))
    × (Scalar.to_core_type ie ≡ swap32 1)
urr_id_swapped_example = urr_id_swapped 0 1 [] (omega arith)

-- A tunnel endpoint with an IPv4 address.
abbrev endpoint : Fteid.Fteid
endpoint = record {
  v4 = true;
  v6 = false;
  ch = false;
  chid = false;
  teid = 4660;
  ipv4_address = 3232235777;
  ipv6_address = 0;
  choose_id = 0;
}

receive-dump_to_fteid_example :
    (ie : Fteid.FteidIe) × (Fteid.receive (Fteid.dump_to (Fteid.of_core 0 endpoint) ++ (1 ∷ []))
      ≡ ok (ie, stray 0 endpoint ++ (1 ∷ [])))
    × (Fteid.to_core_type ie ≡ on_wire endpoint)
receive-dump_to_fteid_example = receive-dump_to_fteid 0 endpoint (1 ∷ []) (omega arith) (record {
  teid_fits = omega arith;
  ipv4_fits = omega arith;
  ipv6_fits = omega arith;
  choose_fits = omega arith;
})

-- A session endpoint with an IPv4 address.
abbrev session : Fseid.Fseid
session = record { v4 = true; v6 = false; seid = 77; ipv4_address = 3232235778; ipv6_address = 0 }

abbrev fseid_memory : Fseid.FseidIe
fseid_memory = record { tlv = no_tlv; u1 = 255; seid = 1; ipv4_address = 2; ipv6_address = 3 }

receive-dump_to_fseid_example :
    (ie : Fseid.FseidIe) × (Fseid.receive fseid_memory (Fseid.dump_to (Fseid.of_core session) ++ [])
      ≡ ok (ie, []))
    × (Fseid.to_core_type ie ≡ FseidLaws.announced session)
receive-dump_to_fseid_example =
    receive-dump_to_fseid fseid_memory session []
      (record { seid_fits = omega arith; ipv4_fits = omega arith; ipv6_fits = omega arith })

-- An address with a delegated prefix.
abbrev ue : UeIpAddress.UeIpAddress
ue = record {
  v4 = true;
  v6 = true;
  sd = false;
  ipv6d = true;
  ipv4_address = 202050058;
  ipv6_address = 42540766411282592856903984951653826561;
  ipv6_prefix_delegation_bits = 56;
}

abbrev ue_memory : UeIpAddress.UeIpAddressIe
ue_memory = record {
  tlv = no_tlv;
  u1 = 0;
  ipv4_address = 1;
  ipv6_address = 2;
  ipv6_prefix_delegation_bits = 3;
}

receive-dump_to_ue_ip_address_example :
    (ie : UeIpAddress.UeIpAddressIe) × (UeIpAddress.receive ue_memory
        (UeIpAddress.dump_to (UeIpAddress.of_core ue) ++ [])
      ≡ ok (ie, []))
    × (UeIpAddress.to_core_type ie no_address ≡ UeLaws.announced ue)
receive-dump_to_ue_ip_address_example =
    receive-dump_to_ue_ip_address ue_memory ue []
      (record { ipv4_fits = omega arith; ipv6_fits = omega arith; delegation_fits = omega arith })

abbrev buffering : ApplyAction.ApplyAction
buffering = record { drop = false; forw = false; buff = true; nocp = true; dupl = false }

-- GTP-U over IPv4, and a description of no known kind.
abbrev gtpu : OuterHeaderCreation.OuterHeaderCreation
gtpu = record {
  outer_header_creation_description = 256;
  teid = 99;
  ipv4_address = 3232235779;
  ipv6_address = 0;
  port_number = 0;
}

abbrev unknown : OuterHeaderCreation.OuterHeaderCreation
unknown = record gtpu { outer_header_creation_description = 1 }

abbrev rates : BitRate.BitRate
rates = record { ul = 50000; dl = 150000 }

-- A threshold on the total volume.
abbrev threshold : VolumeThreshold.VolumeThreshold
threshold = record {
  tovol = true;
  ulvol = false;
  dlvol = false;
  total_volume = 1000;
  uplink_volume = 0;
  downlink_volume = 0;
}

abbrev threshold_memory : VolumeThreshold.VolumeThresholdIe
threshold_memory = record {
  tlv = no_tlv;
  u1 = 0;
  total_volume = 4;
  uplink_volume = 5;
  downlink_volume = 6;
}

receive_reads_nothing_example :
    (ie : VolumeThreshold.VolumeThresholdIe) × (VolumeThreshold.receive threshold_memory (
        VolumeThreshold.dump_to (VolumeThreshold.of_core VolumeThreshold.volume_threshold threshold)
        ++ [])
      ≡ ok (ie, body threshold ++ []))
    × (VolumeThreshold.to_core_type ie ≡ record {
      tovol = false;
      ulvol = false;
      dlvol = false;
      total_volume = 0;
      uplink_volume = 0;
      downlink_volume = 0;
    })
unfolding flag
receive_reads_nothing_example =
    receive_reads_nothing VolumeThreshold.volume_threshold threshold_memory threshold []
      (omega arith) refl refl refl

-- A session request, with its identifier.
abbrev request : Header.Header
request = record {
  u1 = 33;
  message_type = 50;
  message_length = 20;
  seid = 77;
  sequence_number = 5;
  u2 = 0;
}
