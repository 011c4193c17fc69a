-- ===== src/Pfcp/UeIpAddress.antt =====
-- src/pfcp/3gpp_29.244.hpp, class pfcp_ue_ip_address_ie: the addresses of the user equipment.
pub mod Laws
use openair_cn_cups.Common.{
  ℕ, ◌+◌, ◌*◌, ◌==◌, ◌&&◌, List, ◌++◌, Bool, false, bit, Result, ok, ◌>>=◌, ◌>>◌, require,
  bad_length, if◌then◌else◌,
}
use openair_cn_cups.Common.Words.{write_be, read_be}
use openair_cn_cups.Common.Flags.{read_address_if, flag, bits, write_if, read_if}
use openair_cn_cups.Pfcp.Tlv
use openair_cn_cups.Pfcp.Tlv.{Tlv, no_tlv, set_length, ie_tlv}

-- pfcp::ue_ip_address_t
pub record UeIpAddress : Type 0 where
  pub v4 : Bool
  pub v6 : Bool
  pub sd : Bool
  pub ipv6d : Bool
  pub ipv4_address : ℕ
  pub ipv6_address : ℕ
  pub ipv6_prefix_delegation_bits : ℕ

pub record UeIpAddressIe : Type 0 where
  pub tlv : Tlv
  pub u1 : ℕ
  pub ipv4_address : ℕ
  pub ipv6_address : ℕ
  pub ipv6_prefix_delegation_bits : ℕ

abbrev bf_v6 : ℕ → Bool
bf_v6 u1 = flag 0 u1

abbrev bf_v4 : ℕ → Bool
bf_v4 u1 = flag 1 u1

abbrev bf_sd : ℕ → Bool
bf_sd u1 = flag 2 u1

abbrev bf_ipv6d : ℕ → Bool
bf_ipv6d u1 = flag 3 u1

abbrev check_length : Bool → Bool → Bool → ℕ
check_length v4 v6 ipv6d = 1 + 4 * bit v4 + 16 * bit v6 + bit (v6 && ipv6d)

unfoldable pub of_core : UeIpAddress → UeIpAddressIe
of_core b = record {
  tlv = ie_tlv 93 (check_length b.v4 b.v6 b.ipv6d);
  u1 = bits b.v6 b.v4 b.sd (b.v6 && b.ipv6d) false;
  ipv4_address = if b.v4 then b.ipv4_address else 0;
  ipv6_address = if b.v6 then b.ipv6_address else 0;
  ipv6_prefix_delegation_bits = if b.v6 && b.ipv6d then b.ipv6_prefix_delegation_bits else 0;
}

-- The members that are not announced stay as `b` had them.
unfoldable pub to_core_type : UeIpAddressIe → UeIpAddress → UeIpAddress
to_core_type ie b =
    let v4 = bf_v4 ie.u1 in
    let v6 = bf_v6 ie.u1 in
    let ipv6d = bf_ipv6d ie.u1 in
    record {
      v4 = v4;
      v6 = v6;
      sd = bf_sd ie.u1;
      ipv6d = if v6 then ipv6d else b.ipv6d;
      ipv4_address = if v4 then ie.ipv4_address else b.ipv4_address;
      ipv6_address = if v6 then ie.ipv6_address else b.ipv6_address;
      ipv6_prefix_delegation_bits =
          if v6 && ipv6d then ie.ipv6_prefix_delegation_bits else b.ipv6_prefix_delegation_bits;
    }

unfoldable pub dump_to : UeIpAddressIe → List ℕ
dump_to ie =
    let v4 = bf_v4 ie.u1 in
    let v6 = bf_v6 ie.u1 in
    let ipv6d = bf_ipv6d ie.u1 in
    Tlv.dump_to (set_length ie.tlv (check_length v4 v6 ipv6d))
    ++ (write_be 1 ie.u1
        ++ (write_if v4 4 ie.ipv4_address
            ++ (write_if v6 16 ie.ipv6_address
                ++ write_if (v6 && ipv6d) 1 ie.ipv6_prefix_delegation_bits)))

unfoldable pub load_from : UeIpAddressIe → List ℕ → Result (UeIpAddressIe × List ℕ)
load_from this s = do
  (u1, s) ← read_be 1 this.u1 s
  let v4 = bf_v4 u1
  let v6 = bf_v6 u1
  let ipv6d = bf_ipv6d u1
  require (this.tlv.length == check_length v4 v6 ipv6d) bad_length
  (ipv4_address, s) ← read_address_if v4 4 this.ipv4_address s
  (ipv6_address, s) ← read_address_if v6 16 this.ipv6_address s
  (delegation, s) ← read_if (v6 && ipv6d) 1 this.ipv6_prefix_delegation_bits s
  ok (
    record this {
      u1 = u1;
      ipv4_address = ipv4_address;
      ipv6_address = ipv6_address;
      ipv6_prefix_delegation_bits = delegation;
    },
    s,
  )

-- new_pfcp_ie_from_stream on this class; the constructor from a header sets no member.
unfoldable pub receive : UeIpAddressIe → List ℕ → Result (UeIpAddressIe × List ℕ)
unfolding load_from
receive garbage s = do (tlv, s) ← Tlv.load_from no_tlv s; load_from (record garbage { tlv = tlv }) s
