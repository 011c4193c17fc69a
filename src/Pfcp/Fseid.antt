-- ===== src/Pfcp/Fseid.antt =====
-- src/pfcp/3gpp_29.244.hpp, class pfcp_f_seid_ie: a session endpoint.
pub mod Laws
use openair_cn_cups.Common.{
  ℕ, ◌+◌, ◌*◌, ◌==◌, List, ◌++◌, Bool, false, bit, Result, ok, ◌>>=◌, ◌>>◌, require, bad_length,
  if◌then◌else◌,
}
use openair_cn_cups.Common.Words.{write_be, read_be}
use openair_cn_cups.Common.Flags.{read_address_if, flag, bits, write_if, read_if}
use openair_cn_cups.Pfcp.Tlv
use openair_cn_cups.Pfcp.Tlv.{Tlv, no_tlv, set_length, ie_tlv}

-- pfcp::fseid_t
pub record Fseid : Type 0 where
  pub v4 : Bool
  pub v6 : Bool
  pub seid : ℕ
  pub ipv4_address : ℕ
  pub ipv6_address : ℕ

pub record FseidIe : Type 0 where
  pub tlv : Tlv
  pub u1 : ℕ
  pub seid : ℕ
  pub ipv4_address : ℕ
  pub ipv6_address : ℕ

-- In this byte v6 is the lower bit.
abbrev bf_v6 : ℕ → Bool
bf_v6 u1 = flag 0 u1

abbrev bf_v4 : ℕ → Bool
bf_v4 u1 = flag 1 u1

abbrev check_length : Bool → Bool → ℕ
check_length v4 v6 = 9 + 4 * bit v4 + 16 * bit v6

unfoldable pub of_core : Fseid → FseidIe
of_core b = record {
  tlv = ie_tlv 57 (check_length b.v4 b.v6);
  u1 = bits b.v6 b.v4 false false false;
  seid = b.seid;
  ipv4_address = if b.v4 then b.ipv4_address else 0;
  ipv6_address = if b.v6 then b.ipv6_address else 0;
}

unfoldable pub to_core_type : FseidIe → Fseid
to_core_type ie = record {
  v4 = bf_v4 ie.u1;
  v6 = bf_v6 ie.u1;
  seid = ie.seid;
  ipv4_address = if bf_v4 ie.u1 then ie.ipv4_address else 0;
  ipv6_address = if bf_v6 ie.u1 then ie.ipv6_address else 0;
}

unfoldable pub dump_to : FseidIe → List ℕ
dump_to ie =
    let v4 = bf_v4 ie.u1 in
    let v6 = bf_v6 ie.u1 in
    Tlv.dump_to (set_length ie.tlv (check_length v4 v6))
    ++ (write_be 1 ie.u1
        ++ (write_be 8 ie.seid
            ++ (write_if v4 4 ie.ipv4_address ++ write_if v6 16 ie.ipv6_address)))

unfoldable pub load_from : FseidIe → List ℕ → Result (FseidIe × List ℕ)
load_from this s = do
  (u1, s) ← read_be 1 this.u1 s
  let v4 = bf_v4 u1
  let v6 = bf_v6 u1
  require (this.tlv.length == check_length v4 v6) bad_length
  (seid, s) ← read_be 8 this.seid s
  (ipv4_address, s) ← read_address_if v4 4 this.ipv4_address s
  (ipv6_address, s) ← read_address_if v6 16 this.ipv6_address s
  ok (
    record this { u1 = u1; seid = seid; ipv4_address = ipv4_address; ipv6_address = ipv6_address },
    s,
  )

-- new_pfcp_ie_from_stream on this class. The constructor from a header sets no member, so that the
-- others are those of `garbage`.
unfoldable pub receive : FseidIe → List ℕ → Result (FseidIe × List ℕ)
unfolding load_from
receive garbage s = do (tlv, s) ← Tlv.load_from no_tlv s; load_from (record garbage { tlv = tlv }) s
