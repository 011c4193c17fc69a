-- ===== src/Pfcp/OuterHeaderCreation.antt =====
-- src/pfcp/3gpp_29.244.hpp, class pfcp_outer_header_creation_ie: the tunnel header to put in front
-- of a packet.
pub mod Laws
use openair_cn_cups.Common.{
  ℕ, ◌+◌, ◌*◌, ◌%◌, ◌^◌, List, ◌++◌, Bool, not, ◌||◌, Result, ok, ◌>>=◌, ◌>>◌, require, bad_length,
  ltb, if◌then◌else◌, bit,
}
use openair_cn_cups.Common.Words.{write_be, read_be}
use openair_cn_cups.Common.Flags.{read_address_if, flag, write_if, read_if}
use openair_cn_cups.Pfcp.Tlv
use openair_cn_cups.Pfcp.Tlv.{Tlv, no_tlv, ie_tlv}

-- pfcp::outer_header_creation_t
pub record OuterHeaderCreation : Type 0 where
  pub outer_header_creation_description : ℕ
  pub teid : ℕ
  pub ipv4_address : ℕ
  pub ipv6_address : ℕ
  pub port_number : ℕ

pub record OuterHeaderCreationIe : Type 0 where
  pub tlv : Tlv
  pub core : OuterHeaderCreation
  pub open core use *

-- description & (OUTER_HEADER_CREATION_GTPU_UDP_IPV4 | OUTER_HEADER_CREATION_GTPU_UDP_IPV6)
abbrev pub has_teid : ℕ → Bool
has_teid d = flag 8 d || flag 9 d

-- description & (OUTER_HEADER_CREATION_GTPU_UDP_IPV4 | OUTER_HEADER_CREATION_UDP_IPV4)
abbrev pub has_ipv4 : ℕ → Bool
has_ipv4 d = flag 8 d || flag 10 d

-- description & (OUTER_HEADER_CREATION_GTPU_UDP_IPV6 | OUTER_HEADER_CREATION_UDP_IPV6)
abbrev pub has_ipv6 : ℕ → Bool
has_ipv6 d = flag 9 d || flag 11 d

-- description & OUTER_HEADER_CREATION_UDP_IPV4
abbrev pub has_port : ℕ → Bool
has_port d = flag 10 d

abbrev pub core_length : ℕ → ℕ
core_length d =
    2 + 4 * bit (has_teid d) + 4 * bit (has_ipv4 d) + 16 * bit (has_ipv6 d) + 2 * bit (has_port d)

unfoldable pub of_core : OuterHeaderCreation → OuterHeaderCreationIe
of_core b =
    let d = b.outer_header_creation_description in
    record {
      tlv = ie_tlv 84 (core_length d);
      core = record {
        outer_header_creation_description = d;
        teid = if has_teid d then b.teid else 0;
        ipv4_address = if has_ipv4 d then b.ipv4_address else 0;
        ipv6_address = if has_ipv6 d then b.ipv6_address else 0;
        port_number = if has_port d then b.port_number else 0;
      };
    }

unfoldable pub to_core_type : OuterHeaderCreationIe → OuterHeaderCreation
to_core_type ie = ie.core

unfoldable pub dump_to : OuterHeaderCreationIe → List ℕ
dump_to ie =
    let d = ie.outer_header_creation_description in
    Tlv.dump_to ie.tlv
    ++ (write_be 2 d
        ++ (write_if (has_teid d) 4 ie.teid
            ++ (write_if (has_ipv4 d) 4 ie.ipv4_address
                ++ (write_if (has_ipv6 d) 16 ie.ipv6_address
                    ++ write_if (has_port d) 2 ie.port_number))))

unfoldable pub load_from : OuterHeaderCreationIe → List ℕ → Result (OuterHeaderCreationIe × List ℕ)
load_from this s = do
  require (not (ltb this.tlv.length 4)) bad_length
  (d, s) ← read_be 2 this.outer_header_creation_description s
  (teid, s) ← read_if (has_teid d) 4 this.teid s
  (ipv4_address, s) ← read_address_if (has_ipv4 d) 4 this.ipv4_address s
  (ipv6_address, s) ← read_address_if (has_ipv6 d) 16 this.ipv6_address s
  (port_number, s) ← read_if (has_port d) 2 this.port_number s
  ok (
    record this {
      core = record {
        outer_header_creation_description = d;
        teid = teid;
        ipv4_address = ipv4_address;
        ipv6_address = ipv6_address;
        port_number = port_number;
      };
    },
    s,
  )

-- new_pfcp_ie_from_stream on this class; the constructor from a header sets no member.
unfoldable pub receive : OuterHeaderCreation → List ℕ → Result (OuterHeaderCreationIe × List ℕ)
unfolding load_from
receive garbage s = do
  (tlv, s) ← Tlv.load_from no_tlv s
  load_from (record { tlv = tlv; core = garbage }) s
