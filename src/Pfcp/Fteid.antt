-- ===== src/Pfcp/Fteid.antt =====
-- src/pfcp/3gpp_29.244.hpp, class pfcp_fteid_ie: a tunnel endpoint, or the request to choose one.
-- Addresses are numbers whose big-endian bytes stand in memory and on the wire.
pub mod Laws
use openair_cn_cups.Common.{
  ℕ, ◌+◌, ◌*◌, ◌^◌, ◌<◌, ◌==◌, ◌&&◌, List, [], ◌++◌, Bool, true, false, not, bit, Result, ok, ◌>>=◌,
  ◌>>◌, require, bad_length, if◌then◌else◌,
}
use openair_cn_cups.Common.Words.{write_be, read_be}
use openair_cn_cups.Common.Flags.{read_address_if, flag, bits, write_if, read_if}
use openair_cn_cups.Pfcp.Tlv
use openair_cn_cups.Pfcp.Tlv.{Tlv, no_tlv, set_length, ie_tlv}

-- pfcp::fteid_t
pub record Fteid : Type 0 where
  pub v4 : Bool
  pub v6 : Bool
  pub ch : Bool
  pub chid : Bool
  pub teid : ℕ
  pub ipv4_address : ℕ
  pub ipv6_address : ℕ
  pub choose_id : ℕ

-- The members of the class; the fields of the byte u1 are read by `flag`.
pub record FteidIe : Type 0 where
  pub tlv : Tlv
  pub u1 : ℕ
  pub teid : ℕ
  pub ipv4_address : ℕ
  pub ipv6_address : ℕ
  pub choose_id : ℕ

abbrev bf_v4 : ℕ → Bool
bf_v4 u1 = flag 0 u1

abbrev bf_v6 : ℕ → Bool
bf_v6 u1 = flag 1 u1

abbrev bf_ch : ℕ → Bool
bf_ch u1 = flag 2 u1

abbrev bf_chid : ℕ → Bool
bf_chid u1 = flag 3 u1

-- What the constructor, dump_to and load_from each count from the flags.
abbrev body_length : Bool → Bool → Bool → Bool → ℕ
body_length v4 v6 ch chid = if ch then 1 + bit chid else 5 + 4 * bit v4 + 16 * bit v6

-- The constructor from the core type. `garbage` is what choose_id holds where it is not set.
unfoldable pub of_core : ℕ → Fteid → FteidIe
of_core garbage b =
    if b.ch
    then record {
      tlv = ie_tlv 21 (body_length false false true b.chid);
      u1 = bits false false true b.chid false;
      teid = b.teid;
      ipv4_address = 0;
      ipv6_address = 0;
      choose_id = if b.chid then b.choose_id else garbage;
    }
    else record {
      tlv = ie_tlv 21 (body_length b.v4 b.v6 false b.chid);
      u1 = bits b.v4 b.v6 false b.chid false;
      teid = b.teid;
      ipv4_address = b.ipv4_address;
      ipv6_address = b.ipv6_address;
      choose_id = garbage;
    }

-- The constructor from a header.
unfoldable pub of_tlv : Tlv → FteidIe
of_tlv t = record { tlv = t; u1 = 0; teid = 0; ipv4_address = 0; ipv6_address = 0; choose_id = 0 }

unfoldable pub to_core_type : FteidIe → Fteid
to_core_type ie = record {
  v4 = bf_v4 ie.u1;
  v6 = bf_v6 ie.u1;
  ch = bf_ch ie.u1;
  chid = bf_chid ie.u1;
  teid = ie.teid;
  ipv4_address = ie.ipv4_address;
  ipv6_address = ie.ipv6_address;
  choose_id = ie.choose_id;
}

unfoldable pub dump_to : FteidIe → List ℕ
dump_to ie =
    let v4 = bf_v4 ie.u1 in
    let v6 = bf_v6 ie.u1 in
    let ch = bf_ch ie.u1 in
    let chid = bf_chid ie.u1 in
    Tlv.dump_to (set_length ie.tlv (body_length v4 v6 ch chid))
    ++ (write_be 1 ie.u1
        ++ (write_if (not ch) 4 ie.teid
            ++ (write_if (not ch && v4) 4 ie.ipv4_address
                ++ (write_if (not ch && v6) 16 ie.ipv6_address ++ write_if chid 1 ie.choose_id))))

unfoldable pub load_from : FteidIe → List ℕ → Result (FteidIe × List ℕ)
load_from this s = do
  (u1, s) ← read_be 1 this.u1 s
  let v4 = bf_v4 u1
  let v6 = bf_v6 u1
  let ch = bf_ch u1
  let chid = bf_chid u1
  require (this.tlv.length == body_length v4 v6 ch chid) bad_length
  (teid, s) ← read_if (not ch) 4 this.teid s
  (ipv4_address, s) ← read_address_if (not ch && v4) 4 this.ipv4_address s
  (ipv6_address, s) ← read_address_if (not ch && v6) 16 this.ipv6_address s
  (choose_id, s) ← read_if (ch && chid) 1 this.choose_id s
  ok (
    record this {
      u1 = u1;
      teid = teid;
      ipv4_address = ipv4_address;
      ipv6_address = ipv6_address;
      choose_id = choose_id;
    },
    s,
  )

-- new_pfcp_ie_from_stream on this class.
unfoldable pub receive : List ℕ → Result (FteidIe × List ℕ)
unfolding load_from of_tlv
receive s = do (tlv, s) ← Tlv.load_from no_tlv s; load_from (of_tlv tlv) s
