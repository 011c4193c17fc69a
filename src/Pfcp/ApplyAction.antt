-- ===== src/Pfcp/ApplyAction.antt =====
-- src/pfcp/3gpp_29.244.hpp, class pfcp_apply_action_ie: what to do with a packet.
use openair_cn_cups.Common.{
  ℕ, ◌==◌, List, ◌++◌, Bool, ok, Result, ◌>>=◌, ◌>>◌, require, bad_length, ◌≡◌, append_assoc, arith,
}
use openair_cn_cups.Common.Words.{write_be, read_be, read_be-write_be}
use openair_cn_cups.Common.Flags.{flag, bits, flags, bits-lt}
use openair_cn_cups.Pfcp.Tlv
use openair_cn_cups.Pfcp.Tlv.{Tlv, no_tlv, ie_tlv}

-- pfcp::apply_action_t
pub record ApplyAction : Type 0 where
  pub drop : Bool
  pub forw : Bool
  pub buff : Bool
  pub nocp : Bool
  pub dupl : Bool

pub record ApplyActionIe : Type 0 where
  pub tlv : Tlv
  pub u1 : ℕ

unfoldable pub of_core : ApplyAction → ApplyActionIe
of_core b = record { tlv = ie_tlv 44 1; u1 = bits b.drop b.forw b.buff b.nocp b.dupl }

unfoldable pub to_core_type : ApplyActionIe → ApplyAction
to_core_type ie = record {
  drop = flag 0 ie.u1;
  forw = flag 1 ie.u1;
  buff = flag 2 ie.u1;
  nocp = flag 3 ie.u1;
  dupl = flag 4 ie.u1;
}

unfoldable pub dump_to : ApplyActionIe → List ℕ
dump_to ie = Tlv.dump_to ie.tlv ++ write_be 1 ie.u1

unfoldable pub load_from : ApplyActionIe → List ℕ → Result (ApplyActionIe × List ℕ)
load_from this s = do
  require (this.tlv.length == 1) bad_length
  (u1, s) ← read_be 1 this.u1 s
  ok (record this { u1 = u1 }, s)

-- new_pfcp_ie_from_stream on this class.
unfoldable pub receive : List ℕ → Result (ApplyActionIe × List ℕ)
unfolding load_from
receive s = do (tlv, s) ← Tlv.load_from no_tlv s; load_from (record { tlv = tlv; u1 = 0 }) s

pub receive-of_core :
    (b : ApplyAction) (rest : List ℕ) → receive (dump_to (of_core b) ++ rest) ≡ ok (of_core b, rest)
unfolding receive dump_to of_core
receive-of_core b rest = simp append_assoc (
    rw (
      Tlv.load_from-ie_tlv 44 1 _ (omega arith) (omega arith),
      read_be-write_be 1 _ _ rest (bits-lt b.drop b.forw b.buff b.nocp b.dupl),
    ))

-- The five actions come back as they were sent, and the bytes that follow are left.
pub receive-dump_to_apply_action :
    (b : ApplyAction) (rest : List ℕ)
    → (ie : ApplyActionIe) × (receive (dump_to (of_core b) ++ rest) ≡ ok (ie, rest))
      × (to_core_type ie ≡ b)
unfolding of_core to_core_type
receive-dump_to_apply_action b rest = (of_core b, receive-of_core b rest, simp flags)
