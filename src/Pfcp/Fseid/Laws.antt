-- ===== src/Pfcp/Fseid/Laws.antt =====
-- A session endpoint after a trip over the wire.
use native.Mathlib.Nat.{mod-eq_of_lt}
use openair_cn_cups.Common.{
  ℕ, ◌+◌, ◌*◌, ◌^◌, ◌<◌, ◌≡◌, List, ◌++◌, Bool, false, bit, ok, if◌then◌else◌, arith, append_assoc,
  ==_refl, if-lt, nested_if,
}
use openair_cn_cups.Common.Words.{read_be-write_be}
use openair_cn_cups.Common.Flags.{read_address_if-write_if, bits, flags, bits-lt}
use openair_cn_cups.Pfcp.Tlv
use openair_cn_cups.Pfcp.Tlv.{ie_tlv}
use openair_cn_cups.Pfcp.Fseid.{Fseid, FseidIe, of_core, to_core_type, dump_to, receive}

pub record IsValid (b : Fseid) : Type 0 where
  pub seid_fits : b.seid < 2 ^ 64
  pub ipv4_fits : b.ipv4_address < 2 ^ 32
  pub ipv6_fits : b.ipv6_address < 2 ^ 128

-- The endpoint without the addresses that it does not announce.
unfoldable pub announced : Fseid → Fseid
announced b = record b {
  ipv4_address = if b.v4 then b.ipv4_address else 0;
  ipv6_address = if b.v6 then b.ipv6_address else 0;
}

len : (v4 v6 : Bool) → 9 + 4 * bit v4 + 16 * bit v6 < 2 ^ 16
len v4 v6 = ground arith

receive-fields :
    (garbage : FseidIe) (b : Fseid) (rest : List ℕ)
    → IsValid b
    → receive garbage (dump_to (of_core b) ++ rest)
      ≡ ok (
        record {
          tlv = ie_tlv 57 (9 + 4 * bit b.v4 + 16 * bit b.v6);
          u1 = bits b.v6 b.v4 false false false;
          seid = b.seid;
          ipv4_address = if b.v4 then b.ipv4_address else garbage.ipv4_address;
          ipv6_address = if b.v6 then b.ipv6_address else garbage.ipv6_address;
        },
        rest,
      )
unfolding receive dump_to of_core
receive-fields garbage b rest v =
    simp (flags, append_assoc)
      (rw
        (
          mod-eq_of_lt (len b.v4 b.v6),
          Tlv.load_from-ie_tlv 57 (9 + 4 * bit b.v4 + 16 * bit b.v6) _ (omega arith)
              (len b.v4 b.v6),
          read_be-write_be 1 _ (bits b.v6 b.v4 false false false) _
              (bits-lt b.v6 b.v4 false false false),
        )
        (simp flags (
          rw (
            ==_refl (9 + 4 * bit b.v4 + 16 * bit b.v6),
            read_be-write_be 8 _ b.seid _ v.seid_fits,
            read_address_if-write_if b.v4 4 garbage.ipv4_address
                (if b.v4 then b.ipv4_address else 0) _ (if-lt b.v4 v.ipv4_fits),
            read_address_if-write_if b.v6 16 garbage.ipv6_address
                (if b.v6 then b.ipv6_address else 0) _ (if-lt b.v6 v.ipv6_fits),
            nested_if b.v4,
            nested_if b.v6,
          ))))

-- A valid session endpoint comes back with every flag, its identifier and the addresses that
-- it announces, whatever the memory held in which it is read; the bytes that follow are
-- left.
pub receive-dump_to_fseid :
    (garbage : FseidIe) (b : Fseid) (rest : List ℕ)
    → IsValid b
    → (ie : FseidIe) × (receive garbage (dump_to (of_core b) ++ rest) ≡ ok (ie, rest))
      × (to_core_type ie ≡ announced b)
unfolding to_core_type announced
receive-dump_to_fseid garbage b rest v =
    (_, receive-fields garbage b rest v, simp flags (ground arith))
