-- ===== src/Pfcp/UeIpAddress/Laws.antt =====
-- A user equipment address after a trip over the wire.
use native.Mathlib.Nat.{mod-eq_of_lt}
use openair_cn_cups.Common.{
  ℕ, ◌+◌, ◌*◌, ◌^◌, ◌<◌, ◌≡◌, refl, ◌&&◌, List, ◌++◌, Bool, true, false, bit, ok, if◌then◌else◌,
  arith, append_assoc, ==_refl, if-lt, nested_if,
}
use openair_cn_cups.Common.Words.{read_be-write_be}
use openair_cn_cups.Common.Flags.{read_address_if-write_if, bits, flags, bits-lt, read_if-write_if}
use openair_cn_cups.Pfcp.Tlv
use openair_cn_cups.Pfcp.Tlv.{ie_tlv}
use openair_cn_cups.Pfcp.UeIpAddress.{
  UeIpAddress, UeIpAddressIe, of_core, to_core_type, dump_to, receive,
}

pub record IsValid (b : UeIpAddress) : Type 0 where
  pub ipv4_fits : b.ipv4_address < 2 ^ 32
  pub ipv6_fits : b.ipv6_address < 2 ^ 128
  pub delegation_fits : b.ipv6_prefix_delegation_bits < 2 ^ 8

-- `pfcp::ue_ip_address_t v = {}`
abbrev pub no_address : UeIpAddress
no_address = record {
  v4 = false;
  v6 = false;
  sd = false;
  ipv6d = false;
  ipv4_address = 0;
  ipv6_address = 0;
  ipv6_prefix_delegation_bits = 0;
}

-- The address without the parts that it does not announce: the length of the delegated prefix goes
-- with an IPv6 address only.
unfoldable pub announced : UeIpAddress → UeIpAddress
announced b = record b {
  ipv6d = b.v6 && b.ipv6d;
  ipv4_address = if b.v4 then b.ipv4_address else 0;
  ipv6_address = if b.v6 then b.ipv6_address else 0;
  ipv6_prefix_delegation_bits = if b.v6 && b.ipv6d then b.ipv6_prefix_delegation_bits else 0;
}

len : (v4 v6 d : Bool) → 1 + 4 * bit v4 + 16 * bit v6 + bit d < 2 ^ 16
len v4 v6 d = ground arith

and_twice : (a b : Bool) → (a && (a && b)) ≡ (a && b)
and_twice true b = refl
and_twice false b = refl

receive-fields :
    (garbage : UeIpAddressIe) (b : UeIpAddress) (rest : List ℕ)
    → IsValid b
    → receive garbage (dump_to (of_core b) ++ rest)
      ≡ ok (
        record {
          tlv = ie_tlv 93 (1 + 4 * bit b.v4 + 16 * bit b.v6 + bit (b.v6 && b.ipv6d));
          u1 = bits b.v6 b.v4 b.sd (b.v6 && b.ipv6d) false;
          ipv4_address = if b.v4 then b.ipv4_address else garbage.ipv4_address;
          ipv6_address = if b.v6 then b.ipv6_address else garbage.ipv6_address;
          ipv6_prefix_delegation_bits =
              if b.v6 && b.ipv6d
              then b.ipv6_prefix_delegation_bits
              else garbage.ipv6_prefix_delegation_bits;
        },
        rest,
      )
unfolding receive dump_to of_core
receive-fields garbage b rest v =
    let d = b.v6 && b.ipv6d in
    simp (flags, append_assoc, and_twice)
      (rw
        (
          mod-eq_of_lt (len b.v4 b.v6 d),
          Tlv.load_from-ie_tlv 93 (1 + 4 * bit b.v4 + 16 * bit b.v6 + bit d) _ (omega arith)
              (len b.v4 b.v6 d),
          read_be-write_be 1 _ (bits b.v6 b.v4 b.sd d false) _ (bits-lt b.v6 b.v4 b.sd d false),
        )
        (simp (flags, and_twice)
          (rw (
            ==_refl (1 + 4 * bit b.v4 + 16 * bit b.v6 + bit d),
            read_address_if-write_if b.v4 4 garbage.ipv4_address
                (if b.v4 then b.ipv4_address else 0) _ (if-lt b.v4 v.ipv4_fits),
            read_address_if-write_if b.v6 16 garbage.ipv6_address
                (if b.v6 then b.ipv6_address else 0) _ (if-lt b.v6 v.ipv6_fits),
            read_if-write_if d 1 garbage.ipv6_prefix_delegation_bits
                (if d then b.ipv6_prefix_delegation_bits else 0) _ (if-lt d v.delegation_fits),
            nested_if b.v4,
            nested_if b.v6,
            nested_if d,
          ))))

-- A valid address comes back with all that it announces, whatever the memory held in which
-- it is read; the bytes that follow are left.
pub receive-dump_to_ue_ip_address :
    (garbage : UeIpAddressIe) (b : UeIpAddress) (rest : List ℕ)
    → IsValid b
    → (ie : UeIpAddressIe) × (receive garbage (dump_to (of_core b) ++ rest) ≡ ok (ie, rest))
      × (to_core_type ie no_address ≡ announced b)
unfolding to_core_type announced
receive-dump_to_ue_ip_address garbage b rest v =
    (_, receive-fields garbage b rest v, simp flags (ground arith))
