-- ===== src/Pfcp/OuterHeaderCreation/Laws.antt =====
-- An outer header after a trip over the wire.
use openair_cn_cups.Common.{
  ℕ, ◌^◌, ◌<◌, ◌≡◌, refl, List, ◌++◌, Bool, true, false, ok, err, ltb, if◌then◌else◌, arith,
  append_assoc, if-lt, nested_if, ◌||◌, bad_length,
}
use openair_cn_cups.Common.Words.{read_be-write_be}
use openair_cn_cups.Common.Flags.{read_address_if-write_if, read_if-write_if, flag}
use openair_cn_cups.Pfcp.Tlv
use openair_cn_cups.Pfcp.Tlv.{ie_tlv}
use openair_cn_cups.Pfcp.OuterHeaderCreation.{
  OuterHeaderCreation, OuterHeaderCreationIe, has_teid, has_ipv4, has_ipv6, has_port, core_length,
  of_core, to_core_type, dump_to, receive,
}

pub record IsValid (b : OuterHeaderCreation) : Type 0 where
  pub description_fits : b.outer_header_creation_description < 2 ^ 16
  pub teid_fits : b.teid < 2 ^ 32
  pub ipv4_fits : b.ipv4_address < 2 ^ 32
  pub ipv6_fits : b.ipv6_address < 2 ^ 128
  pub port_fits : b.port_number < 2 ^ 16

-- One of the four kinds of header that the code knows is asked for.
abbrev pub is_known : ℕ → Bool
is_known d = has_teid d || (flag 10 d || flag 11 d)

-- The description with the members that it announces, over what the memory held.
unfoldable pub over : OuterHeaderCreation → OuterHeaderCreation → OuterHeaderCreation
over garbage b =
    let d = b.outer_header_creation_description in
    record {
      outer_header_creation_description = d;
      teid = if has_teid d then b.teid else garbage.teid;
      ipv4_address = if has_ipv4 d then b.ipv4_address else garbage.ipv4_address;
      ipv6_address = if has_ipv6 d then b.ipv6_address else garbage.ipv6_address;
      port_number = if has_port d then b.port_number else garbage.port_number;
    }

long_enough : (d : ℕ) → is_known d ≡ true → ltb (core_length d) 4 ≡ false
long_enough d h = ground arith

too_short : (d : ℕ) → is_known d ≡ false → ltb (core_length d) 4 ≡ true
too_short d h = ground arith

core_length-lt : (d : ℕ) → core_length d < 2 ^ 16
core_length-lt d = ground arith

abbrev pub arrived : OuterHeaderCreation → OuterHeaderCreation → OuterHeaderCreationIe
arrived garbage b = record {
  tlv = ie_tlv 84 (core_length b.outer_header_creation_description);
  core = over garbage b;
}

pub receive-of_core :
    (garbage b : OuterHeaderCreation) (rest : List ℕ)
    → IsValid b
    → is_known b.outer_header_creation_description ≡ true
    → receive garbage (dump_to (of_core b) ++ rest) ≡ ok (arrived garbage b, rest)
unfolding receive dump_to of_core over
receive-of_core garbage b rest v known =
    let d = b.outer_header_creation_description in
    simp append_assoc (
      rw (
        Tlv.load_from-ie_tlv 84 (core_length d) _ (omega arith) (core_length-lt d),
        long_enough d known,
        read_be-write_be 2 _ d _ v.description_fits,
        read_if-write_if (has_teid d) 4 garbage.teid (if has_teid d then b.teid else 0) _
            (if-lt (has_teid d) v.teid_fits),
        read_address_if-write_if (has_ipv4 d) 4 garbage.ipv4_address
            (if has_ipv4 d then b.ipv4_address else 0) _ (if-lt (has_ipv4 d) v.ipv4_fits),
        read_address_if-write_if (has_ipv6 d) 16 garbage.ipv6_address
            (if has_ipv6 d then b.ipv6_address else 0) _ (if-lt (has_ipv6 d) v.ipv6_fits),
        read_if-write_if (has_port d) 2 garbage.port_number
            (if has_port d then b.port_number else 0) _ (if-lt (has_port d) v.port_fits),
        nested_if (has_teid d),
        nested_if (has_ipv4 d),
        nested_if (has_ipv6 d),
        nested_if (has_port d),
      ))

-- What the constructor leaves out of an outer header does not arrive anyway.
pub over-of_core :
    (garbage b : OuterHeaderCreation) → over garbage (of_core b).core ≡ over garbage b
unfolding over of_core
over-of_core garbage b =
    let d = b.outer_header_creation_description in
    rw
      (
        nested_if (has_teid d),
        nested_if (has_ipv4 d),
        nested_if (has_ipv6 d),
        nested_if (has_port d),
      )
      refl

-- A valid outer header of a known kind comes back with its description and every member that
-- this announces; the other members are those that the memory held; the bytes that follow
-- are left.
pub receive-dump_to_outer_header :
    (garbage b : OuterHeaderCreation) (rest : List ℕ)
    → IsValid b
    → is_known b.outer_header_creation_description ≡ true
    → (ie : OuterHeaderCreationIe) × (receive garbage (dump_to (of_core b) ++ rest) ≡ ok (ie, rest))
      × (to_core_type ie ≡ over garbage b)
unfolding to_core_type
receive-dump_to_outer_header garbage b rest v known =
    (arrived garbage b, receive-of_core garbage b rest v known, refl)

-- An outer header of no known kind that dump_to writes is refused with a bad length.
pub receive_unknown :
    (garbage b : OuterHeaderCreation) (rest : List ℕ)
    → is_known b.outer_header_creation_description ≡ false
    → receive garbage (dump_to (of_core b) ++ rest) ≡ err bad_length
unfolding receive dump_to of_core
receive_unknown garbage b rest unknown =
    let d = b.outer_header_creation_description in
    simp append_assoc (
      rw (
        Tlv.load_from-ie_tlv 84 (core_length d) _ (omega arith) (core_length-lt d),
        too_short d unknown,
      ))
