-- ===== src/Pfcp/Fteid/Laws.antt =====
-- A tunnel endpoint after a trip over the wire.
use native.Mathlib.Nat.{mod-eq_of_lt}
use openair_cn_cups.Common.{
  ℕ, ◌+◌, ◌*◌, ◌^◌, ◌<◌, ◌≡◌, refl, List, [], ◌++◌, Bool, true, false, bit, ok, if◌then◌else◌,
  arith, append_assoc, ==_refl,
}
use openair_cn_cups.Common.Words.{read_be-write_be}
use openair_cn_cups.Common.Flags.{read_address_if-write_if, bits, write_if, flags, bits-lt}
use openair_cn_cups.Pfcp.Tlv
use openair_cn_cups.Pfcp.Tlv.{Tlv, no_tlv, ie_tlv}
use openair_cn_cups.Pfcp.Fteid.{Fteid, FteidIe, of_core, to_core_type, dump_to, receive}

pub record IsValid (b : Fteid) : Type 0 where
  pub teid_fits : b.teid < 2 ^ 32
  pub ipv4_fits : b.ipv4_address < 2 ^ 32
  pub ipv6_fits : b.ipv6_address < 2 ^ 128
  pub choose_fits : b.choose_id < 2 ^ 8

len : (v4 v6 : Bool) → 5 + 4 * bit v4 + 16 * bit v6 < 2 ^ 16
len v4 v6 = ground arith

receive-chosen :
    (g : ℕ) (v4 v6 chid : Bool) (teid a4 a6 cid : ℕ) (rest : List ℕ)
    → cid < 2 ^ 8
    → g < 2 ^ 8
    → receive (
        dump_to (
          of_core g (record {
            v4 = v4;
            v6 = v6;
            ch = true;
            chid = chid;
            teid = teid;
            ipv4_address = a4;
            ipv6_address = a6;
            choose_id = cid;
          }))
        ++ rest)
      ≡ ok (
        record {
          tlv = ie_tlv 21 (1 + bit chid);
          u1 = bits false false true chid false;
          teid = 0;
          ipv4_address = 0;
          ipv6_address = 0;
          choose_id = if chid then cid else 0;
        },
        rest,
      )
unfolding receive dump_to of_core
receive-chosen g v4 v6 true teid a4 a6 cid rest hc hg =
    simp (flags, append_assoc)
      (rw
        (
          Tlv.load_from-ie_tlv 21 2 _ (omega arith) (omega arith),
          read_be-write_be 1 _ (bits false false true true false) _
              (bits-lt false false true true false),
        )
        (simp flags (rw (read_be-write_be 1 _ cid rest hc))))
receive-chosen g v4 v6 false teid a4 a6 cid rest hc hg =
    simp (flags, append_assoc)
      (rw
        (
          Tlv.load_from-ie_tlv 21 1 _ (omega arith) (omega arith),
          read_be-write_be 1 _ (bits false false true false false) _
              (bits-lt false false true false false),
        )
        (simp flags refl))

receive-allocated :
    (g : ℕ) (v4 v6 chid : Bool) (teid a4 a6 cid : ℕ) (rest : List ℕ)
    → teid < 2 ^ 32
    → a4 < 2 ^ 32
    → a6 < 2 ^ 128
    → receive (
        dump_to (
          of_core g (record {
            v4 = v4;
            v6 = v6;
            ch = false;
            chid = chid;
            teid = teid;
            ipv4_address = a4;
            ipv6_address = a6;
            choose_id = cid;
          }))
        ++ rest)
      ≡ ok (
        record {
          tlv = ie_tlv 21 (5 + 4 * bit v4 + 16 * bit v6);
          u1 = bits v4 v6 false chid false;
          teid = teid;
          ipv4_address = if v4 then a4 else 0;
          ipv6_address = if v6 then a6 else 0;
          choose_id = 0;
        },
        write_if chid 1 g ++ rest,
      )
unfolding receive dump_to of_core
receive-allocated g v4 v6 chid teid a4 a6 cid rest ht h4 h6 =
    simp (flags, append_assoc)
      (rw
        (
          mod-eq_of_lt (len v4 v6),
          Tlv.load_from-ie_tlv 21 (5 + 4 * bit v4 + 16 * bit v6) _ (omega arith) (len v4 v6),
          read_be-write_be 1 _ (bits v4 v6 false chid false) _ (bits-lt v4 v6 false chid false),
        )
        (simp flags (
          rw (
            ==_refl (5 + 4 * bit v4 + 16 * bit v6),
            read_be-write_be 4 _ teid _ ht,
            read_address_if-write_if v4 4 0 a4 _ h4,
            read_address_if-write_if v6 16 0 a6 _ h6,
          ))))

-- What of a tunnel endpoint is on the wire: a request to choose carries the choose identifier at
-- most, any other endpoint its tunnel and the addresses that it announces.
unfoldable pub on_wire : Fteid → Fteid
on_wire b =
    if b.ch
    then record {
      v4 = false;
      v6 = false;
      ch = true;
      chid = b.chid;
      teid = 0;
      ipv4_address = 0;
      ipv6_address = 0;
      choose_id = if b.chid then b.choose_id else 0;
    }
    else record {
      v4 = b.v4;
      v6 = b.v6;
      ch = false;
      chid = b.chid;
      teid = b.teid;
      ipv4_address = if b.v4 then b.ipv4_address else 0;
      ipv6_address = if b.v6 then b.ipv6_address else 0;
      choose_id = 0;
    }

-- The byte that dump_to writes outside the announced length.
abbrev pub stray : ℕ → Fteid → List ℕ
stray g b = if b.ch then [] else write_if b.chid 1 g

abbrev Arrives : ℕ → Fteid → List ℕ → Type 0
Arrives g b rest =
    (ie : FteidIe) × (receive (dump_to (of_core g b) ++ rest) ≡ ok (ie, stray g b ++ rest))
    × (to_core_type ie ≡ on_wire b)

arrives :
    (g : ℕ) (v4 v6 ch chid : Bool) (teid a4 a6 cid : ℕ) (rest : List ℕ)
    → g < 2 ^ 8
    → teid < 2 ^ 32
    → a4 < 2 ^ 32
    → a6 < 2 ^ 128
    → cid < 2 ^ 8
    → Arrives g
        (record {
          v4 = v4;
          v6 = v6;
          ch = ch;
          chid = chid;
          teid = teid;
          ipv4_address = a4;
          ipv6_address = a6;
          choose_id = cid;
        })
        rest
unfolding to_core_type on_wire
arrives g v4 v6 true chid teid a4 a6 cid rest hg ht h4 h6 hc =
    (_, receive-chosen g v4 v6 chid teid a4 a6 cid rest hc hg, simp flags)
arrives g v4 v6 false chid teid a4 a6 cid rest hg ht h4 h6 hc =
    (_, receive-allocated g v4 v6 chid teid a4 a6 cid rest ht h4 h6, simp flags)

-- A valid tunnel endpoint comes back as what of it is on the wire, for every combination of
-- its flags; the bytes that follow are left, behind one stray byte if the endpoint has a
-- choose identifier without the request to choose.
pub receive-dump_to_fteid :
    (g : ℕ) (b : Fteid) (rest : List ℕ)
    → g < 2 ^ 8
    → IsValid b
    → (ie : FteidIe) × (receive (dump_to (of_core g b) ++ rest) ≡ ok (ie, stray g b ++ rest))
      × (to_core_type ie ≡ on_wire b)
receive-dump_to_fteid g b rest hg v =
    arrives g b.v4 b.v6 b.ch b.chid b.teid b.ipv4_address b.ipv6_address b.choose_id rest hg
      v.teid_fits v.ipv4_fits v.ipv6_fits v.choose_fits
