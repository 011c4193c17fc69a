-- ===== src/Pfcp/Message/Leaves/Codec.antt =====
-- The elements that hold no others, as new_pfcp_ie_from_stream reads them.
use openair_cn_cups.Common.Words.{write_be}
use openair_cn_cups.Common.{
  subst, ◌++◌, ap, sym, ◌∙◌, ℕ, ◌^◌, ◌<◌, ◌≡◌, refl, true, false, List, ok, arith, Among, All-Among,
}
use openair_cn_cups.Pfcp.Tlv
use openair_cn_cups.Pfcp.Tlv.{ie_tlv, Tlv, no_tlv}
use openair_cn_cups.Pfcp.Scalar
use openair_cn_cups.Pfcp.Scalar.{ScalarIe, ScalarClass, write_value}
use openair_cn_cups.Pfcp.Scalar.Classes.{regular_classes}
use openair_cn_cups.Pfcp.ApplyAction
use openair_cn_cups.Pfcp.ApplyAction.{ApplyActionIe, ApplyAction}
use openair_cn_cups.Pfcp.OuterHeaderCreation
use openair_cn_cups.Pfcp.OuterHeaderCreation.{OuterHeaderCreation, OuterHeaderCreationIe}
use openair_cn_cups.Pfcp.OuterHeaderCreation.Laws as Outer
use openair_cn_cups.Pfcp.Message.{is_grouped}
use openair_cn_cups.Pfcp.Message.Elements.{IsLeafCodec, IsHeader}
use openair_cn_cups.Pfcp.Message.Leaves.{
  knows, leaf_tlv, leaf_codec, dump_leaf, apply_action, outer_header_creation, Leaf, scalar,
  load_leaf,
}
use openair_cn_cups.Pfcp.Message.Leaves.Laws.{
  IsFound, IsFound-classes, scalar-IsHeader, scalar_reads, apply_action_reads, outer_body,
  outer_length, ie_tlv-IsHeader, outer-IsHeader, outer_header_reads,
}

unfoldable pub IsGood : Leaf → Type 0
IsGood (scalar cl ie) =
    Among cl regular_classes × ((b : ℕ) × (ie ≡ Scalar.of_core cl b) × (b < 256 ^ cl.width))
IsGood (apply_action ie) = (b : ApplyAction) × (ie ≡ ApplyAction.of_core b)
IsGood (outer_header_creation ie) =
    (b : OuterHeaderCreation) × (ie ≡ OuterHeaderCreation.of_core b)
    × Outer.IsValid b
    × (Outer.is_known b.outer_header_creation_description ≡ true)

-- What arrives of an element that was sent; an outer header keeps what it does not announce from
-- the memory that its object lies in.
unfoldable pub arrives : OuterHeaderCreation → Leaf → Leaf
arrives header (scalar cl ie) = scalar cl ie
arrives header (apply_action ie) = apply_action ie
arrives header (outer_header_creation ie) =
    outer_header_creation (record ie { core = Outer.over header ie.core })

pub leaf-IsHeader : (l : Leaf) → IsGood l → IsHeader (leaf_tlv l)
unfolding IsGood ApplyAction.of_core
leaf-IsHeader (scalar cl ie) (among, (b, e, _)) =
    subst (λ (i : ScalarIe). IsHeader i.tlv) (sym e) (scalar-IsHeader cl b among)
leaf-IsHeader (apply_action ie) (b, e) =
    subst (λ (i : ApplyActionIe). IsHeader i.tlv) (sym e)
      (ie_tlv-IsHeader 44 1 (omega arith) (omega arith) (omega arith))
leaf-IsHeader (outer_header_creation ie) (b, e, _, _) =
    subst (λ (i : OuterHeaderCreationIe). IsHeader i.tlv) (sym e) (outer-IsHeader b)

-- What the switch of new_pfcp_ie_from_stream finds.
abbrev pub IsCase : Leaf → Type 0
IsCase l = (knows (leaf_tlv l).type ≡ true) × (is_grouped (leaf_tlv l).type ≡ false)

pub leaf-IsCase : (l : Leaf) → IsGood l → IsCase l
unfolding IsGood knows Scalar.of_core ApplyAction.of_core OuterHeaderCreation.of_core
leaf-IsCase (scalar cl ie) (among, (b, e, _)) =
    let (found, other, another, single) =
      All-Among IsFound cl regular_classes among IsFound-classes in
    subst (λ (i : ScalarIe). IsCase (scalar cl i)) (sym e) (rw (other, another, found) refl, single)
leaf-IsCase (apply_action ie) (b, e) =
    subst (λ (i : ApplyActionIe). IsCase (apply_action i)) (sym e) (refl, refl)
leaf-IsCase (outer_header_creation ie) (b, e, _, _) =
    subst (λ (i : OuterHeaderCreationIe). IsCase (outer_header_creation i)) (sym e) (refl, refl)

pub leaf_same : (header : OuterHeaderCreation) (l : Leaf) → leaf_tlv (arrives header l) ≡ leaf_tlv l
unfolding arrives
leaf_same header (scalar cl ie) = refl
leaf_same header (apply_action ie) = refl
leaf_same header (outer_header_creation ie) = refl

unfoldable pub leaf_body : Leaf → List ℕ
leaf_body (scalar cl ie) = write_value cl.order cl.width ie.value
leaf_body (apply_action ie) = write_be 1 ie.u1
leaf_body (outer_header_creation ie) = outer_body ie

pub leaf_framed : (l : Leaf) → dump_leaf l ≡ Tlv.dump_to (leaf_tlv l) ++ leaf_body l
unfolding leaf_body Scalar.dump_to ApplyAction.dump_to OuterHeaderCreation.dump_to
leaf_framed (scalar cl ie) = refl
leaf_framed (apply_action ie) = refl
leaf_framed (outer_header_creation ie) = refl

outer_arrives :
    (header b : OuterHeaderCreation)
    → record (OuterHeaderCreation.of_core b) {
      core = Outer.over header (OuterHeaderCreation.of_core b).core;
    }
      ≡ Outer.arrived header b
unfolding OuterHeaderCreation.of_core
outer_arrives header b =
    ap (λ (core : OuterHeaderCreation). record { tlv = ie_tlv 84 (outer_length b); core = core })
      (Outer.over-of_core header b)

pub leaf_reads :
    (number : ℕ) (header : OuterHeaderCreation) (l : Leaf) (rest : List ℕ)
    → IsGood l
    → load_leaf number header (leaf_tlv l) (leaf_body l ++ rest) ≡ ok (arrives header l, rest)
unfolding IsGood arrives leaf_body
leaf_reads number header (scalar cl ie) rest (among, (b, e, fits)) =
    subst
      (λ (i : ScalarIe).
        load_leaf number header i.tlv (write_value cl.order cl.width i.value ++ rest)
        ≡ ok (scalar cl i, rest))
      (sym e) (scalar_reads cl number b header rest among fits)
leaf_reads number header (apply_action ie) rest (b, e) =
    subst
      (λ (i : ApplyActionIe).
        load_leaf number header i.tlv (write_be 1 i.u1 ++ rest) ≡ ok (apply_action i, rest))
      (sym e) (apply_action_reads number header b rest)
leaf_reads number header (outer_header_creation ie) rest (b, e, v, known) =
    subst
      (λ (i : OuterHeaderCreationIe).
        load_leaf number header i.tlv (outer_body i ++ rest)
        ≡ ok (outer_header_creation (record i { core = Outer.over header i.core }), rest))
      (sym e)
      (outer_header_reads number header b rest v known
        ∙ ap (λ (i : OuterHeaderCreationIe). ok (outer_header_creation i, rest))
            (sym (outer_arrives header b)))

-- Sixteen classes with one number, the apply action and the known outer headers.
abbrev pub leaf_laws :
    (number : ℕ) (header : OuterHeaderCreation) → IsLeafCodec (leaf_codec number header)
leaf_laws number header = record {
  IsGood = IsGood;
  arrives = arrives header;
  header = leaf-IsHeader;
  known = λ l good. (leaf-IsCase l good).0;
  single = λ l good. (leaf-IsCase l good).1;
  same = λ l good. leaf_same header l;
  body = leaf_body;
  framed = λ l good. leaf_framed l;
  reads = λ l rest good. leaf_reads number header l rest good;
}
