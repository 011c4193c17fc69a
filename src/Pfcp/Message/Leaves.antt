-- ===== src/Pfcp/Message/Leaves.antt =====
-- Classes of elements that hold no others, as the cases of new_pfcp_ie_from_stream
-- (src/pfcp/3gpp_29.244.cpp): those with one number, the apply action and the outer header creation.
pub mod Laws
pub mod Codec
pub mod Shrinking
use openair_cn_cups.Common.{
  ℕ, ◌==◌, if◌then◌else◌, Bool, true, false, List, [], ◌∷◌, Option, none, some, Result, ok, err,
  ◌>>=◌, bad_length,
}
use openair_cn_cups.Pfcp.Tlv.{Tlv}
use openair_cn_cups.Pfcp.Scalar
use openair_cn_cups.Pfcp.Scalar.{ScalarClass, ScalarIe}
use openair_cn_cups.Pfcp.Scalar.Classes.{regular_classes, urr_id, qer_correlation_id}
use openair_cn_cups.Pfcp.ApplyAction
use openair_cn_cups.Pfcp.ApplyAction.{ApplyActionIe}
use openair_cn_cups.Pfcp.OuterHeaderCreation
use openair_cn_cups.Pfcp.OuterHeaderCreation.{OuterHeaderCreation, OuterHeaderCreationIe}
use openair_cn_cups.Pfcp.Message.{LeafCodec}

pub data Leaf : Type 0 where
  scalar : ScalarClass → ScalarIe → Leaf
  apply_action : ApplyActionIe → Leaf
  outer_header_creation : OuterHeaderCreationIe → Leaf

abbrev pub scalar_classes : List ScalarClass
scalar_classes = urr_id ∷ qer_correlation_id ∷ regular_classes

unfoldable pub class_of : ℕ → List ScalarClass → Option ScalarClass
class_of type [] = none
class_of type (cl ∷ cls) = let rest = class_of type cls in if cl.type == type then some cl else rest

-- load_from on an object made from a header: `number` and `header` are what the memory of the
-- members held.
unfoldable pub load_scalar : Option ScalarClass → ℕ → Tlv → List ℕ → Result (Leaf × List ℕ)
unfolding Scalar.load_from
load_scalar none number t s = err bad_length
load_scalar (some cl) number t s = do
  (ie, s) ← Scalar.load_from cl (Scalar.of_tlv cl number t) s
  ok (scalar cl ie, s)

abbrev pub load_apply_action : Tlv → List ℕ → Result (Leaf × List ℕ)
load_apply_action t s = do
  (ie, s) ← ApplyAction.load_from (record { tlv = t; u1 = 0 }) s
  ok (apply_action ie, s)

abbrev pub load_outer_header : OuterHeaderCreation → Tlv → List ℕ → Result (Leaf × List ℕ)
load_outer_header header t s = do
  (ie, s) ← OuterHeaderCreation.load_from (record { tlv = t; core = header }) s
  ok (outer_header_creation ie, s)

abbrev pub is_scalar : Option ScalarClass → Bool
is_scalar none = false
is_scalar (some _) = true

abbrev pub leaf_tlv : Leaf → Tlv
leaf_tlv (scalar _ ie) = ie.tlv
leaf_tlv (apply_action ie) = ie.tlv
leaf_tlv (outer_header_creation ie) = ie.tlv

abbrev pub dump_leaf : Leaf → List ℕ
dump_leaf (scalar cl ie) = Scalar.dump_to cl ie
dump_leaf (apply_action ie) = ApplyAction.dump_to ie
dump_leaf (outer_header_creation ie) = OuterHeaderCreation.dump_to ie

-- The cases of new_pfcp_ie_from_stream.
unfoldable pub load_leaf : ℕ → OuterHeaderCreation → Tlv → List ℕ → Result (Leaf × List ℕ)
unfolding class_of load_scalar ApplyAction.load_from OuterHeaderCreation.load_from
load_leaf number header t s =
    if t.type == 44
    then load_apply_action t s
    else if t.type == 84
    then load_outer_header header t s
    else load_scalar (class_of t.type scalar_classes) number t s

unfoldable pub knows : ℕ → Bool
unfolding class_of
knows type =
    if type == 44
    then true
    else if type == 84
    then true
    else is_scalar (class_of type scalar_classes)

abbrev pub leaf_codec : ℕ → OuterHeaderCreation → LeafCodec Leaf
leaf_codec number header = record {
  tlv = leaf_tlv;
  dump_to = dump_leaf;
  load_from = load_leaf number header;
  knows = knows;
}
