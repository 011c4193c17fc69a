-- ===== src/Pfcp/Message/Tests.antt =====
-- A session request that creates an action rule, on the wire.
use openair_cn_cups.Common.Words.{read_be_from, write_le, write_be}
use openair_cn_cups.Common.Flags.{flag}
use openair_cn_cups.Pfcp.Scalar.{ScalarClass}
use openair_cn_cups.Common.{
  Option, ℕ, ◌≡◌, refl, arith, List, [], ◌∷◌, true, false, Result, ok, some,
}
use openair_cn_cups.Pfcp.Header.Laws.{sent}
use openair_cn_cups.Pfcp.Tlv.{Tlv, ie_tlv}
use openair_cn_cups.Pfcp.Scalar
use openair_cn_cups.Pfcp.Scalar.Classes.{
  cause, source_interface, bar_id, outer_header_removal, pdr_id, offending_ie, precedence,
  time_threshold, monitoring_time, subsequent_time_threshold, inactivity_detection_time, qer_id,
  far_id, destination_interface,
}
use openair_cn_cups.Pfcp.ApplyAction
use openair_cn_cups.Pfcp.ApplyAction.{ApplyAction}
use openair_cn_cups.Pfcp.OuterHeaderCreation
use openair_cn_cups.Pfcp.OuterHeaderCreation.{OuterHeaderCreation}
use openair_cn_cups.Pfcp.Message.{
  next, LeafCodec, Ies, leaf, grouped, no_ies, push_back, Message, new_message, add_ie,
  add_to_group, dump_to, load_from,
}
use openair_cn_cups.Pfcp.Message.Elements.{IsSound, counted_ies, arrives_ies}
use openair_cn_cups.Pfcp.Message.RoundTrip.{IsWhole, load_from-dump_to_message}
use openair_cn_cups.Pfcp.Message.Built.{add_ie-IsWhole, new_message-IsWhole}
use openair_cn_cups.Pfcp.Message.Returns.{load_from_returns}
use openair_cn_cups.Pfcp.Message.Leaves.{
  knows, load_leaf, Leaf, scalar, apply_action, outer_header_creation, leaf_codec,
}
use openair_cn_cups.Pfcp.Message.Leaves.Codec.{IsGood, leaf_laws}
use openair_cn_cups.Pfcp.Message.Leaves.Shrinking.{leaf_codec-Shrinks}

abbrev memory : OuterHeaderCreation
memory = record {
  outer_header_creation_description = 0;
  teid = 0;
  ipv4_address = 0;
  ipv6_address = 0;
  port_number = 0;
}

abbrev codec : LeafCodec Leaf
codec = leaf_codec 0 memory

abbrev forw : ApplyAction
forw = record { drop = false; forw = true; buff = false; nocp = false; dupl = false }

-- GTP-U over IPv4, to a base station.
abbrev tunnel : OuterHeaderCreation
tunnel = record {
  outer_header_creation_description = 256;
  teid = 4660;
  ipv4_address = 3232235777;
  ipv6_address = 0;
  port_number = 0;
}

abbrev parameters : Tlv × Ies Leaf
parameters =
    add_to_group codec
      (add_to_group codec (ie_tlv 4 0, no_ies)
        (leaf (scalar destination_interface (Scalar.of_core destination_interface 0))))
      (leaf (outer_header_creation (OuterHeaderCreation.of_core tunnel)))

abbrev rule : Tlv × Ies Leaf
rule =
    add_to_group codec
      (add_to_group codec
        (add_to_group codec (ie_tlv 3 0, no_ies) (leaf (scalar far_id (Scalar.of_core far_id 5))))
        (leaf (apply_action (ApplyAction.of_core forw))))
      (grouped parameters.0 parameters.1)

-- Type 50 asks for a session.
abbrev request : Message Leaf
request = add_ie codec (new_message 50) (grouped rule.0 rule.1)

parameters-IsSound : IsSound codec (leaf_laws 0 memory) (grouped parameters.0 parameters.1)
unfolding IsSound add_to_group push_back counted_ies IsGood Scalar.of_core
    OuterHeaderCreation.of_core flag
parameters-IsSound = (
  omega arith,
  refl,
  refl,
  (
    ((cause ∷ source_interface ∷ [], _, refl), (0, refl, omega arith)),
    ((tunnel, refl, omega arith, refl), tt),
  ),
)

abbrev before_far_id : List ScalarClass
before_far_id =
    cause ∷ source_interface ∷ destination_interface ∷ bar_id ∷ outer_header_removal ∷ pdr_id
    ∷ offending_ie ∷ precedence ∷ time_threshold ∷ monitoring_time ∷ subsequent_time_threshold
    ∷ inactivity_detection_time ∷ qer_id ∷ []

rule-IsSound : IsSound codec (leaf_laws 0 memory) (grouped rule.0 rule.1)
unfolding IsSound add_to_group push_back counted_ies IsGood Scalar.of_core ApplyAction.of_core
    OuterHeaderCreation.of_core flag
rule-IsSound = (
  omega arith,
  refl,
  refl,
  (((before_far_id, _, refl), (5, refl, omega arith)), ((forw, refl), (parameters-IsSound, tt))),
)

request-IsWhole : IsWhole codec (leaf_laws 0 memory) request
unfolding add_to_group Scalar.of_core ApplyAction.of_core OuterHeaderCreation.of_core flag
request-IsWhole =
    add_ie-IsWhole codec (leaf_laws 0 memory) (new_message 50) (grouped rule.0 rule.1)
      (new_message-IsWhole codec (leaf_laws 0 memory) 50 (omega arith)) rule-IsSound (omega arith)

add_ie-IsWhole_example : IsWhole codec (leaf_laws 0 memory) request
unfolding add_to_group Scalar.of_core ApplyAction.of_core OuterHeaderCreation.of_core flag
add_ie-IsWhole_example =
    add_ie-IsWhole codec (leaf_laws 0 memory) (new_message 50) (grouped rule.0 rule.1)
      (new_message-IsWhole codec (leaf_laws 0 memory) 50 (omega arith)) rule-IsSound (omega arith)

load_from-dump_to_message_example :
    load_from codec 7 (dump_to codec request)
    ≡ some (
        ok (
          record {
            header = sent request.header;
            ies = arrives_ies codec (leaf_laws 0 memory) request.ies;
          },
          [],
        ))
load_from-dump_to_message_example =
    load_from-dump_to_message codec (leaf_laws 0 memory) 7 request request-IsWhole

abbrev only_far_id : Ies Leaf → List ℕ
only_far_id (next (leaf (scalar _ ie)) no_ies) = ie.value ∷ []
only_far_id _ = []

abbrev far_id_of : Option (Result (Message Leaf × List ℕ)) → List ℕ
far_id_of (some (ok (m, _))) = only_far_id m.ies
far_id_of _ = []

-- A message cut off behind the second byte of the identifier of an action rule is taken for a whole
-- one: the other two bytes are those that the object held.
truncated_accepted :
    far_id_of
      (load_from codec 7 (32 ∷ 50 ∷ 0 ∷ 12 ∷ 0 ∷ 0 ∷ 7 ∷ 0 ∷ 0 ∷ 108 ∷ 0 ∷ 4 ∷ 18 ∷ 52 ∷ []))
    ≡ 305397760 ∷ []
unfolding load_from read_be_from write_le write_be flag knows load_leaf
truncated_accepted = refl

-- A message cut off in the header of its first element.
load_from_returns_example :
    (r : Result (Message Leaf × List ℕ)) × (load_from codec 7
        (32 ∷ 50 ∷ 0 ∷ 10 ∷ 0 ∷ 0 ∷ 7 ∷ 0 ∷ 0 ∷ 3 ∷ [])
      ≡ some r)
load_from_returns_example =
    load_from_returns codec (leaf_codec-Shrinks 0 memory) 7
      (32 ∷ 50 ∷ 0 ∷ 10 ∷ 0 ∷ 0 ∷ 7 ∷ 0 ∷ 0 ∷ 3 ∷ [])
