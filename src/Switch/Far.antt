-- ===== src/Switch/Far.antt =====
-- spgwu/simpleswitch/pfcp_far.{hpp,cpp}: a forwarding action rule, and the update functions of the
-- parameters it holds (src/pfcp/msg_pfcp.hpp).
pub mod Actions
pub mod Updates
use openair_cn_cups.Common.{ℕ, ◌==◌, Bool, true, List, [], ◌∷◌, if◌then◌else◌}
use openair_cn_cups.Pfcp.ApplyAction.{ApplyAction}
use openair_cn_cups.Pfcp.Fseid.{Fseid}
use openair_cn_cups.Pfcp.OuterHeaderCreation.{OuterHeaderCreation}
use openair_cn_cups.Switch.Ies.{
  Ie, assign, ForwardingParameters, UpdateForwardingParameters, DuplicatingParameters, CreateFar,
  UpdateFar,
}

pub record PfcpFar : Type 0 where
  pub far_id : ℕ
  pub apply_action : ApplyAction
  pub forwarding_parameters : Ie ForwardingParameters
  pub duplicating_parameters : Ie DuplicatingParameters
  pub bar_id : Ie ℕ

-- The constructor from a create_far.
abbrev pub of_create_far : CreateFar → PfcpFar
of_create_far c = record {
  far_id = c.far_id.1;
  apply_action = c.apply_action.1;
  forwarding_parameters = c.forwarding_parameters;
  duplicating_parameters = c.duplicating_parameters;
  bar_id = c.bar_id;
}

-- forwarding_parameters::update
unfoldable pub update_forwarding_parameters :
    UpdateForwardingParameters → ForwardingParameters → ForwardingParameters
update_forwarding_parameters u f = record f {
  destination_interface = assign u.destination_interface f.destination_interface;
  network_instance = assign u.network_instance f.network_instance;
  outer_header_creation = assign u.outer_header_creation f.outer_header_creation;
  transport_level_marking = assign u.transport_level_marking f.transport_level_marking;
  forwarding_policy = assign u.forwarding_policy f.forwarding_policy;
  header_enrichment = assign u.header_enrichment f.header_enrichment;
  linked_traffic_endpoint_id = assign u.linked_traffic_endpoint_id f.linked_traffic_endpoint_id;
}

-- duplicating_parameters::update
unfoldable pub update_duplicating_parameters :
    DuplicatingParameters → DuplicatingParameters → DuplicatingParameters
update_duplicating_parameters u d = record {
  destination_interface = assign u.destination_interface d.destination_interface;
  outer_header_creation = assign u.outer_header_creation d.outer_header_creation;
  transport_level_marking = assign u.transport_level_marking d.transport_level_marking;
  forwarding_policy = assign u.forwarding_policy d.forwarding_policy;
}

-- pfcp_far::update, which always returns true. The first halves of the two parameter groups are
-- left as they are.
unfoldable pub update : UpdateFar → PfcpFar → PfcpFar
unfolding update_forwarding_parameters update_duplicating_parameters
update u far = record far {
  apply_action = if u.apply_action.0 then u.apply_action.1 else far.apply_action;
  forwarding_parameters = (
    far.forwarding_parameters.0,
    if u.update_forwarding_parameters.0
        then update_forwarding_parameters u.update_forwarding_parameters.1
            far.forwarding_parameters.1
        else far.forwarding_parameters.1,
  );
  duplicating_parameters = (
    far.duplicating_parameters.0,
    if u.update_duplicating_parameters.0
        then update_duplicating_parameters u.update_duplicating_parameters.1
            far.duplicating_parameters.1
        else far.duplicating_parameters.1,
  );
  bar_id = assign u.bar_id far.bar_id;
}

-- The header fields of a packet that the switch reads, and all its bytes.
pub record Packet : Type 0 where
  pub version : ℕ
  pub saddr : ℕ
  pub daddr : ℕ
  pub bytes : List ℕ

-- What leaves the switch: a G-PDU to the peer's address, port and tunnel; a packet to the PDN; an
-- error indication to the sender of a packet with its tunnel; a downlink data report for a rule to
-- the session's control-plane endpoint.
pub data Output : Type 0 where
  g_pdu_ipv4 : ℕ → ℕ → ℕ → Packet → Output
  g_pdu_ipv6 : ℕ → ℕ → ℕ → Packet → Output
  to_core : Packet → Output
  error_indication : ℕ → ℕ → Output
  session_report : Fseid → ℕ → Output

-- What apply_forwarding_rules leaves in its reference parameters, and what it sends.
pub record Applied : Type 0 where
  pub nocp : Bool
  pub buff : Bool
  pub sent : List Output

abbrev pub access : ℕ
access = 0

abbrev pub core : ℕ
core = 1

-- The switch on the description of the outer header to create.
unfoldable pub send_to_access : ℕ → OuterHeaderCreation → Packet → List Output
send_to_access port o packet =
    if o.outer_header_creation_description == 256
    then g_pdu_ipv4 o.ipv4_address port o.teid packet ∷ []
    else if o.outer_header_creation_description == 512
    then g_pdu_ipv6 o.ipv6_address port o.teid packet ∷ []
    else []

unfoldable pub forward : ℕ → ForwardingParameters → Packet → List Output
unfolding send_to_access
forward port f packet =
    if f.destination_interface.0
    then if f.destination_interface.1 == access
      then if f.outer_header_creation.0
        then send_to_access port f.outer_header_creation.1 packet
        else []
      else if f.destination_interface.1 == core
      then to_core packet ∷ []
      else []
    else []

-- pfcp_far::apply_forwarding_rules; `port` is spgwu_cfg.s1_up.port.
unfoldable pub apply_forwarding_rules : ℕ → PfcpFar → Packet → Bool → Bool → Applied
unfolding forward
apply_forwarding_rules port far packet nocp buff =
    let a = far.apply_action in
    record {
      nocp = if a.nocp then true else nocp;
      buff = if a.forw then buff else if a.drop then buff else if a.buff then true else buff;
      sent =
          if a.forw
          then if far.forwarding_parameters.0
            then forward port far.forwarding_parameters.1 packet
            else []
          else [];
    }
