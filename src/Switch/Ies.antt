-- ===== src/Switch/Ies.antt =====
-- src/pfcp/msg_pfcp.hpp: the grouped elements of a session request that the switch keeps. An optional
-- member is std::pair<bool, T>, whose second part is there when the first is false. Content that
-- the switch only copies is a list of octets.
use openair_cn_cups.Common.{ℕ, Bool, true, false, List, [], if◌then◌else◌}
use openair_cn_cups.Pfcp.Fteid.{Fteid}
use openair_cn_cups.Pfcp.UeIpAddress.{UeIpAddress}
use openair_cn_cups.Pfcp.OuterHeaderCreation.{OuterHeaderCreation}
use openair_cn_cups.Pfcp.ApplyAction.{ApplyAction}

abbrev pub Ie : Type 0 → Type 0
Ie A = Bool × A

-- `if (update.get(v.second)) v.first = true;`, also written `if (u.first) set(u.second);`
abbrev pub assign : {A : Type 0} → Ie A → Ie A → Ie A
assign u v = if u.0 then (true, u.1) else v

abbrev pub Octets : Type 0
Octets = List ℕ

abbrev pub absent : Ie Octets
absent = (false, [])

abbrev pub no_fteid : Fteid
no_fteid = record {
  v4 = false;
  v6 = false;
  ch = false;
  chid = false;
  teid = 0;
  ipv4_address = 0;
  ipv6_address = 0;
  choose_id = 0;
}

abbrev pub no_ue_ip_address : UeIpAddress
no_ue_ip_address = record {
  v4 = false;
  v6 = false;
  sd = false;
  ipv6d = false;
  ipv4_address = 0;
  ipv6_address = 0;
  ipv6_prefix_delegation_bits = 0;
}

pub record Pdi : Type 0 where
  pub source_interface : Ie ℕ
  pub local_fteid : Ie Fteid
  pub network_instance : Ie Octets
  pub ue_ip_address : Ie UeIpAddress
  pub traffic_endpoint_id : Ie ℕ
  pub sdf_filter : Ie Octets
  pub application_id : Ie Octets
  pub ethernet_packet_filter : Ie Octets
  pub qfi : Ie ℕ
  pub framed_route : Ie Octets
  pub framed_routing : Ie Octets
  pub framed_ipv6_route : Ie Octets

abbrev pub no_pdi : Pdi
no_pdi = record {
  source_interface = (false, 0);
  local_fteid = (false, no_fteid);
  network_instance = absent;
  ue_ip_address = (false, no_ue_ip_address);
  traffic_endpoint_id = (false, 0);
  sdf_filter = absent;
  application_id = absent;
  ethernet_packet_filter = absent;
  qfi = (false, 0);
  framed_route = absent;
  framed_routing = absent;
  framed_ipv6_route = absent;
}

pub record CreatePdr : Type 0 where
  pub pdr_id : Ie ℕ
  pub precedence : Ie ℕ
  pub pdi : Ie Pdi
  pub outer_header_removal : Ie ℕ
  pub far_id : Ie ℕ
  pub urr_id : Ie ℕ
  pub qer_id : Ie ℕ
  pub activate_predefined_rules : Ie Octets

pub record UpdatePdr : Type 0 where
  pub pdr_id : ℕ
  pub outer_header_removal : Ie ℕ
  pub precedence : Ie ℕ
  pub pdi : Ie Pdi
  pub far_id : Ie ℕ
  pub urr_id : Ie ℕ
  pub qer_id : Ie ℕ

pub record ForwardingParameters : Type 0 where
  pub destination_interface : Ie ℕ
  pub network_instance : Ie Octets
  pub redirect_information : Ie Octets
  pub outer_header_creation : Ie OuterHeaderCreation
  pub transport_level_marking : Ie ℕ
  pub forwarding_policy : Ie Octets
  pub header_enrichment : Ie Octets
  pub linked_traffic_endpoint_id : Ie ℕ
  pub proxying : Ie Octets

pub record UpdateForwardingParameters : Type 0 where
  pub destination_interface : Ie ℕ
  pub network_instance : Ie Octets
  pub outer_header_creation : Ie OuterHeaderCreation
  pub transport_level_marking : Ie ℕ
  pub forwarding_policy : Ie Octets
  pub header_enrichment : Ie Octets
  pub pfcpsmreq_flags : Ie ℕ
  pub linked_traffic_endpoint_id : Ie ℕ

-- duplicating_parameters and update_duplicating_parameters have the same members.
pub record DuplicatingParameters : Type 0 where
  pub destination_interface : Ie ℕ
  pub outer_header_creation : Ie OuterHeaderCreation
  pub transport_level_marking : Ie ℕ
  pub forwarding_policy : Ie Octets

pub record CreateFar : Type 0 where
  pub far_id : Ie ℕ
  pub apply_action : Ie ApplyAction
  pub forwarding_parameters : Ie ForwardingParameters
  pub duplicating_parameters : Ie DuplicatingParameters
  pub bar_id : Ie ℕ

pub record UpdateFar : Type 0 where
  pub far_id : ℕ
  pub apply_action : Ie ApplyAction
  pub update_forwarding_parameters : Ie UpdateForwardingParameters
  pub update_duplicating_parameters : Ie DuplicatingParameters
  pub bar_id : Ie ℕ
