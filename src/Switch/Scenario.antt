-- ===== src/Switch/Scenario.antt =====
-- A concrete switch: one session, with a rule from the access side to the core and one for packets
-- to a user who is idle.
use openair_cn_cups.Common.{ℕ, [], ◌∷◌, true, false}
use openair_cn_cups.Pfcp.Fseid.{Fseid}
use openair_cn_cups.Pfcp.ApplyAction.{ApplyAction}
use openair_cn_cups.Pfcp.OuterHeaderCreation.{OuterHeaderCreation}
use openair_cn_cups.Switch.FunctionMap.{function_map}
use openair_cn_cups.Switch.Ies.{
  absent, no_fteid, no_ue_ip_address, no_pdi, CreateFar, CreatePdr, ForwardingParameters,
  DuplicatingParameters,
}
use openair_cn_cups.Switch.Far.{Packet}
use openair_cn_cups.Switch.Tables.{Switch, Config, initial}
use openair_cn_cups.Switch.Requests.{EstablishmentRequest, ModificationRequest, Response, respond}
use openair_cn_cups.Switch.Establishment.{
  Outcome, done, use_after_delete, no_free_uid, handle_pfcp_session_establishment_request,
}

abbrev pub cfg : Config
cfg = record {
  s1_up_addr4 = 167772161;
  s1_up_addr6 = 0;
  s1_up_port = 2152;
  sx_fseid = record { v4 = true; v6 = false; seid = 0; ipv4_address = 167772162; ipv6_address = 0 };
}

abbrev pub forwarding : ApplyAction
forwarding = record { drop = false; forw = true; buff = false; nocp = false; dupl = false }

abbrev pub notifying : ApplyAction
notifying = record { drop = false; forw = false; buff = true; nocp = true; dupl = false }

abbrev pub no_header : OuterHeaderCreation
no_header = record {
  outer_header_creation_description = 0;
  teid = 0;
  ipv4_address = 0;
  ipv6_address = 0;
  port_number = 0;
}

abbrev pub no_duplication : DuplicatingParameters
no_duplication = record {
  destination_interface = (false, 0);
  outer_header_creation = (false, no_header);
  transport_level_marking = (false, 0);
  forwarding_policy = absent;
}

-- Parameters that name an interface and no more.
abbrev pub towards : ℕ → ForwardingParameters
towards interface = record {
  destination_interface = (true, interface);
  network_instance = absent;
  redirect_information = absent;
  outer_header_creation = (false, no_header);
  transport_level_marking = (false, 0);
  forwarding_policy = absent;
  header_enrichment = absent;
  linked_traffic_endpoint_id = (false, 0);
  proxying = absent;
}

abbrev pub far_to_core : CreateFar
far_to_core = record {
  far_id = (true, 1);
  apply_action = (true, forwarding);
  forwarding_parameters = (true, towards 1);
  duplicating_parameters = (false, no_duplication);
  bar_id = (false, 0);
}

abbrev pub far_idle : CreateFar
far_idle = record far_to_core {
  far_id = (true, 2);
  apply_action = (true, notifying);
  forwarding_parameters = (false, towards 0);
}

abbrev pub pdr_uplink : CreatePdr
pdr_uplink = record {
  pdr_id = (true, 1);
  precedence = (true, 10);
  pdi = (
    true,
    record no_pdi {
      source_interface = (true, 0);
      local_fteid = (true, record no_fteid { v4 = true; ch = true });
      ue_ip_address = (true, record no_ue_ip_address { v4 = true; ipv4_address = 184549377 });
    },
  );
  outer_header_removal = (true, 0);
  far_id = (true, 1);
  urr_id = (false, 0);
  qer_id = (false, 0);
  activate_predefined_rules = absent;
}

abbrev pub pdr_downlink : CreatePdr
pdr_downlink = record pdr_uplink {
  pdr_id = (true, 2);
  pdi = (
    true,
    record no_pdi {
      source_interface = (true, 1);
      ue_ip_address = (true, record no_ue_ip_address { v4 = true; ipv4_address = 184549377 });
    },
  );
  outer_header_removal = (false, 0);
  far_id = (true, 2);
}

abbrev pub cp_fseid : Fseid
cp_fseid = record { v4 = true; v6 = false; seid = 500; ipv4_address = 167772163; ipv6_address = 0 }

abbrev pub request : EstablishmentRequest
request = record {
  node_id = (true, 10 ∷ 0 ∷ 0 ∷ 3 ∷ []);
  cp_fseid = (true, cp_fseid);
  create_pdrs = pdr_uplink ∷ pdr_downlink ∷ [];
  create_fars = far_to_core ∷ far_idle ∷ [];
}

abbrev pub state_of : Outcome function_map → Switch function_map
state_of (done sw _) = sw
state_of use_after_delete = initial
state_of no_free_uid = initial

abbrev pub response_of : Outcome function_map → Response
response_of (done _ response) = response
response_of use_after_delete = respond 0 0
response_of no_free_uid = respond 0 0

abbrev pub empty : Switch function_map
empty = initial

unfoldable pub established : Switch function_map
unfolding handle_pfcp_session_establishment_request
established = state_of (handle_pfcp_session_establishment_request cfg request empty)

-- A packet of the user to the core, and one of the core to the user.
abbrev pub from_user : Packet
from_user = record { version = 4; saddr = 184549377; daddr = 134744072; bytes = 69 ∷ [] }

abbrev pub to_user : Packet
to_user = record { version = 4; saddr = 134744072; daddr = 184549377; bytes = 69 ∷ [] }

abbrev pub no_modification : ModificationRequest
no_modification = record {
  cp_fseid = (false, cp_fseid);
  remove_pdrs = [];
  remove_fars = [];
  create_pdrs = [];
  create_fars = [];
  update_pdrs = [];
  update_fars = [];
}
