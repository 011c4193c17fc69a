-- ===== src/Switch/Witnesses.antt =====
-- The theorems of the switch at the concrete switch of Scenario.
use openair_cn_cups.Common.{
  ℕ, ◌≤◌, ◌<◌, ◌≡◌, ◌≢◌, refl, List, [], ◌∷◌, ◌++◌, true, false, some, none, ◌⊎◌, All,
}
use openair_cn_cups.Switch.FunctionMap.{function_map, function_map-IsHashMap}
use openair_cn_cups.Switch.Ies.{UpdateFar, UpdateForwardingParameters, no_fteid, absent}
use openair_cn_cups.Switch.Far.{
  PfcpFar, Output, to_core, error_indication, g_pdu_ipv4, apply_forwarding_rules, of_create_far,
  update,
}
use openair_cn_cups.Switch.Far.Actions.{
  Allowed, out_to_core, sends_what_is_Allowed, sends_all-Allowed,
}
use openair_cn_cups.Switch.Far.Updates.{update_all, update_all_silent, update_moves_tunnel}
use openair_cn_cups.Switch.Pdr.{PfcpPdr, of_create_pdr, look_up_pack_in_access}
use openair_cn_cups.Switch.Tables.{PfcpSession, pdr_at, call, add_far, insert_sorted}
use openair_cn_cups.Switch.Tables.Precedence.{precedence_at, insert_sorted_lem}
use openair_cn_cups.Switch.Session.{created, refused, create_far, mandatory_ie_missing}
use openair_cn_cups.Switch.Session.Refusals.{IsComplete, IsMissing, create_far_decides}
use openair_cn_cups.Switch.Establishment.{
  use_after_delete, new_session, handle_pfcp_session_establishment_request,
}
use openair_cn_cups.Switch.Establishment.Safety.{never_uses_deleted_session}
use openair_cn_cups.Switch.Establishment.Registered.{IsRegistered, establishment_registers}
use openair_cn_cups.Switch.Modification.{session_at}
use openair_cn_cups.Switch.Forwarding.{rule_of, pfcp_session_look_up_pack_in_access}
use openair_cn_cups.Switch.Forwarding.Uplink.{IsForwarded, first_match_decides, uplink_is_screened}
use openair_cn_cups.Switch.Validity.{IsValid}
use openair_cn_cups.Switch.Validity.Reachable.{
  establishes, IsReachable, starts, steps, reachable-IsValid,
}
use openair_cn_cups.Switch.Scenario.{
  cfg, request, empty, established, from_user, to_user, response_of, far_to_core, far_idle,
  pdr_uplink, towards, no_header, no_duplication,
}

established-IsReachable : IsReachable cfg established
unfolding handle_pfcp_session_establishment_request established
established-IsReachable =
    steps empty established starts (establishes request empty established _ refl)

reachable-IsValid_example : IsValid established
reachable-IsValid_example =
    reachable-IsValid function_map-IsHashMap cfg established established-IsReachable

established-IsValid : IsValid established
established-IsValid =
    reachable-IsValid function_map-IsHashMap cfg established established-IsReachable

uplink_is_screened_example :
    ((function_map.find 1 established.ul_s1u_teid2pfcp_pdr ≡ none)
      × (pfcp_session_look_up_pack_in_access cfg established from_user 9 1
          ≡ (error_indication 9 1 ∷ [])))
    ⊎ ((pdrs : List ℕ) × (function_map.find 1 established.ul_s1u_teid2pfcp_pdr ≡ some pdrs)
        × ((pfcp_session_look_up_pack_in_access cfg established from_user 9 1 ≡ [])
            ⊎ ((o : Output) × IsForwarded cfg established from_user 1 pdrs o
                × (pfcp_session_look_up_pack_in_access cfg established from_user 9 1 ≡ (o ∷ [])))))
uplink_is_screened_example = uplink_is_screened cfg established from_user 9 1

abbrev session : PfcpSession
session = session_at established.session_heap 0

abbrev far : PfcpFar
far = of_create_far far_to_core

first_match_decides_example :
    pfcp_session_look_up_pack_in_access cfg established from_user 9 1
    ≡ (apply_forwarding_rules 2152 far from_user false false).sent
unfolding established rule_of look_up_pack_in_access pdr_at session_at
first_match_decides_example =
    first_match_decides cfg established from_user 9 1 [] 0 [] session far refl tt refl refl

never_uses_deleted_session_example :
    handle_pfcp_session_establishment_request cfg request empty ≢ use_after_delete
never_uses_deleted_session_example = never_uses_deleted_session cfg request empty

empty-IsValid : IsValid empty
empty-IsValid = reachable-IsValid function_map-IsHashMap cfg empty starts

establishment_registers_example :
    IsRegistered request
      (response_of (handle_pfcp_session_establishment_request cfg request empty)).up_fseid.1.seid
      established
unfolding handle_pfcp_session_establishment_request established
establishment_registers_example =
    establishment_registers function_map-IsHashMap cfg request empty established
      (response_of (handle_pfcp_session_establishment_request cfg request empty)) empty-IsValid refl
      refl

sends_what_is_Allowed_example :
    ((apply_forwarding_rules 2152 far from_user false false).sent ≡ [])
    ⊎ ((o : Output) × Allowed 2152 far from_user o
        × ((apply_forwarding_rules 2152 far from_user false false).sent ≡ (o ∷ [])))
sends_what_is_Allowed_example = sends_what_is_Allowed 2152 far from_user false false

sends_all-Allowed_example :
    (apply_forwarding_rules 2152 far from_user false false).sent ≡ (to_core from_user ∷ [])
sends_all-Allowed_example =
    sends_all-Allowed 2152 far from_user false false (to_core from_user)
      (out_to_core refl refl refl)

-- The rule of the uplink with a precedence.
abbrev with_precedence : ℕ → PfcpPdr
with_precedence n = record (of_create_pdr pdr_uplink) { precedence = (true, n) }

abbrev heap : List PfcpPdr
heap = with_precedence 30 ∷ with_precedence 10 ∷ with_precedence 20 ∷ []

insert_sorted_lem_example :
    (All (λ q. precedence_at heap 2 ≤ precedence_at heap q) (0 ∷ 1 ∷ [])
      × (insert_sorted heap 2 (0 ∷ 1 ∷ []) ≡ (0 ∷ 1 ∷ [])))
    ⊎ ((front : List ℕ) × (q : ℕ) × (back : List ℕ) × ((0 ∷ 1 ∷ []) ≡ front ++ (q ∷ back))
        × All (λ r. precedence_at heap 2 ≤ precedence_at heap r) front
        × (precedence_at heap q < precedence_at heap 2)
        × (insert_sorted heap 2 (0 ∷ 1 ∷ []) ≡ front ++ (2 ∷ (q ∷ back))))
insert_sorted_lem_example = insert_sorted_lem heap 2 (0 ∷ 1 ∷ [])

-- What takes the user out of idle mode: forward, in a GTP-U tunnel over IPv4.
abbrev new_parameters : UpdateForwardingParameters
new_parameters = record {
  destination_interface = (false, 0);
  network_instance = absent;
  outer_header_creation = (
    true,
    record no_header {
      outer_header_creation_description = 256;
      teid = 7;
      ipv4_address = 167772165;
    },
  );
  transport_level_marking = (false, 0);
  forwarding_policy = absent;
  header_enrichment = absent;
  pfcpsmreq_flags = (false, 0);
  linked_traffic_endpoint_id = (false, 0);
}

abbrev wake_up : UpdateFar
wake_up = record {
  far_id = 2;
  apply_action = (true, far.apply_action);
  update_forwarding_parameters =
      (true, record new_parameters { destination_interface = (true, 0) });
  update_duplicating_parameters = (false, no_duplication);
  bar_id = (false, 0);
}

update_all_silent_example :
    (apply_forwarding_rules 2152
      (update_all (wake_up ∷ []) (of_create_far far_idle))
      to_user
      false
      false).sent
    ≡ []
update_all_silent_example =
    update_all_silent 2152 (wake_up ∷ []) (of_create_far far_idle) to_user false false refl

abbrev far_to_access : PfcpFar
far_to_access = record far { forwarding_parameters = (true, towards 0) }

abbrev handover : UpdateFar
handover = record wake_up {
  apply_action = (false, far.apply_action);
  update_forwarding_parameters = (true, new_parameters);
}

update_moves_tunnel_example :
    (apply_forwarding_rules 2152 (update handover far_to_access) to_user false false).sent
    ≡ (g_pdu_ipv4 167772165 2152 7 to_user ∷ [])
update_moves_tunnel_example =
    update_moves_tunnel 2152 handover far_to_access to_user false false refl refl refl refl refl
      refl refl refl

abbrev new : PfcpSession
new = new_session request 1

create_far_decides_example :
    (IsComplete far_to_core
      × (create_far empty new far_to_core
          ≡ created (call (add_far 1 far) empty) (record new { fars = far ∷ [] }) no_fteid))
    ⊎ ((IsComplete far_to_core → ⊥)
        × ((code : ℕ) × IsMissing far_to_core code
            × (create_far empty new far_to_core ≡ refused empty mandatory_ie_missing (some code))))
create_far_decides_example = create_far_decides empty new far_to_core
