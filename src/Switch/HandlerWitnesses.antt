-- ===== src/Switch/HandlerWitnesses.antt =====
-- The theorems on the handlers of requests at the concrete switch of Scenario.
use openair_cn_cups.Common.{arith, ◌+◌, ◌≤◌, ◌≡◌, refl, [], ◌∷◌, true, false, some, none, Option}
use openair_cn_cups.Pfcp.Fteid.{Fteid}
use openair_cn_cups.Switch.FunctionMap.{function_map, function_map-IsHashMap}
use openair_cn_cups.Switch.Ies.{no_fteid, no_pdi}
use openair_cn_cups.Switch.Far.{error_indication}
use openair_cn_cups.Switch.Tables.{Switch, PfcpSession, pdr_at, get_pfcp_session_by_up_seid}
use openair_cn_cups.Switch.Session.{Created, created, refused, create_uplink, request_accepted}
use openair_cn_cups.Switch.Session.Tunnels.{IsOwnTunnel, uplink_gets-IsOwnTunnel}
use openair_cn_cups.Switch.Requests.{Response, ModificationRequest}
use openair_cn_cups.Switch.Establishment.{
  done, new_session, handle_pfcp_session_establishment_request,
}
use openair_cn_cups.Switch.Modification.{
  session_at, handle_pfcp_session_modification_request, handle_pfcp_session_deletion_request,
}
use openair_cn_cups.Switch.Modification.Removal.{deletion_removes}
use openair_cn_cups.Switch.Modification.Effects.{pdr_updates_accepted}
use openair_cn_cups.Switch.Modification.Removing.{removed_rules_forward}
use openair_cn_cups.Switch.Forwarding.{
  pfcp_session_look_up_pack_in_access, pfcp_session_look_up_pack_in_core,
}
use openair_cn_cups.Switch.Forwarding.Downlink.{unreported, reports, receive_all, reports_bounded}
use openair_cn_cups.Switch.Validity.{IsValid}
use openair_cn_cups.Switch.Validity.Reachable.{establishes, starts, steps, reachable-IsValid}
use openair_cn_cups.Switch.Scenario.{
  cfg, request, empty, established, from_user, to_user, no_modification, response_of, state_of,
  pdr_uplink,
}
use openair_cn_cups.Switch.Modification.Returns.{modification_returns}
use openair_cn_cups.Switch.Establishment.Returns.{establishment_returns}

empty-IsValid : IsValid empty
empty-IsValid = reachable-IsValid function_map-IsHashMap cfg empty starts

established-IsValid : IsValid established
unfolding handle_pfcp_session_establishment_request established
established-IsValid =
    reachable-IsValid function_map-IsHashMap cfg established
      (steps empty established starts (establishes request empty established _ refl))

abbrev new : PfcpSession
new = new_session request 1

-- What create_uplink made of the rule of the uplink.
abbrev made : Option (Created function_map)
made = create_uplink cfg empty new pdr_uplink

abbrev switch_of : Option (Created function_map) → Switch function_map
switch_of none = empty
switch_of (some (created sw _ _)) = sw
switch_of (some (refused sw _ _)) = sw

abbrev session_of : Option (Created function_map) → PfcpSession
session_of none = new
session_of (some (created _ s _)) = s
session_of (some (refused _ _ _)) = new

abbrev fteid_of : Option (Created function_map) → Fteid
fteid_of none = no_fteid
fteid_of (some (created _ _ fteid)) = fteid
fteid_of (some (refused _ _ _)) = no_fteid

uplink_gets-IsOwnTunnel_example : IsOwnTunnel empty new pdr_uplink (switch_of made) (fteid_of made)
unfolding create_uplink
uplink_gets-IsOwnTunnel_example =
    uplink_gets-IsOwnTunnel function_map-IsHashMap cfg empty (switch_of made) new (session_of made)
      pdr_uplink (fteid_of made) empty-IsValid refl

abbrev after_deletion : Switch function_map
after_deletion = (handle_pfcp_session_deletion_request 1 established).0

deletion_removes_example :
    (get_pfcp_session_by_up_seid after_deletion 1 ≡ none)
    × (pfcp_session_look_up_pack_in_access cfg after_deletion from_user 9 1
        ≡ (error_indication 9 1 ∷ []))
unfolding established session_at pdr_at
deletion_removes_example =
    deletion_removes function_map-IsHashMap cfg established 1 0 0 1 9 from_user established-IsValid
      refl ([], 1 ∷ [], refl)
      (record {
        has_pdi = refl;
        has_source = refl;
        from_access = refl;
        has_fteid = refl;
        in_tunnel = refl;
      })

abbrev removing : ModificationRequest
removing = record no_modification { remove_pdrs = (true, 1) ∷ [] }

abbrev after_removal : Switch function_map
after_removal = state_of (handle_pfcp_session_modification_request cfg 1 removing established)

removed_rules_forward_example :
    ((response_of (handle_pfcp_session_modification_request cfg 1 removing established)).cause
      ≡ request_accepted)
    × ((session_at after_removal.session_heap 0).pdrs ≡ 1 ∷ [])
    × (pfcp_session_look_up_pack_in_access cfg after_removal from_user 9 1
        ≡ pfcp_session_look_up_pack_in_access cfg established from_user 9 1)
    × ((pfcp_session_look_up_pack_in_core cfg after_removal from_user).1
        ≡ (pfcp_session_look_up_pack_in_core cfg established from_user).1)
unfolding handle_pfcp_session_modification_request established session_at pdr_at
removed_rules_forward_example =
    removed_rules_forward cfg 1 0 1 0 [] (1 ∷ []) removing established after_removal
      (response_of (handle_pfcp_session_modification_request cfg 1 removing established)) from_user
      9 1 established-IsValid refl refl tt refl refl refl refl refl refl refl refl refl

-- An update of a rule that the session does not have.
abbrev updating : ModificationRequest
updating = record no_modification {
  update_pdrs =
      record {
        pdr_id = 77;
        outer_header_removal = (false, 0);
        precedence = (true, 5);
        pdi = (false, no_pdi);
        far_id = (false, 0);
        urr_id = (false, 0);
        qer_id = (false, 0);
      }
      ∷ [];
}

pdr_updates_accepted_example :
    (response_of (handle_pfcp_session_modification_request cfg 1 updating established)).cause
    ≡ request_accepted
unfolding handle_pfcp_session_modification_request established
pdr_updates_accepted_example =
    pdr_updates_accepted cfg 1 0 updating established
      (state_of (handle_pfcp_session_modification_request cfg 1 updating established))
      (response_of (handle_pfcp_session_modification_request cfg 1 updating established)) refl refl
      refl refl refl refl refl

reports_bounded_example :
    reports (receive_all cfg established (to_user ∷ to_user ∷ [])).1
      + unreported (receive_all cfg established (to_user ∷ to_user ∷ [])).0.pdr_heap
    ≤ unreported established.pdr_heap
reports_bounded_example =
    reports_bounded cfg established (to_user ∷ to_user ∷ []) established-IsValid

establishment_returns_example :
    (sw' : Switch function_map) × (response : Response) × (handle_pfcp_session_establishment_request
        cfg request empty
      ≡ done sw' response)
establishment_returns_example = establishment_returns cfg request empty (omega arith) (omega arith)

modification_returns_example :
    (sw' : Switch function_map) × (response : Response) × (handle_pfcp_session_modification_request
        cfg 1 no_modification established
      ≡ done sw' response)
unfolding handle_pfcp_session_establishment_request established
modification_returns_example = modification_returns cfg 1 no_modification established (omega arith)
