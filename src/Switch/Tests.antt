-- ===== src/Switch/Tests.antt =====
-- Runs of the switch, and its theorems at the concrete switch of Scenario.
use openair_cn_cups.Common.{◌≡◌, refl, [], ◌∷◌, true}
use openair_cn_cups.Switch.Far.{to_core, session_report, error_indication}
use openair_cn_cups.Switch.Modification.{
  handle_pfcp_session_modification_request, handle_pfcp_session_deletion_request,
}
use openair_cn_cups.Switch.Forwarding.{pfcp_session_look_up_pack_in_access}
use openair_cn_cups.Switch.Forwarding.Downlink.{receive_all}
use openair_cn_cups.Switch.Establishment.{handle_pfcp_session_establishment_request}
use openair_cn_cups.Switch.Scenario.{
  cfg, request, empty, established, from_user, to_user, no_modification, cp_fseid, response_of,
  state_of,
}

accepted : (response_of (handle_pfcp_session_establishment_request cfg request empty)).cause ≡ 1
unfolding handle_pfcp_session_establishment_request
accepted = refl

-- The packet of the user reaches the core; with another source address it does not; in another
-- tunnel it is answered by an error indication.
forwards :
    pfcp_session_look_up_pack_in_access cfg established from_user 9 1 ≡ (to_core from_user ∷ [])
unfolding pfcp_session_look_up_pack_in_access established
forwards = refl

drops_spoofed :
    pfcp_session_look_up_pack_in_access cfg established (record from_user { saddr = 3 }) 9 1 ≡ []
unfolding pfcp_session_look_up_pack_in_access established
drops_spoofed = refl

-- Of two packets to the user the first is reported.
reports_once :
    (receive_all cfg established (to_user ∷ to_user ∷ [])).1 ≡ (session_report cp_fseid 2 ∷ [])
unfolding receive_all established
reports_once = refl

-- The same session again is rejected.
rejected :
    (response_of (handle_pfcp_session_establishment_request cfg request established)).cause ≡ 64
unfolding handle_pfcp_session_establishment_request established
rejected = refl

-- The rule is removed from the session and goes on to forward.
removed_still_forwards :
    pfcp_session_look_up_pack_in_access cfg
      (state_of (
        handle_pfcp_session_modification_request cfg 1
          (record no_modification { remove_pdrs = (true, 1) ∷ [] })
          established))
      from_user
      9
      1
    ≡ (to_core from_user ∷ [])
unfolding pfcp_session_look_up_pack_in_access handle_pfcp_session_modification_request established
removed_still_forwards = refl

deleted :
    pfcp_session_look_up_pack_in_access cfg
      (handle_pfcp_session_deletion_request 1 established).0
      from_user
      9
      1
    ≡ (error_indication 9 1 ∷ [])
unfolding pfcp_session_look_up_pack_in_access handle_pfcp_session_deletion_request established
deleted = refl
