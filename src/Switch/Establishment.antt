-- ===== src/Switch/Establishment.antt =====
-- pfcp_switch::handle_pfcp_session_establishment_request (src/spgwu/simpleswitch/pfcp_switch.cpp).
pub mod Safety
pub mod Returns
pub mod Registered
use openair_cn_cups.Common.{
  ℕ, not, List, [], ◌∷◌, ◌++◌, Option, none, some, true, length, ◌==◌, if◌then◌else◌,
}
use openair_cn_cups.Switch.HashMap.{HashMap}
use openair_cn_cups.Switch.Tables.{
  PfcpSession, Switch, Config, create_session, notify_add_session, call,
  get_pfcp_session_by_cp_fseid, add_pfcp_session_by_cp_fseid, add_pfcp_session_by_up_seid,
  generate_seid,
}
use openair_cn_cups.Switch.Session.{
  request_accepted, request_rejected, mandatory_ie_missing, cleanup, clean_pdrs,
}
use openair_cn_cups.Switch.Requests.{
  Made, EstablishmentRequest, Response, CreatedPdr, respond, or_zero, made, failed, always_set,
  create_fars, create_pdrs,
}

-- How a handler ends: it returns; it goes on with a session it has deleted; or the loop of get_uid
-- finds no identifier and does not end.
pub data Outcome (folly : HashMap) : Type 0 where
  done : Switch folly → Response → Outcome folly
  use_after_delete : Outcome folly
  no_free_uid : Outcome folly

abbrev pub new_session : EstablishmentRequest → ℕ → PfcpSession
new_session req seid = record { cp_fseid = req.cp_fseid.1; seid = seid; pdrs = []; fars = [] }

module _ {folly : HashMap} where
  -- A refusal: the session is cleaned up and deleted, and the loop left. The code then asks whether
  -- the cause is still request_accepted, and if so goes on with the session.
  unfoldable pub abandon :
      Switch folly → PfcpSession → List CreatedPdr → ℕ → Option ℕ → Outcome folly
  unfolding clean_pdrs
  abandon sw s pdrs cause offending =
      if cause == request_accepted
      then use_after_delete
      else done (cleanup s sw).1
          (record (respond cause (or_zero offending)) { created_pdrs = pdrs })

  -- The session is put in both tables, and announced to the association of its node.
  unfoldable pub register :
      Config → EstablishmentRequest → Switch folly → PfcpSession → List CreatedPdr → Outcome folly
  unfolding add_pfcp_session_by_cp_fseid add_pfcp_session_by_up_seid
  register cfg req sw s pdrs =
      let p = length sw.session_heap in
      let sw1 = record sw { session_heap = sw.session_heap ++ (s ∷ []) } in
      let sw2 = add_pfcp_session_by_cp_fseid req.cp_fseid.1 p sw1 in
      let sw3 = add_pfcp_session_by_up_seid s.seid p sw2 in
      done (call (notify_add_session req.node_id.1 req.cp_fseid.1) sw3)
        (record (respond request_accepted 0) {
          created_pdrs = pdrs;
          up_fseid = (true, record cfg.sx_fseid { seid = s.seid });
        })

  -- After the loop over create_pdrs.
  unfoldable pub after_pdrs : Config → EstablishmentRequest → Option (Made folly) → Outcome folly
  unfolding abandon register
  after_pdrs cfg req none = no_free_uid
  after_pdrs cfg req (some (failed sw s pdrs cause offending)) = abandon sw s pdrs cause offending
  after_pdrs cfg req (some (made sw s pdrs)) = register cfg req sw s pdrs

  -- After the loop over create_fars.
  unfoldable pub after_fars : Config → EstablishmentRequest → Made folly → Outcome folly
  unfolding create_pdrs abandon after_pdrs
  after_fars cfg req (failed sw s pdrs cause offending) = abandon sw s pdrs cause offending
  after_fars cfg req (made sw s _) =
      after_pdrs cfg req (create_pdrs cfg always_set req.create_fars sw s [] req.create_pdrs)

  -- After generate_seid.
  unfoldable pub after_seid :
      Config → EstablishmentRequest → Option (ℕ × Switch folly) → Outcome folly
  unfolding create_fars after_fars
  after_seid cfg req none = no_free_uid
  after_seid cfg req (some (seid, sw)) =
      after_fars cfg req
        (create_fars (call (create_session seid) sw) (new_session req seid) req.create_fars)

  unfoldable pub handle_pfcp_session_establishment_request :
      Config → EstablishmentRequest → Switch folly → Outcome folly
  unfolding generate_seid after_seid
  handle_pfcp_session_establishment_request cfg req sw =
      if not req.cp_fseid.0
      then done sw (respond mandatory_ie_missing 57)
      else elim (get_pfcp_session_by_cp_fseid sw req.cp_fseid.1) [
        | some _ ↦ done sw (respond request_rejected 0)
        | none ↦ after_seid cfg req (generate_seid sw)
      ]
