-- ===== src/Switch/Modification.antt =====
-- pfcp_switch::handle_pfcp_session_modification_request, handle_pfcp_session_deletion_request and
-- remove_pfcp_session (src/spgwu/simpleswitch/pfcp_switch.cpp).
pub mod Removal
pub mod Returns
pub mod Effects
pub mod Removing
use openair_cn_cups.Common.{
  ℕ, not, List, [], ◌∷◌, Option, none, some, true, false, get_elem?, set, ◌==◌, if◌then◌else◌,
}
use openair_cn_cups.Pfcp.Fseid.{Fseid}
use openair_cn_cups.Switch.HashMap.{HashMap}
use openair_cn_cups.Switch.Ies.{Ie, UpdateFar, UpdatePdr}
use openair_cn_cups.Switch.Far.{PfcpFar}
use openair_cn_cups.Switch.Pdr.{PfcpPdr}
use openair_cn_cups.Switch.Tables.{
  PfcpSession, Switch, Config, notify_del_session, call, get_pfcp_session_by_up_seid, erase_fseid,
}
use openair_cn_cups.Switch.Session.{
  request_accepted, session_context_not_found, mandatory_ie_missing,
  rule_creation_modification_failure, cleanup, clean_pdrs, remove_far, remove_pdr, update_far,
  update_pdr,
}
use openair_cn_cups.Switch.Requests.{
  Made, ModificationRequest, Response, CreatedPdr, no_fseid, respond, or_zero, made, failed,
  set_unless_zero, create_fars, create_pdrs,
}
use openair_cn_cups.Switch.Establishment.{Outcome, done, no_free_uid}

-- The object that a pointer never points to.
abbrev pub no_session : PfcpSession
no_session = record { cp_fseid = no_fseid; seid = 0; pdrs = []; fars = [] }

unfoldable pub session_at : List PfcpSession → ℕ → PfcpSession
session_at heap p = elim (get_elem? heap p) [ some s ↦ s | none ↦ no_session ]

-- The local variables of the handler.
pub record Errors : Type 0 where
  pub cause : ℕ
  pub offending_ie : ℕ
  pub failed_rule_id : Ie (ℕ × ℕ)

abbrev pub no_errors : Errors
no_errors = record { cause = request_accepted; offending_ie = 0; failed_rule_id = (false, (0, 0)) }

-- A removal without identifier sets the cause, but only a rule that is not there ends the loop.
abbrev pub missing : ℕ → Errors → Errors
missing code e = record e { cause = mandatory_ie_missing; offending_ie = code }

abbrev pub unknown : ℕ → ℕ → Errors → Errors
unknown type id e = record e {
  cause = rule_creation_modification_failure;
  failed_rule_id = (true, (type, id));
}

-- The loop over remove_pdrs.
unfoldable pub remove_pdrs : List PfcpPdr → Errors → List ℕ → List (Ie ℕ) → Errors × List ℕ
unfolding remove_pdr
remove_pdrs heap e pdrs [] = (e, pdrs)
remove_pdrs heap e pdrs (r ∷ rs) =
    if r.0
    then elim (remove_pdr heap r.1 pdrs) [
      | none ↦ (unknown 0 r.1 e, pdrs)
      | some left ↦ remove_pdrs heap e left rs
    ]
    else remove_pdrs heap (missing 56 e) pdrs rs

-- The loop over remove_fars.
unfoldable pub remove_fars : Errors → List PfcpFar → List (Ie ℕ) → Errors × List PfcpFar
unfolding remove_far
remove_fars e fars [] = (e, fars)
remove_fars e fars (r ∷ rs) =
    if r.0
    then elim (remove_far r.1 fars) [
      | none ↦ (unknown 1 r.1 e, fars)
      | some left ↦ remove_fars e left rs
    ]
    else remove_fars (missing 108 e) fars rs

-- The loop over update_pdrs: the cause of a failure stays in a variable of the loop.
unfoldable pub update_pdrs :
    PfcpSession → Errors → List PfcpPdr → List UpdatePdr → Errors × List PfcpPdr
unfolding update_pdr
update_pdrs s e heap [] = (e, heap)
update_pdrs s e heap (u ∷ us) = elim (update_pdr heap u s) [
  | none ↦ update_pdrs s (record e { failed_rule_id = (true, (0, u.pdr_id)) }) heap us
  | some heap' ↦ update_pdrs s e heap' us
]

-- The loop over update_fars.
unfoldable pub update_fars : Errors → List PfcpFar → List UpdateFar → Errors × List PfcpFar
unfolding update_far
update_fars e fars [] = (e, fars)
update_fars e fars (u ∷ us) = elim (update_far u fars) [
  | none ↦ update_fars (unknown 1 u.far_id e) fars us
  | some fars' ↦ update_fars e fars' us
]

-- The answer of the handler.
abbrev pub modified : PfcpSession → List CreatedPdr → Errors → Response
modified s pdrs e = record (respond e.cause e.offending_ie) {
  seid = s.cp_fseid.seid;
  created_pdrs = pdrs;
  failed_rule_id = e.failed_rule_id;
}

-- `if (req->pfcp_ies.get(fseid)) session->cp_fseid = fseid;`
abbrev pub set_cp_fseid : Ie Fseid → PfcpSession → PfcpSession
set_cp_fseid fseid s = if fseid.0 then record s { cp_fseid = fseid.1 } else s

module _ {folly : HashMap} where
  -- The session at `p` holds what the handler made of it.
  abbrev pub store : ℕ → PfcpSession → Switch folly → Switch folly
  store p s sw = record sw { session_heap = set sw.session_heap p s }

  abbrev pub refuse :
      ℕ → Switch folly → PfcpSession → List CreatedPdr → Errors → ℕ → Option ℕ → Outcome folly
  refuse p sw s pdrs e cause offending =
      done (store p s sw)
        (modified s pdrs (record e { cause = cause; offending_ie = or_zero offending }))

  -- From the update_pdrs on.
  unfoldable pub update_rules :
      ModificationRequest
      → ℕ
      → Switch folly
      → PfcpSession
      → List CreatedPdr
      → Errors
      → Outcome folly
  unfolding update_pdrs update_fars
  update_rules req p sw s pdrs e =
      let after_pdrs = update_pdrs s e sw.pdr_heap req.update_pdrs in
      let after_fars = update_fars after_pdrs.0 s.fars req.update_fars in
      let s' = record s { fars = after_fars.1 } in
      done (store p s' (record sw { pdr_heap = after_pdrs.1 })) (modified s' pdrs after_fars.0)

  -- After the loop over create_pdrs.
  unfoldable pub after_pdrs : ModificationRequest → ℕ → Errors → Option (Made folly) → Outcome folly
  unfolding update_rules
  after_pdrs req p e none = no_free_uid
  after_pdrs req p e (some (failed sw s pdrs cause offending)) =
      refuse p sw s pdrs e cause offending
  after_pdrs req p e (some (made sw s pdrs)) = update_rules req p sw s pdrs e

  -- After the loop over create_fars.
  unfoldable pub after_fars : Config → ModificationRequest → ℕ → Errors → Made folly → Outcome folly
  unfolding create_pdrs after_pdrs
  after_fars cfg req p e (failed sw s pdrs cause offending) = refuse p sw s pdrs e cause offending
  after_fars cfg req p e (made sw s _) =
      after_pdrs req p e (create_pdrs cfg set_unless_zero req.create_fars sw s [] req.create_pdrs)

  -- The handler on the session at `p`, which takes the new control-plane identifier first.
  unfoldable pub modify_session :
      Config → ModificationRequest → Switch folly → ℕ → PfcpSession → Outcome folly
  unfolding remove_pdrs remove_fars create_fars after_fars
  modify_session cfg req sw p s =
      let removed_pdrs = remove_pdrs sw.pdr_heap no_errors s.pdrs req.remove_pdrs in
      let removed_fars = remove_fars removed_pdrs.0 s.fars req.remove_fars in
      let s1 = record s { pdrs = removed_pdrs.1 } in
      let s2 = record s1 { fars = removed_fars.1 } in
      if not (removed_pdrs.0.cause == request_accepted)
      then done (store p s1 sw) (modified s1 [] removed_pdrs.0)
      else if not (removed_fars.0.cause == request_accepted)
      then done (store p s2 sw) (modified s2 [] removed_fars.0)
      else after_fars cfg req p removed_fars.0 (create_fars sw s2 req.create_fars)

  unfoldable pub handle_pfcp_session_modification_request :
      Config → ℕ → ModificationRequest → Switch folly → Outcome folly
  unfolding modify_session session_at
  handle_pfcp_session_modification_request cfg seid req sw =
      elim (get_pfcp_session_by_up_seid sw seid) [
        | none ↦ done sw (respond session_context_not_found 0)
        | some p ↦
            modify_session cfg req sw p (set_cp_fseid req.cp_fseid (session_at sw.session_heap p))
      ]

  -- remove_pfcp_session(session), for the pointer `p`.
  unfoldable pub remove_pfcp_session : ℕ → Switch folly → Switch folly
  unfolding session_at clean_pdrs erase_fseid
  remove_pfcp_session p sw =
      let s = session_at sw.session_heap p in
      let cleaned = cleanup s sw in
      record (store p cleaned.0 cleaned.1) {
        cp_fseid2pfcp_sessions = erase_fseid s.cp_fseid cleaned.1.cp_fseid2pfcp_sessions;
        up_seid2pfcp_sessions = folly.erase s.seid cleaned.1.up_seid2pfcp_sessions;
      }

  -- `fseid` is never set in this handler: the associations are told of the zero identifier.
  unfoldable pub handle_pfcp_session_deletion_request : ℕ → Switch folly → Switch folly × Response
  unfolding session_at remove_pfcp_session
  handle_pfcp_session_deletion_request seid sw = elim (get_pfcp_session_by_up_seid sw seid) [
    | none ↦ (call (notify_del_session no_fseid) sw, respond session_context_not_found 0)
    | some p ↦ (
      call (notify_del_session no_fseid) (remove_pfcp_session p sw),
      record (respond request_accepted 0) { seid = (session_at sw.session_heap p).cp_fseid.seid },
    )
  ]
