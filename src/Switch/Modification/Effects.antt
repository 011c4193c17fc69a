-- ===== src/Switch/Modification/Effects.antt =====
-- What a modification that only updates PDRs answers
-- (handle_pfcp_session_modification_request, pfcp_session::update).
use openair_cn_cups.Common.{ℕ, ◌≡◌, refl, subst, List, [], ◌∷◌, Option, none, some, true}
use openair_cn_cups.Switch.HashMap.{HashMap}
use openair_cn_cups.Switch.Ies.{UpdatePdr}
use openair_cn_cups.Switch.Pdr.{PfcpPdr}
use openair_cn_cups.Switch.Tables.{PfcpSession, Switch, Config, get_pfcp_session_by_up_seid}
use openair_cn_cups.Switch.Session.{request_accepted, update_pdr}
use openair_cn_cups.Switch.Requests.{ModificationRequest, Response, create_fars, create_pdrs}
use openair_cn_cups.Switch.Establishment.{Outcome, done, use_after_delete, no_free_uid}
use openair_cn_cups.Switch.Modification.{
  session_at, Errors, no_errors, remove_pdrs, remove_fars, update_pdrs, update_fars, update_rules,
  after_pdrs, after_fars, modify_session, set_cp_fseid, handle_pfcp_session_modification_request,
}

update_step :
    (s : PfcpSession) (e : Errors) (heap : List PfcpPdr) (id : ℕ) (us : List UpdatePdr)
    → (o : Option (List PfcpPdr))
    → ((e' : Errors) (heap' : List PfcpPdr) → (update_pdrs s e' heap' us).0.cause ≡ e'.cause)
    → (elim o as (λ _. Errors × List PfcpPdr) [
      | none ↦ update_pdrs s (record e { failed_rule_id = (true, (0, id)) }) heap us
      | some heap' ↦ update_pdrs s e heap' us
    ]).0.cause
      ≡ e.cause
update_step s e heap id us none rest = rest _ heap
update_step s e heap id us (some heap') rest = rest e heap'

update_pdrs-cause :
    (s : PfcpSession) (e : Errors) (heap : List PfcpPdr) (us : List UpdatePdr)
    → (update_pdrs s e heap us).0.cause ≡ e.cause
unfolding update_pdrs
update_pdrs-cause s e heap [] = refl
update_pdrs-cause s e heap (u ∷ us) =
    update_step s e heap u.pdr_id us (update_pdr heap u s)
      (λ e' heap'. update_pdrs-cause s e' heap' us)

module _ {folly : HashMap} where
  abbrev Accepts : Outcome folly → Type 0
  Accepts (done _ r) = r.cause ≡ request_accepted
  Accepts use_after_delete = Unit
  Accepts no_free_uid = Unit

  -- A modification of a session that is there, which only updates PDRs, is answered with
  -- request_accepted, also where the session has none of them.
  pub pdr_updates_accepted :
      (cfg : Config) (seid p : ℕ) (req : ModificationRequest) (sw sw' : Switch folly)
      → (response : Response) → get_pfcp_session_by_up_seid sw seid ≡ some p
      → req.remove_pdrs ≡ []
      → req.remove_fars ≡ []
      → req.create_fars ≡ []
      → req.create_pdrs ≡ []
      → req.update_fars ≡ []
      → handle_pfcp_session_modification_request cfg seid req sw ≡ done sw' response
      → response.cause ≡ request_accepted
  unfolding handle_pfcp_session_modification_request modify_session after_fars after_pdrs
      create_fars create_pdrs update_rules update_fars remove_pdrs remove_fars
  pdr_updates_accepted cfg seid p req sw sw' response found rp rf cf cp uf e =
      let s = set_cp_fseid req.cp_fseid (session_at sw.session_heap p) in
      subst Accepts e (
        rw (handle_pfcp_session_modification_request, found, modify_session, rp, rf, cf, cp, uf)
          (update_pdrs-cause s no_errors sw.pdr_heap req.update_pdrs))
