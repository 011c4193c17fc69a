-- ===== src/Switch/Modification/Removing.antt =====
-- What a modification that only removes PDRs leaves as it is
-- (handle_pfcp_session_modification_request, pfcp_session::remove).
use openair_cn_cups.Switch.Pdr.{PfcpPdr}
use openair_cn_cups.Switch.Validity.Sessions.{session_at-set}
use openair_cn_cups.Switch.Validity.{IsValid}
use openair_cn_cups.Common.{
  ◌∷◌, some, ◌<◌, length, All, ==_iff, ==_ne, ◌≢◌, ◌++◌, true, ap, ◌∙◌, Option-cases, inl, inr, ℕ,
  ◌≡◌, refl, subst, List, [], ◌==◌, false, not, if-both, set,
}
use openair_cn_cups.Switch.HashMap.{HashMap}
use openair_cn_cups.Switch.Far.{Packet}
use openair_cn_cups.Switch.Tables.{pdr_at, PfcpSession, Switch, Config, get_pfcp_session_by_up_seid}
use openair_cn_cups.Switch.Session.{remove_pdr, request_accepted}
use openair_cn_cups.Switch.Requests.{ModificationRequest, Response, create_fars, create_pdrs}
use openair_cn_cups.Switch.Establishment.{Outcome, done, use_after_delete, no_free_uid}
use openair_cn_cups.Switch.Modification.{
  store, session_at, no_errors, remove_pdrs, remove_fars, update_pdrs, update_fars, update_rules,
  after_pdrs, after_fars, modify_session, handle_pfcp_session_modification_request,
}
use openair_cn_cups.Switch.Forwarding.Sessions.{Serves, session_at-Serves, access-same, core-same}
use openair_cn_cups.Switch.Forwarding.{
  pfcp_session_look_up_pack_in_access, pfcp_session_look_up_pack_in_core,
}

-- The first rule with the identifier is the one that is removed.
remove_pdr_lem :
    (heap : List PfcpPdr) (pdr_id q : ℕ) (back : List ℕ)
    → (pdr_at heap q).pdr_id ≡ pdr_id
    → (front : List ℕ) → All (λ r. (pdr_at heap r).pdr_id ≢ pdr_id) front
    → remove_pdr heap pdr_id (front ++ (q ∷ back)) ≡ some (front ++ back)
unfolding remove_pdr
remove_pdr_lem heap pdr_id q back this [] others = rw ((==_iff _ _).1 this) refl
remove_pdr_lem heap pdr_id q back this (r ∷ rs) others =
    rw (==_ne _ _ others.0, remove_pdr_lem heap pdr_id q back this rs others.1) refl

module _ {folly : HashMap} where
  -- Nothing but the heap of the sessions is other than in `sw`, and that serves packets as before.
  abbrev Kept : Switch folly → Switch folly → Type 0
  Kept sw sw' =
      (heap : List PfcpSession) × (sw' ≡ record sw { session_heap = heap })
      × ((q : ℕ) → Serves (session_at heap q) (session_at sw.session_heap q))

  abbrev Keeps : Switch folly → Outcome folly → Type 0
  Keeps sw (done sw' _) = Kept sw sw'
  Keeps sw use_after_delete = Unit
  Keeps sw no_free_uid = Unit

  stored-Kept :
      (sw : Switch folly) (p : ℕ) (s : PfcpSession)
      → Serves s (session_at sw.session_heap p)
      → Kept sw (store p s sw)
  stored-Kept sw p s h =
      (set sw.session_heap p s, refl, λ q. session_at-Serves sw.session_heap p q s h)

  modify_session-Keeps :
      (cfg : Config) (req : ModificationRequest) (sw : Switch folly) (p : ℕ) (s : PfcpSession)
      → Serves s (session_at sw.session_heap p)
      → req.remove_fars ≡ []
      → req.create_fars ≡ []
      → req.create_pdrs ≡ []
      → req.update_pdrs ≡ []
      → req.update_fars ≡ []
      → Keeps sw (modify_session cfg req sw p s)
  unfolding modify_session after_fars after_pdrs create_fars create_pdrs update_rules remove_fars
      update_pdrs update_fars
  modify_session-Keeps cfg req sw p s h rf cf cp up uf =
      let pdrs = remove_pdrs sw.pdr_heap no_errors s.pdrs req.remove_pdrs in
      let refused = not (pdrs.0.cause == request_accepted) in
      if-both (Keeps sw) refused (stored-Kept sw p _ h) (
        rw (rf, cf, cp, up, uf)
          (if-both (Keeps sw) refused (stored-Kept sw p _ h) (stored-Kept sw p _ h)))

  handle-Keeps :
      (cfg : Config) (seid : ℕ) (req : ModificationRequest) (sw : Switch folly)
      → req.cp_fseid.0 ≡ false
      → req.remove_fars ≡ []
      → req.create_fars ≡ []
      → req.create_pdrs ≡ []
      → req.update_pdrs ≡ []
      → req.update_fars ≡ []
      → Keeps sw (handle_pfcp_session_modification_request cfg seid req sw)
  unfolding handle_pfcp_session_modification_request
  handle-Keeps cfg seid req sw id rf cf cp up uf =
      elim (Option-cases (get_pfcp_session_by_up_seid sw seid)) [
        | inl absent ↦
            rw (handle_pfcp_session_modification_request, absent)
              (sw.session_heap, refl, λ q. (refl, refl))
        | inr (p, found) ↦
            rw (handle_pfcp_session_modification_request, found)
              (modify_session-Keeps cfg req sw p _ (rw id (refl, refl)) rf cf cp up uf)
      ]

  -- The session at `p` is left with these rules, and the answer accepts.
  abbrev Removes : ℕ → List ℕ → Outcome folly → Type 0
  Removes p pdrs (done sw' response) =
      (response.cause ≡ request_accepted) × ((session_at sw'.session_heap p).pdrs ≡ pdrs)
  Removes p pdrs use_after_delete = Unit
  Removes p pdrs no_free_uid = Unit

  modify_session-Removes :
      (cfg : Config) (req : ModificationRequest) (sw : Switch folly) (p pdr_id : ℕ)
      → (s : PfcpSession) (left : List ℕ) → p < length sw.session_heap
      → remove_pdr sw.pdr_heap pdr_id s.pdrs ≡ some left
      → req.remove_pdrs ≡ (true, pdr_id) ∷ []
      → req.remove_fars ≡ []
      → req.create_fars ≡ []
      → req.create_pdrs ≡ []
      → req.update_pdrs ≡ []
      → req.update_fars ≡ []
      → Removes p left (modify_session cfg req sw p s)
  unfolding modify_session after_fars after_pdrs create_fars create_pdrs update_rules remove_fars
      update_pdrs update_fars remove_pdrs
  modify_session-Removes cfg req sw p pdr_id s left lt removed rp rf cf cp up uf =
      rw (modify_session, rp, removed, rf, cf, cp, up, uf)
        (refl, ap (λ (t : PfcpSession). t.pdrs) (session_at-set sw.session_heap p _ lt))

  -- In a valid switch, a modification that does nothing but remove one PDR, which the session has,
  -- is accepted and takes the rule out of the session, but changes nothing for packets: what the
  -- switch sends for any packet from the access side, and from the core, is what it sent before, so
  -- that the rule goes on to match and to forward.
  pub removed_rules_forward :
      (cfg : Config) (seid p pdr_id q : ℕ) (front back : List ℕ) (req : ModificationRequest)
      → (sw sw' : Switch folly) (response : Response) (iph : Packet) (r_endpoint tunnel_id : ℕ)
      → IsValid sw
      → get_pfcp_session_by_up_seid sw seid ≡ some p
      → (session_at sw.session_heap p).pdrs ≡ front ++ (q ∷ back)
      → All (λ r. (pdr_at sw.pdr_heap r).pdr_id ≢ pdr_id) front
      → (pdr_at sw.pdr_heap q).pdr_id ≡ pdr_id
      → req.remove_pdrs ≡ (true, pdr_id) ∷ []
      → req.cp_fseid.0 ≡ false
      → req.remove_fars ≡ []
      → req.create_fars ≡ []
      → req.create_pdrs ≡ []
      → req.update_pdrs ≡ []
      → req.update_fars ≡ []
      → handle_pfcp_session_modification_request cfg seid req sw ≡ done sw' response
      → (response.cause ≡ request_accepted)
        × ((session_at sw'.session_heap p).pdrs ≡ front ++ back)
        × (pfcp_session_look_up_pack_in_access cfg sw' iph r_endpoint tunnel_id
            ≡ pfcp_session_look_up_pack_in_access cfg sw iph r_endpoint tunnel_id)
        × ((pfcp_session_look_up_pack_in_core cfg sw' iph).1
            ≡ (pfcp_session_look_up_pack_in_core cfg sw iph).1)
  unfolding handle_pfcp_session_modification_request
  removed_rules_forward cfg seid p pdr_id q front back req sw sw' response iph r_endpoint tunnel_id
        v found pdrs others this rp id rf cf cp up uf e =
      let (heap, same, serves) =
        subst (Keeps sw) e (handle-Keeps cfg seid req sw id rf cf cp up uf) in
      let removed : remove_pdr sw.pdr_heap pdr_id (session_at sw.session_heap p).pdrs
          ≡ some (front ++ back) =
        rw pdrs (remove_pdr_lem sw.pdr_heap pdr_id q back this front others) in
      let (accepted, left) = subst (Removes p (front ++ back)) e (
        rw (handle_pfcp_session_modification_request, found, id)
          (modify_session-Removes cfg req sw p pdr_id (session_at sw.session_heap p) (front ++ back)
            (v.up seid p found).0 removed rp rf cf cp up uf)) in
      (
        accepted,
        left,
        ap (λ t. pfcp_session_look_up_pack_in_access cfg t iph r_endpoint tunnel_id) same
            ∙ access-same sw heap serves cfg iph r_endpoint tunnel_id,
        ap (λ t. (pfcp_session_look_up_pack_in_core cfg t iph).1) same
            ∙ core-same sw heap serves cfg iph,
      )
