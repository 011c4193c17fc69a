-- ===== src/Switch/Modification/Removal.antt =====
-- What is gone after a session is deleted (handle_pfcp_session_deletion_request, with
-- pfcp_session::cleanup).
use openair_cn_cups.Common.{
  ◌++◌, ℕ, ◌≡◌, refl, sym, ◌∙◌, subst, List, [], ◌∷◌, none, some, inl, inr, ◌==◌, ◌&&◌, true,
  if-both, eq-or_ne, Among,
}
use openair_cn_cups.Switch.HashMap.{HashMap, IsHashMap}
use openair_cn_cups.Switch.Far.{Packet, error_indication, access, core}
use openair_cn_cups.Switch.Pdr.{PfcpPdr}
use openair_cn_cups.Switch.Tables.{
  Switch, Config, pdr_at, get_pfcp_session_by_up_seid, call, notify_del_session,
}
use openair_cn_cups.Switch.Session.{clean_pdr, clean_pdrs, cleanup}
use openair_cn_cups.Switch.Requests.{no_fseid}
use openair_cn_cups.Switch.Modification.{
  session_at, remove_pfcp_session, handle_pfcp_session_deletion_request,
}
use openair_cn_cups.Switch.Forwarding.{pfcp_session_look_up_pack_in_access}
use openair_cn_cups.Switch.Validity.{IsValid}

-- A rule for packets from the access side in the tunnel.
pub record IsUplinkRule (pdr : PfcpPdr) (teid : ℕ) : Type 0 where
  pub has_pdi : pdr.pdi.0 ≡ true
  pub has_source : pdr.pdi.1.source_interface.0 ≡ true
  pub from_access : pdr.pdi.1.source_interface.1 ≡ access
  pub has_fteid : pdr.pdi.1.local_fteid.0 ≡ true
  pub in_tunnel : pdr.pdi.1.local_fteid.1.teid ≡ teid

module _ {folly : HashMap} (laws : IsHashMap folly) where
  abbrev HasNoRules : ℕ → Switch folly → Type 0
  HasNoRules teid sw = folly.find teid sw.ul_s1u_teid2pfcp_pdr ≡ none

  erase-HasNoRules :
      (teid k : ℕ) (m : folly.Map (List ℕ))
      → folly.find teid m ≡ none
      → folly.find teid (folly.erase k m) ≡ none
  erase-HasNoRules teid k m h = elim (eq-or_ne teid k) [
    | inl same ↦ subst (λ i. folly.find i (folly.erase k m) ≡ none) (sym same) (laws.find-erase k m)
    | inr ne ↦ laws.find-erase_ne teid k m ne ∙ h
  ]

  clean_pdr_keeps :
      (teid : ℕ) (pdr : PfcpPdr) (sw : Switch folly)
      → HasNoRules teid sw
      → HasNoRules teid (clean_pdr pdr sw)
  unfolding clean_pdr
  clean_pdr_keeps teid pdr sw h =
      let pdi = pdr.pdi.1 in
      let P = HasNoRules teid in
      if-both P (pdr.pdi.0 && pdi.source_interface.0)
        (if-both P (pdi.source_interface.1 == access)
          (if-both P pdi.local_fteid.0 (erase-HasNoRules teid _ sw.ul_s1u_teid2pfcp_pdr h) h)
          (if-both P (pdi.source_interface.1 == core)
            (if-both P (pdi.ue_ip_address.0 && pdi.ue_ip_address.1.v4) h h) h))
        h

  clean_pdrs_keeps :
      (teid : ℕ) (heap : List PfcpPdr) (ps : List ℕ) (sw : Switch folly)
      → HasNoRules teid sw
      → HasNoRules teid (clean_pdrs heap ps sw)
  unfolding clean_pdrs
  clean_pdrs_keeps teid heap [] sw h = h
  clean_pdrs_keeps teid heap (p ∷ ps) sw h =
      clean_pdrs_keeps teid heap ps (clean_pdr (pdr_at heap p) sw)
        (clean_pdr_keeps teid (pdr_at heap p) sw h)

  clean_pdr_removes :
      (teid : ℕ) (pdr : PfcpPdr) (sw : Switch folly)
      → IsUplinkRule pdr teid
      → HasNoRules teid (clean_pdr pdr sw)
  unfolding clean_pdr
  clean_pdr_removes teid pdr sw u =
      rw (u.has_pdi, u.has_source, u.from_access, u.has_fteid, u.in_tunnel)
        (laws.find-erase teid sw.ul_s1u_teid2pfcp_pdr)

  clean_pdrs_removes :
      (teid : ℕ) (heap : List PfcpPdr) (p : ℕ) (back : List ℕ)
      → IsUplinkRule (pdr_at heap p) teid
      → (front : List ℕ) (sw : Switch folly)
      → HasNoRules teid (clean_pdrs heap (front ++ (p ∷ back)) sw)
  unfolding clean_pdrs
  clean_pdrs_removes teid heap p back u [] sw =
      clean_pdrs_keeps teid heap back (clean_pdr (pdr_at heap p) sw)
        (clean_pdr_removes teid (pdr_at heap p) sw u)
  clean_pdrs_removes teid heap p back u (q ∷ front) sw =
      clean_pdrs_removes teid heap p back u front (clean_pdr (pdr_at heap q) sw)

  removal_forgets_tunnel :
      (sw : Switch folly) (ptr p teid : ℕ)
      → Among p (session_at sw.session_heap ptr).pdrs
      → IsUplinkRule (pdr_at sw.pdr_heap p) teid
      → HasNoRules teid (remove_pfcp_session ptr sw)
  unfolding remove_pfcp_session
  removal_forgets_tunnel sw ptr p teid (front, back, split) u =
      subst (λ ps. HasNoRules teid (clean_pdrs sw.pdr_heap ps sw)) (sym split)
        (clean_pdrs_removes teid sw.pdr_heap p back u front sw)

  removal_forgets_session :
      (sw : Switch folly) (ptr seid : ℕ)
      → (session_at sw.session_heap ptr).seid ≡ seid
      → folly.find seid (remove_pfcp_session ptr sw).up_seid2pfcp_sessions ≡ none
  unfolding remove_pfcp_session
  removal_forgets_session sw ptr seid same =
      let s = session_at sw.session_heap ptr in
      subst (λ i. folly.find i (remove_pfcp_session ptr sw).up_seid2pfcp_sessions ≡ none) same
        (laws.find-erase s.seid (cleanup s sw).1.up_seid2pfcp_sessions)

  without_rules :
      (cfg : Config) (sw : Switch folly) (iph : Packet) (r_endpoint teid : ℕ)
      → HasNoRules teid sw
      → pfcp_session_look_up_pack_in_access cfg sw iph r_endpoint teid
        ≡ (error_indication r_endpoint teid ∷ [])
  unfolding pfcp_session_look_up_pack_in_access
  without_rules cfg sw iph r_endpoint teid h = rw (pfcp_session_look_up_pack_in_access, h) refl

  -- After the deletion of a session that a valid switch knows, the identifier leads to no session,
  -- and a packet in a tunnel of one of its uplink rules is answered by an error indication alone.
  pub deletion_removes :
      (cfg : Config) (sw : Switch folly) (seid ptr p teid r_endpoint : ℕ) (iph : Packet)
      → IsValid sw
      → get_pfcp_session_by_up_seid sw seid ≡ some ptr
      → Among p (session_at sw.session_heap ptr).pdrs
      → IsUplinkRule (pdr_at sw.pdr_heap p) teid
      → (get_pfcp_session_by_up_seid (handle_pfcp_session_deletion_request seid sw).0 seid ≡ none)
        × (pfcp_session_look_up_pack_in_access cfg
              (handle_pfcp_session_deletion_request seid sw).0
              iph
              r_endpoint
              teid
            ≡ (error_indication r_endpoint teid ∷ []))
  unfolding handle_pfcp_session_deletion_request
  deletion_removes cfg sw seid ptr p teid r_endpoint iph v found among u =
      let after = call (notify_del_session no_fseid) (remove_pfcp_session ptr sw) in
      let same : after ≡ (handle_pfcp_session_deletion_request seid sw).0 =
        rw (handle_pfcp_session_deletion_request, found) refl in
      subst
        (λ (sw' : Switch folly).
          (get_pfcp_session_by_up_seid sw' seid ≡ none)
          × (pfcp_session_look_up_pack_in_access cfg sw' iph r_endpoint teid
              ≡ (error_indication r_endpoint teid ∷ [])))
        same
        (
          removal_forgets_session sw ptr seid (v.up seid ptr found).1,
          without_rules cfg after iph r_endpoint teid
              (removal_forgets_tunnel sw ptr p teid among u),
        )
