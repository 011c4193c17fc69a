-- ===== src/Switch/Validity/Handlers.antt =====
-- The handlers of modification and deletion, and the downlink, keep the switch valid.
use openair_cn_cups.Switch.Pdr.{look_up_pack_in_core}
use openair_cn_cups.Switch.Far.{Packet, Output}
use openair_cn_cups.Switch.Validity.Rules.{call-IsValid}
use openair_cn_cups.Switch.Forwarding.{
  rule_of, notify_cp_requested, apply_core, match_core, pfcp_session_look_up_pack_in_core,
}
use openair_cn_cups.Common.{
  length-set, ◌∷◌, List, sym, subst, ℕ, ◌≡◌, refl, [], Option, none, some, inl, inr, ◌==◌, not,
  if-both, Option-cases,
}
use openair_cn_cups.Pfcp.Fseid.{Fseid}
use openair_cn_cups.Switch.HashMap.{HashMap, IsHashMap}
use openair_cn_cups.Switch.Ies.{Ie}
use openair_cn_cups.Switch.Tables.{pdr_at, PfcpSession, Switch, Config, get_pfcp_session_by_up_seid}
use openair_cn_cups.Switch.Session.{cleanup, request_accepted}
use openair_cn_cups.Switch.Requests.{ModificationRequest, Made, made, failed, set_unless_zero}
use openair_cn_cups.Switch.Modification.{
  remove_pfcp_session, handle_pfcp_session_deletion_request, session_at, store, Errors, remove_pdrs,
  remove_fars, no_errors, after_pdrs, after_fars, modify_session, set_cp_fseid,
  handle_pfcp_session_modification_request,
}
use openair_cn_cups.Switch.Validity.{IsValid, Within}
use openair_cn_cups.Switch.Validity.Creation.{
  Progress, OnMade, OnMade?, create_fars-Progress, create_pdrs-Progress,
}
use openair_cn_cups.Switch.Validity.Sessions.{
  erase_fseid-All, remove_up-IsValid, clean_pdrs-IsValid, clean_pdrs-session_heap, session_at-All,
  store-IsValid,
}
use openair_cn_cups.Switch.Validity.Establishing.{LeavesValid}
use openair_cn_cups.Switch.Validity.Modifying.{
  pdr_heap-IsValid, at_p, update_rules-LeavesValid, remove_pdrs-All,
}

module _ {folly : HashMap} (laws : IsHashMap folly) where
  refuse-LeavesValid :
      (p : ℕ) (sw0 : Switch folly) (s0 : PfcpSession) (sw : Switch folly) (s : PfcpSession)
      → Progress sw0 s0 sw s
      → s0.seid ≡ (session_at sw0.session_heap p).seid
      → IsValid (store p s sw)
  refuse-LeavesValid p sw0 s0 sw s w same =
      store-IsValid p s sw (at_p p sw0 s0 sw s w same) w.pointers w.valid

  after_pdrs-LeavesValid :
      (req : ModificationRequest) (p : ℕ) (e : Errors) (sw0 : Switch folly) (s0 : PfcpSession)
      → (m : Option (Made folly)) → OnMade? sw0 s0 m
      → s0.seid ≡ (session_at sw0.session_heap p).seid
      → LeavesValid (after_pdrs req p e m)
  unfolding after_pdrs
  after_pdrs-LeavesValid req p e sw0 s0 none w same = tt
  after_pdrs-LeavesValid req p e sw0 s0 (some (failed sw s pdrs cause offending)) w same =
      refuse-LeavesValid p sw0 s0 sw s w same
  after_pdrs-LeavesValid req p e sw0 s0 (some (made sw s pdrs)) w same =
      update_rules-LeavesValid req p sw0 s0 sw s pdrs e w same

  after_fars-LeavesValid :
      (cfg : Config) (req : ModificationRequest) (p : ℕ) (e : Errors)
      → (sw0 : Switch folly) (s0 : PfcpSession) (m : Made folly) → OnMade sw0 s0 m
      → s0.seid ≡ (session_at sw0.session_heap p).seid
      → LeavesValid (after_fars cfg req p e m)
  unfolding after_fars
  after_fars-LeavesValid cfg req p e sw0 s0 (failed sw s pdrs cause offending) w same =
      refuse-LeavesValid p sw0 s0 sw s w same
  after_fars-LeavesValid cfg req p e sw0 s0 (made sw s _) w same =
      after_pdrs-LeavesValid req p e sw0 s0 _
        (create_pdrs-Progress laws cfg set_unless_zero req.create_fars sw s [] req.create_pdrs w)
        same

  modify_session-LeavesValid :
      (cfg : Config) (req : ModificationRequest) (sw : Switch folly) (p : ℕ) (s : PfcpSession)
      → s.seid ≡ (session_at sw.session_heap p).seid
      → Within sw.pdr_heap s.pdrs
      → IsValid sw
      → LeavesValid (modify_session cfg req sw p s)
  unfolding modify_session
  modify_session-LeavesValid cfg req sw p s same within v =
      let pdrs = remove_pdrs sw.pdr_heap no_errors s.pdrs req.remove_pdrs in
      let fars = remove_fars pdrs.0 s.fars req.remove_fars in
      let s1 : PfcpSession = record s { pdrs = pdrs.1 } in
      let s2 : PfcpSession = record s1 { fars = fars.1 } in
      let kept = remove_pdrs-All _ sw.pdr_heap no_errors s.pdrs req.remove_pdrs within in
      let start : Progress sw s2 sw s2 = record {
        valid = v;
        pointers = kept;
        same_seid = refl;
        same_cp_fseid = refl;
        same_sessions = refl;
        same_up = refl;
        same_cp = refl;
        same_seids = refl;
      } in
      if-both LeavesValid (not (pdrs.0.cause == request_accepted))
        (store-IsValid p s1 sw same kept v)
        (if-both LeavesValid (not (fars.0.cause == request_accepted))
          (store-IsValid p s2 sw same kept v)
          (after_fars-LeavesValid cfg req p fars.0 sw s2 _
            (create_fars-Progress sw s2 req.create_fars start) same))

  set_cp_fseid-seid : (fseid : Ie Fseid) (s : PfcpSession) → (set_cp_fseid fseid s).seid ≡ s.seid
  set_cp_fseid-seid fseid s = if-both (λ (t : PfcpSession). t.seid ≡ s.seid) fseid.0 refl refl

  -- The modification handler keeps the switch valid, whatever the request.
  pub modification-IsValid :
      (cfg : Config) (seid : ℕ) (req : ModificationRequest) (sw : Switch folly)
      → IsValid sw
      → LeavesValid (handle_pfcp_session_modification_request cfg seid req sw)
  unfolding handle_pfcp_session_modification_request
  modification-IsValid cfg seid req sw v =
      elim (Option-cases (get_pfcp_session_by_up_seid sw seid)) [
        | inl e ↦ rw (handle_pfcp_session_modification_request, e) v
        | inr (p, e) ↦
            let s = session_at sw.session_heap p in
            let s' = set_cp_fseid req.cp_fseid s in
            let (lt, _, _) = v.up seid p e in
            rw (handle_pfcp_session_modification_request, e)
              (modify_session-LeavesValid cfg req sw p s' (set_cp_fseid-seid req.cp_fseid s)
                (if-both (λ (t : PfcpSession). Within sw.pdr_heap t.pdrs) req.cp_fseid.0
                  (session_at-All _ sw.session_heap p lt v.sessions)
                  (session_at-All _ sw.session_heap p lt v.sessions))
                v)
      ]

  remove_pfcp_session-IsValid :
      (p : ℕ) (sw : Switch folly) → IsValid sw → IsValid (remove_pfcp_session p sw)
  unfolding remove_pfcp_session
  remove_pfcp_session-IsValid p sw v =
      let s = session_at sw.session_heap p in
      let cleaned = cleanup s sw in
      let same =
        subst (λ h. s.seid ≡ (session_at h p).seid)
          (sym (clean_pdrs-session_heap sw.pdr_heap s.pdrs sw)) refl in
      let stored =
        store-IsValid p cleaned.0 cleaned.1 same tt
          (clean_pdrs-IsValid laws sw.pdr_heap s.pdrs sw v) in
      let removed = remove_up-IsValid laws s.seid (store p cleaned.0 cleaned.1) stored in
      record {
        up = removed.up;
        ul = removed.ul;
        dl = removed.dl;
        sessions = removed.sessions;
        cp = erase_fseid-All _ s.cp_fseid cleaned.1.cp_fseid2pfcp_sessions removed.cp;
      }

  -- The deletion handler keeps the switch valid.
  pub deletion-IsValid :
      (seid : ℕ) (sw : Switch folly)
      → IsValid sw
      → IsValid (handle_pfcp_session_deletion_request seid sw).0
  unfolding handle_pfcp_session_deletion_request
  deletion-IsValid seid sw v = elim (Option-cases (get_pfcp_session_by_up_seid sw seid)) [
    | inl e ↦ rw (handle_pfcp_session_deletion_request, e) (call-IsValid _ sw v)
    | inr (p, e) ↦
        rw (handle_pfcp_session_deletion_request, e)
          (call-IsValid _ _ (remove_pfcp_session-IsValid p sw v))
  ]

module _ {folly : HashMap} where
  notify-IsValid :
      (p : ℕ) (s : PfcpSession) (sw : Switch folly)
      → IsValid sw
      → IsValid (notify_cp_requested p s sw).0
  unfolding notify_cp_requested
  notify-IsValid p s sw v =
      if-both (λ (r : Switch folly × List Output). IsValid r.0) (pdr_at sw.pdr_heap p).notified_cp v
        (pdr_heap-IsValid _ sw (length-set sw.pdr_heap p _) v)

  apply_core-IsValid :
      (cfg : Config) (sw : Switch folly) (iph : Packet) (p : ℕ)
      → IsValid sw
      → IsValid (apply_core cfg sw iph p).0
  unfolding apply_core
  apply_core-IsValid cfg sw iph p v = elim (Option-cases (rule_of sw (pdr_at sw.pdr_heap p))) [
    | inl e ↦ rw (apply_core, e) v
    | inr ((s, far), e) ↦
        rw (apply_core, e)
          (if-both (λ (r : Switch folly × List Output). IsValid r.0) _ (notify-IsValid p s sw v) v)
  ]

  match_core-IsValid :
      (cfg : Config) (sw : Switch folly) (iph : Packet) (ps : List ℕ)
      → IsValid sw
      → IsValid (match_core cfg sw iph ps).0
  unfolding match_core
  match_core-IsValid cfg sw iph [] v = v
  match_core-IsValid cfg sw iph (p ∷ ps) v =
      if-both (λ (r : Switch folly × List Output). IsValid r.0)
        (look_up_pack_in_core (pdr_at sw.pdr_heap p) iph) (apply_core-IsValid cfg sw iph p v)
        (match_core-IsValid cfg sw iph ps v)

  -- A packet from the core keeps the switch valid.
  pub downlink-IsValid :
      (cfg : Config) (sw : Switch folly) (iph : Packet)
      → IsValid sw
      → IsValid (pfcp_session_look_up_pack_in_core cfg sw iph).0
  unfolding pfcp_session_look_up_pack_in_core
  downlink-IsValid cfg sw iph v =
      if-both (λ (r : Switch folly × List Output). IsValid r.0) (iph.version == 4)
        (elim (Option-cases (folly.find iph.daddr sw.ue_ipv4_hbo2pfcp_pdr)) [
          | inl e ↦ rw e v
          | inr (ps, e) ↦ rw e (match_core-IsValid cfg sw iph ps v)
        ])
        v
