-- ===== src/Switch/Forwarding/Sessions.antt =====
-- What packets need of the sessions: their action rules, and the identifiers that reports go to
-- (pfcp_session_look_up_pack_in_access, pfcp_session_look_up_pack_in_core).
use openair_cn_cups.Common.{
  Option-cases, inl, inr, ℕ, zero, suc, ◌≡◌, refl, sym, ap, ap₂, ◌∙◌, Bool, Bool-cases, subst, List,
  [], ◌∷◌, Option, none, some, ◌==◌, true, false, set, if◌then◌else◌, ◌++◌,
}
use openair_cn_cups.Pfcp.Fseid.{Fseid}
use openair_cn_cups.Switch.HashMap.{HashMap}
use openair_cn_cups.Switch.Far.{PfcpFar, Packet, Output, session_report, apply_forwarding_rules}
use openair_cn_cups.Switch.Pdr.{PfcpPdr, look_up_pack_in_access, look_up_pack_in_core}
use openair_cn_cups.Switch.Tables.{PfcpSession, Switch, Config, pdr_at, get_pfcp_session_by_up_seid}
use openair_cn_cups.Switch.Session.{get_far}
use openair_cn_cups.Switch.Modification.{session_at}
use openair_cn_cups.Switch.Forwarding.{
  rule_of, match_access, match_core, apply_core, notify_cp_requested,
  pfcp_session_look_up_pack_in_access, pfcp_session_look_up_pack_in_core,
}

-- What packets need of a session.
abbrev pub Serves : PfcpSession → PfcpSession → Type 0
Serves s' s = (s'.fars ≡ s.fars) × (s'.cp_fseid ≡ s.cp_fseid)

pub session_at-Serves :
    (heap : List PfcpSession) (p q : ℕ) (s : PfcpSession)
    → Serves s (session_at heap p)
    → Serves (session_at (set heap p s) q) (session_at heap q)
unfolding session_at
session_at-Serves [] p q s h = (refl, refl)
session_at-Serves (x ∷ heap) zero zero s h = h
session_at-Serves (x ∷ heap) zero (suc q) s h = (refl, refl)
session_at-Serves (x ∷ heap) (suc p) zero s h = (refl, refl)
session_at-Serves (x ∷ heap) (suc p) (suc q) s h = session_at-Serves heap p q s h

-- The session and the action rule found for a rule, before and after.
abbrev SameRule : Option (PfcpSession × PfcpFar) → Option (PfcpSession × PfcpFar) → Type 0
SameRule none none = Unit
SameRule (some (s', far')) (some (s, far)) = (far' ≡ far) × (s'.cp_fseid ≡ s.cp_fseid)
SameRule _ _ = ⊥

found-SameRule :
    (s' s : PfcpSession) (o : Option PfcpFar)
    → s'.cp_fseid ≡ s.cp_fseid
    → SameRule
        (elim o [ none ↦ none | some far ↦ some (s', far) ])
        (elim o [ none ↦ none | some far ↦ some (s, far) ])
found-SameRule s' s none same = tt
found-SameRule s' s (some far) same = (refl, same)

far-SameRule :
    (b : Bool) (far_id : ℕ) (s' s : PfcpSession)
    → Serves s' s
    → SameRule
        (if b
          then elim (get_far far_id s'.fars) [ none ↦ none | some far ↦ some (s', far) ]
          else none)
        (if b
          then elim (get_far far_id s.fars) [ none ↦ none | some far ↦ some (s, far) ]
          else none)
far-SameRule false far_id s' s h = tt
far-SameRule true far_id s' s h =
    subst
      (λ fars.
        SameRule (elim (get_far far_id fars) [ none ↦ none | some far ↦ some (s', far) ])
          (elim (get_far far_id s.fars) [ none ↦ none | some far ↦ some (s, far) ]))
      (sym h.0) (found-SameRule s' s (get_far far_id s.fars) h.1)

-- What leaves the switch for a packet that a rule matches, by what is found for the rule.
access_out : Config → Packet → Option (PfcpSession × PfcpFar) → List Output
access_out cfg iph none = []
access_out cfg iph (some (_, far)) =
    (apply_forwarding_rules cfg.s1_up_port far iph false false).sent

core_far : Config → Packet → PfcpPdr → Fseid → PfcpFar → List Output
core_far cfg iph pdr cp_fseid far =
    let applied = apply_forwarding_rules cfg.s1_up_port far iph false false in
    let reported = if pdr.notified_cp then [] else session_report cp_fseid pdr.pdr_id ∷ [] in
    if applied.nocp then applied.sent ++ reported else applied.sent

core_out : Config → Packet → PfcpPdr → Option (PfcpSession × PfcpFar) → List Output
core_out cfg iph pdr none = []
core_out cfg iph pdr (some (s, far)) = core_far cfg iph pdr s.cp_fseid far

access_out-SameRule :
    (cfg : Config) (iph : Packet) (r' r : Option (PfcpSession × PfcpFar))
    → SameRule r' r
    → access_out cfg iph r' ≡ access_out cfg iph r
unfolding access_out
access_out-SameRule cfg iph none none h = refl
access_out-SameRule cfg iph none (some _) h = absurd h
access_out-SameRule cfg iph (some _) none h = absurd h
access_out-SameRule cfg iph (some (s', far')) (some (s, far)) h =
    ap (λ (f : PfcpFar). (apply_forwarding_rules cfg.s1_up_port f iph false false).sent) h.0

core_out-SameRule :
    (cfg : Config) (iph : Packet) (pdr : PfcpPdr) (r' r : Option (PfcpSession × PfcpFar))
    → SameRule r' r
    → core_out cfg iph pdr r' ≡ core_out cfg iph pdr r
unfolding core_out
core_out-SameRule cfg iph pdr none none h = refl
core_out-SameRule cfg iph pdr none (some _) h = absurd h
core_out-SameRule cfg iph pdr (some _) none h = absurd h
core_out-SameRule cfg iph pdr (some (s', far')) (some (s, far)) h =
    ap₂ (λ (i : Fseid) (f : PfcpFar). core_far cfg iph pdr i f) h.1 h.0

module _ {folly : HashMap} where
  match_access-out :
      (cfg : Config) (sw : Switch folly) (iph : Packet) (tunnel_id p : ℕ) (ps : List ℕ)
      → match_access cfg sw iph tunnel_id (p ∷ ps) ≡ (
          if look_up_pack_in_access (pdr_at sw.pdr_heap p) iph tunnel_id
          then access_out cfg iph (rule_of sw (pdr_at sw.pdr_heap p))
          else match_access cfg sw iph tunnel_id ps)
  unfolding match_access access_out
  match_access-out cfg sw iph tunnel_id p ps =
      elim (Option-cases (rule_of sw (pdr_at sw.pdr_heap p))) [
        | inl e ↦ rw e refl
        | inr (_, e) ↦ rw e refl
      ]

  apply_core-out :
      (cfg : Config) (sw : Switch folly) (iph : Packet) (p : ℕ)
      → (apply_core cfg sw iph p).1
        ≡ core_out cfg iph (pdr_at sw.pdr_heap p) (rule_of sw (pdr_at sw.pdr_heap p))
  unfolding apply_core core_out core_far notify_cp_requested
  apply_core-out cfg sw iph p =
      let pdr = pdr_at sw.pdr_heap p in
      elim (Option-cases (rule_of sw pdr)) [
        | inl e ↦ rw (apply_core, e) refl
        | inr ((s, far), e) ↦
            let applied = apply_forwarding_rules cfg.s1_up_port far iph false false in
            rw (apply_core, e)
              (elim (Bool-cases applied.nocp) [
                | inr f ↦ rw f refl
                | inl t ↦ elim (Bool-cases pdr.notified_cp) [
                  | inl n ↦ rw (t, n) refl
                  | inr n ↦ rw (t, n) refl
                ]
              ])
      ]

module _ {folly : HashMap} (sw : Switch folly) (heap : List PfcpSession)
    (serves : (q : ℕ) → Serves (session_at heap q) (session_at sw.session_heap q)) where
  abbrev after : Switch folly
  after = record sw { session_heap = heap }

  rule_of-SameRule : (pdr : PfcpPdr) → SameRule (rule_of after pdr) (rule_of sw pdr)
  unfolding rule_of
  rule_of-SameRule pdr = elim (Option-cases (get_pfcp_session_by_up_seid sw pdr.local_seid)) [
    | inl e ↦ rw (rule_of, e) tt
    | inr (p, e) ↦
        rw (rule_of, e)
          (far-SameRule pdr.far_id.0 pdr.far_id.1 (session_at heap p) (session_at sw.session_heap p)
            (serves p))
  ]

  match_access-same :
      (cfg : Config) (iph : Packet) (tunnel_id : ℕ) (ps : List ℕ)
      → match_access cfg after iph tunnel_id ps ≡ match_access cfg sw iph tunnel_id ps
  unfolding match_access
  match_access-same cfg iph tunnel_id [] = refl
  match_access-same cfg iph tunnel_id (p ∷ ps) =
      let pdr = pdr_at sw.pdr_heap p in
      match_access-out cfg after iph tunnel_id p ps
      ∙ ap₂ (λ (x y : List Output). if look_up_pack_in_access pdr iph tunnel_id then x else y)
          (access_out-SameRule cfg iph _ _ (rule_of-SameRule pdr))
          (match_access-same cfg iph tunnel_id ps)
      ∙ sym (match_access-out cfg sw iph tunnel_id p ps)

  match_core-same :
      (cfg : Config) (iph : Packet) (ps : List ℕ)
      → (match_core cfg after iph ps).1 ≡ (match_core cfg sw iph ps).1
  unfolding match_core
  match_core-same cfg iph [] = refl
  match_core-same cfg iph (p ∷ ps) =
      let pdr = pdr_at sw.pdr_heap p in
      let same : (apply_core cfg after iph p).1 ≡ (apply_core cfg sw iph p).1 =
        apply_core-out cfg after iph p
        ∙ core_out-SameRule cfg iph pdr _ _ (rule_of-SameRule pdr)
        ∙ sym (apply_core-out cfg sw iph p) in
      elim (Bool-cases (look_up_pack_in_core pdr iph)) [
        | inl hit ↦ rw hit same
        | inr miss ↦ rw miss (match_core-same cfg iph ps)
      ]

  -- Packets fare as before.
  pub access-same :
      (cfg : Config) (iph : Packet) (r_endpoint tunnel_id : ℕ)
      → pfcp_session_look_up_pack_in_access cfg after iph r_endpoint tunnel_id
        ≡ pfcp_session_look_up_pack_in_access cfg sw iph r_endpoint tunnel_id
  unfolding pfcp_session_look_up_pack_in_access
  access-same cfg iph r_endpoint tunnel_id =
      elim (Option-cases (folly.find tunnel_id sw.ul_s1u_teid2pfcp_pdr)) [
        | inl e ↦ rw (pfcp_session_look_up_pack_in_access, e) refl
        | inr (ps, e) ↦
            rw (pfcp_session_look_up_pack_in_access, e) (match_access-same cfg iph tunnel_id ps)
      ]

  pub core-same :
      (cfg : Config) (iph : Packet)
      → (pfcp_session_look_up_pack_in_core cfg after iph).1
        ≡ (pfcp_session_look_up_pack_in_core cfg sw iph).1
  unfolding pfcp_session_look_up_pack_in_core
  core-same cfg iph = elim (Bool-cases (iph.version == 4)) [
    | inr f ↦ rw f refl
    | inl t ↦ elim (Option-cases (folly.find iph.daddr sw.ue_ipv4_hbo2pfcp_pdr)) [
      | inl e ↦ rw (t, e) refl
      | inr (ps, e) ↦ rw (t, e) (match_core-same cfg iph ps)
    ]
  ]
