-- ===== src/Switch/Forwarding/Downlink.antt =====
-- How often the control plane is told of packets for an idle user (notify_cp_requested).
use openair_cn_cups.Common.{
  ◌==◌, All, ℕ, zero, suc, ◌+◌, ◌≤◌, ◌<◌, ◌≡◌, refl, ◌∙◌, ap, List, [], ◌∷◌, ◌++◌, inl, inr, true,
  false, Bool, if-both, Bool-cases, Option-cases, arith, length, set,
}
use openair_cn_cups.Switch.HashMap.{HashMap}
use openair_cn_cups.Switch.Far.{
  PfcpFar, Packet, Output, g_pdu_ipv4, g_pdu_ipv6, to_core, error_indication, session_report,
  apply_forwarding_rules,
}
use openair_cn_cups.Switch.Far.Actions.{
  Allowed, in_ipv4_tunnel, in_ipv6_tunnel, out_to_core, sends_what_is_Allowed,
}
use openair_cn_cups.Switch.Pdr.{PfcpPdr}
use openair_cn_cups.Switch.Validity.{IsValid}
use openair_cn_cups.Switch.Validity.Handlers.{downlink-IsValid}
use openair_cn_cups.Switch.Tables.{PfcpSession, Switch, Config, pdr_at}
use openair_cn_cups.Switch.Forwarding.{
  look_up_pack_in_core, pfcp_session_look_up_pack_in_core, match_core, rule_of, notify_cp_requested,
  apply_core,
}

abbrev one_if_idle : Bool → ℕ
one_if_idle true = 0
one_if_idle false = 1

-- The rules of the heap that have not reported yet.
abbrev pub unreported : List PfcpPdr → ℕ
unreported [] = 0
unreported (pdr ∷ heap) = one_if_idle pdr.notified_cp + unreported heap

abbrev is_report : Output → ℕ
is_report (session_report _ _) = 1
is_report (g_pdu_ipv4 _ _ _ _) = 0
is_report (g_pdu_ipv6 _ _ _ _) = 0
is_report (to_core _) = 0
is_report (error_indication _ _) = 0

abbrev pub reports : List Output → ℕ
reports [] = 0
reports (o ∷ os) = is_report o + reports os

reports-append : (os ps : List Output) → reports (os ++ ps) ≡ reports os + reports ps
reports-append [] ps = omega arith
reports-append (o ∷ os) ps = omega (arith, reports-append os ps)

report_uses_up :
    (heap : List PfcpPdr) (p : ℕ)
    → p < length heap
    → (pdr_at heap p).notified_cp ≡ false
    → unreported (set heap p (record (pdr_at heap p) { notified_cp = true })) + 1 ≡ unreported heap
unfolding pdr_at
report_uses_up [] p lt h = absurd (omega arith)
report_uses_up (q ∷ heap) zero lt h = rw h (omega arith)
report_uses_up (q ∷ heap) (suc p) lt h = omega (arith, report_uses_up heap p (omega arith) h)

Allowed-is_no_report :
    (port : ℕ) (far : PfcpFar) (iph : Packet) (o : Output)
    → Allowed port far iph o
    → is_report o ≡ 0
Allowed-is_no_report port far iph o (in_ipv4_tunnel _ _ _ _ _) = refl
Allowed-is_no_report port far iph o (in_ipv6_tunnel _ _ _ _ _) = refl
Allowed-is_no_report port far iph o (out_to_core _ _ _) = refl

forwarding_is_no_report :
    (port : ℕ) (far : PfcpFar) (iph : Packet)
    → reports (apply_forwarding_rules port far iph false false).sent ≡ 0
forwarding_is_no_report port far iph = elim (sends_what_is_Allowed port far iph false false) [
  | inl nothing ↦ ap reports nothing
  | inr (o, allowed, sent) ↦
      ap reports sent ∙ omega (arith, Allowed-is_no_report port far iph o allowed)
]

module _ {folly : HashMap} where
  -- What a step pays for: its reports, out of the rules that had not reported.
  abbrev Pays : Switch folly → Switch folly × List Output → Type 0
  Pays sw r = reports r.1 + unreported r.0.pdr_heap ≤ unreported sw.pdr_heap

  notify-Pays :
      (p : ℕ) (s : PfcpSession) (sw : Switch folly)
      → p < length sw.pdr_heap
      → Pays sw (notify_cp_requested p s sw)
  unfolding notify_cp_requested
  notify-Pays p s sw lt = elim (Bool-cases (pdr_at sw.pdr_heap p).notified_cp) [
    | inl done ↦ rw (notify_cp_requested, done) (omega arith)
    | inr idle ↦
        rw (notify_cp_requested, idle) (omega (arith, report_uses_up sw.pdr_heap p lt idle))
  ]

  apply_core-Pays :
      (cfg : Config) (sw : Switch folly) (iph : Packet) (p : ℕ)
      → p < length sw.pdr_heap
      → Pays sw (apply_core cfg sw iph p)
  unfolding apply_core
  apply_core-Pays cfg sw iph p lt = elim (Option-cases (rule_of sw (pdr_at sw.pdr_heap p))) [
    | inl e ↦ rw (apply_core, e) (omega arith)
    | inr ((s, far), e) ↦
        let applied = apply_forwarding_rules cfg.s1_up_port far iph false false in
        let notified = notify_cp_requested p s sw in
        rw (apply_core, e)
          (if-both (Pays sw) applied.nocp
            (omega (
              arith,
              reports-append applied.sent notified.1,
              forwarding_is_no_report cfg.s1_up_port far iph,
              notify-Pays p s sw lt,
            ))
            (omega (arith, forwarding_is_no_report cfg.s1_up_port far iph)))
  ]

  match_core-Pays :
      (cfg : Config) (sw : Switch folly) (iph : Packet) (ps : List ℕ)
      → All (λ p. p < length sw.pdr_heap) ps
      → Pays sw (match_core cfg sw iph ps)
  unfolding match_core
  match_core-Pays cfg sw iph [] h = omega arith
  match_core-Pays cfg sw iph (p ∷ ps) h =
      if-both (Pays sw) (look_up_pack_in_core (pdr_at sw.pdr_heap p) iph)
        (apply_core-Pays cfg sw iph p h.0) (match_core-Pays cfg sw iph ps h.1)

  downlink-Pays :
      (cfg : Config) (sw : Switch folly) (iph : Packet)
      → IsValid sw
      → Pays sw (pfcp_session_look_up_pack_in_core cfg sw iph)
  unfolding pfcp_session_look_up_pack_in_core
  downlink-Pays cfg sw iph v =
      if-both (Pays sw) (iph.version == 4)
        (elim (Option-cases (folly.find iph.daddr sw.ue_ipv4_hbo2pfcp_pdr)) [
          | inl e ↦ rw e (omega arith)
          | inr (ps, e) ↦ rw e (match_core-Pays cfg sw iph ps (v.dl iph.daddr ps e))
        ])
        (omega arith)

  -- The packets from the core, one after the other, with all that leaves the switch for them.
  unfoldable pub receive_all : Config → Switch folly → List Packet → Switch folly × List Output
  unfolding pfcp_session_look_up_pack_in_core
  receive_all cfg sw [] = (sw, [])
  receive_all cfg sw (iph ∷ iphs) =
      let r = pfcp_session_look_up_pack_in_core cfg sw iph in
      let rest = receive_all cfg r.0 iphs in (rest.0, r.1 ++ rest.1)

  -- However many packets come from the core, a valid switch sends at most one report to the control
  -- plane for each of its rules: at most as many as there are rules that have not reported, less
  -- those that have not reported afterwards.
  pub reports_bounded :
      (cfg : Config) (sw : Switch folly) (iphs : List Packet)
      → IsValid sw
      → reports (receive_all cfg sw iphs).1 + unreported (receive_all cfg sw iphs).0.pdr_heap
        ≤ unreported sw.pdr_heap
  unfolding receive_all
  reports_bounded cfg sw [] v = omega arith
  reports_bounded cfg sw (iph ∷ iphs) v =
      let r = pfcp_session_look_up_pack_in_core cfg sw iph in
      let rest = receive_all cfg r.0 iphs in
      omega (
        arith,
        reports-append r.1 rest.1,
        downlink-Pays cfg sw iph v,
        reports_bounded cfg r.0 iphs (downlink-IsValid cfg sw iph v),
      )
