-- ===== src/Switch/Forwarding.antt =====
-- pfcp_switch::pfcp_session_look_up_pack_in_access and pfcp_session_look_up_pack_in_core
-- (src/spgwu/simpleswitch/pfcp_switch.cpp), with pfcp_pdr::notify_cp_requested. Packets of IPv6 are
-- dropped by both.
pub mod Uplink
pub mod Downlink
pub mod Sessions
use openair_cn_cups.Common.{
  ℕ, List, [], ◌∷◌, ◌++◌, Option, none, some, true, false, set, ◌==◌, if◌then◌else◌,
}
use openair_cn_cups.Switch.HashMap.{HashMap}
use openair_cn_cups.Switch.Far.{
  PfcpFar, Packet, Output, error_indication, session_report, apply_forwarding_rules,
}
use openair_cn_cups.Switch.Pdr.{PfcpPdr, look_up_pack_in_access, look_up_pack_in_core}
use openair_cn_cups.Switch.Tables.{PfcpSession, Switch, Config, pdr_at, get_pfcp_session_by_up_seid}
use openair_cn_cups.Switch.Session.{get_far}
use openair_cn_cups.Switch.Modification.{session_at}

module _ {folly : HashMap} where
  -- The session of a rule and the action rule that it names, if both are there.
  unfoldable pub rule_of : Switch folly → PfcpPdr → Option (PfcpSession × PfcpFar)
  unfolding session_at get_far
  rule_of sw pdr = elim (get_pfcp_session_by_up_seid sw pdr.local_seid) [
    | none ↦ none
    | some p ↦
        if pdr.far_id.0
        then elim (get_far pdr.far_id.1 (session_at sw.session_heap p).fars) [
          | none ↦ none
          | some far ↦ some (session_at sw.session_heap p, far)
        ]
        else none
  ]

  -- The loop over the rules of a tunnel: the first that matches decides.
  unfoldable pub match_access : Config → Switch folly → Packet → ℕ → List ℕ → List Output
  unfolding pdr_at look_up_pack_in_access rule_of apply_forwarding_rules
  match_access cfg sw iph tunnel_id [] = []
  match_access cfg sw iph tunnel_id (p ∷ ps) =
      let rest = match_access cfg sw iph tunnel_id ps in
      if look_up_pack_in_access (pdr_at sw.pdr_heap p) iph tunnel_id
      then elim (rule_of sw (pdr_at sw.pdr_heap p)) [
        | none ↦ []
        | some (_, far) ↦ (apply_forwarding_rules cfg.s1_up_port far iph false false).sent
      ]
      else rest

  unfoldable pub pfcp_session_look_up_pack_in_access :
      Config → Switch folly → Packet → ℕ → ℕ → List Output
  unfolding match_access
  pfcp_session_look_up_pack_in_access cfg sw iph r_endpoint tunnel_id =
      elim (folly.find tunnel_id sw.ul_s1u_teid2pfcp_pdr) [
        | none ↦ error_indication r_endpoint tunnel_id ∷ []
        | some pdrs ↦ match_access cfg sw iph tunnel_id pdrs
      ]

  -- notify_cp_requested, for the rule at `p`; buffering_requested does nothing.
  unfoldable pub notify_cp_requested : ℕ → PfcpSession → Switch folly → Switch folly × List Output
  unfolding pdr_at
  notify_cp_requested p s sw =
      let pdr = pdr_at sw.pdr_heap p in
      if pdr.notified_cp then (sw, []) else (
        record sw { pdr_heap = set sw.pdr_heap p (record pdr { notified_cp = true }) },
        session_report s.cp_fseid pdr.pdr_id ∷ [],
      )

  -- A matching rule of the downlink, at `p`.
  unfoldable pub apply_core : Config → Switch folly → Packet → ℕ → Switch folly × List Output
  unfolding pdr_at rule_of apply_forwarding_rules notify_cp_requested
  apply_core cfg sw iph p = elim (rule_of sw (pdr_at sw.pdr_heap p)) [
    | none ↦ (sw, [])
    | some (s, far) ↦
        let applied = apply_forwarding_rules cfg.s1_up_port far iph false false in
        let notified = notify_cp_requested p s sw in
        if applied.nocp then (notified.0, applied.sent ++ notified.1) else (sw, applied.sent)
  ]

  unfoldable pub match_core : Config → Switch folly → Packet → List ℕ → Switch folly × List Output
  unfolding pdr_at look_up_pack_in_core apply_core
  match_core cfg sw iph [] = (sw, [])
  match_core cfg sw iph (p ∷ ps) =
      let rest = match_core cfg sw iph ps in
      if look_up_pack_in_core (pdr_at sw.pdr_heap p) iph then apply_core cfg sw iph p else rest

  unfoldable pub pfcp_session_look_up_pack_in_core :
      Config → Switch folly → Packet → Switch folly × List Output
  unfolding match_core
  pfcp_session_look_up_pack_in_core cfg sw iph =
      if iph.version == 4
      then elim (folly.find iph.daddr sw.ue_ipv4_hbo2pfcp_pdr) [
        | none ↦ (sw, [])
        | some pdrs ↦ match_core cfg sw iph pdrs
      ]
      else (sw, [])
