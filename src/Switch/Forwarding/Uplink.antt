-- ===== src/Switch/Forwarding/Uplink.antt =====
-- What becomes of a packet from the access side (pfcp_session_look_up_pack_in_access).
use openair_cn_cups.Common.{
  subst, Among-head, none-ne_some, ℕ, ◌≡◌, refl, ap, sym, ◌∙◌, ◌⊎◌, inl, inr, List, [], ◌∷◌, ◌++◌,
  true, false, none, some, All, Among-tail, some-inj, Bool-cases, Option-cases, Among, ==_iff, ◌==◌,
}
use openair_cn_cups.Switch.HashMap.{HashMap}
use openair_cn_cups.Switch.Far.{PfcpFar, Packet, Output, error_indication, apply_forwarding_rules}
use openair_cn_cups.Switch.Far.Actions.{Allowed, sends_what_is_Allowed}
use openair_cn_cups.Switch.Pdr.{PfcpPdr, look_up_pack_in_access}
use openair_cn_cups.Switch.Pdr.Detection.{IsUplinkMatch, look_up_pack_in_access_iff}
use openair_cn_cups.Switch.Tables.{PfcpSession, Switch, Config, pdr_at, get_pfcp_session_by_up_seid}
use openair_cn_cups.Switch.Session.{get_far}
use openair_cn_cups.Switch.Modification.{session_at}
use openair_cn_cups.Switch.Forwarding.{rule_of, match_access, pfcp_session_look_up_pack_in_access}

get_far_lem :
    (far_id : ℕ) (fars : List PfcpFar) (far : PfcpFar)
    → get_far far_id fars ≡ some far
    → Among far fars × (far.far_id ≡ far_id)
unfolding get_far
get_far_lem far_id [] far h = absurd (none-ne_some none refl h)
get_far_lem far_id (g ∷ fars) far h = elim (Bool-cases (g.far_id == far_id)) [
  | inl e ↦
      let same : g ≡ far = some-inj (sym (rw e refl) ∙ h) in
      (
        ([], fars, ap (λ f. f ∷ fars) same),
        ap (λ (f : PfcpFar). f.far_id) (sym same) ∙ (==_iff _ _).0 e,
      )
  | inr e ↦
      let rest = get_far_lem far_id fars far (sym (rw e refl) ∙ h) in
      (Among-tail far g fars rest.0, rest.1)
]

module _ {folly : HashMap} where
  match_access_first :
      (cfg : Config) (sw : Switch folly) (iph : Packet) (tunnel_id : ℕ)
      → (p : ℕ) (back : List ℕ) (s : PfcpSession) (far : PfcpFar)
      → look_up_pack_in_access (pdr_at sw.pdr_heap p) iph tunnel_id ≡ true
      → rule_of sw (pdr_at sw.pdr_heap p) ≡ some (s, far)
      → (front : List ℕ)
      → All (λ q. look_up_pack_in_access (pdr_at sw.pdr_heap q) iph tunnel_id ≡ false) front
      → match_access cfg sw iph tunnel_id (front ++ (p ∷ back))
        ≡ (apply_forwarding_rules cfg.s1_up_port far iph false false).sent
  unfolding match_access
  match_access_first cfg sw iph tunnel_id p back s far hit rule [] miss = rw (hit, rule) refl
  match_access_first cfg sw iph tunnel_id p back s far hit rule (q ∷ qs) miss =
      rw miss.0 (match_access_first cfg sw iph tunnel_id p back s far hit rule qs miss.1)

  -- The first rule of the tunnel that matches decides: what its action rule sends is all that
  -- leaves the switch.
  pub first_match_decides :
      (cfg : Config) (sw : Switch folly) (iph : Packet) (r_endpoint tunnel_id : ℕ)
      → (front : List ℕ) (p : ℕ) (back : List ℕ) (s : PfcpSession) (far : PfcpFar)
      → folly.find tunnel_id sw.ul_s1u_teid2pfcp_pdr ≡ some (front ++ (p ∷ back))
      → All (λ q. look_up_pack_in_access (pdr_at sw.pdr_heap q) iph tunnel_id ≡ false) front
      → look_up_pack_in_access (pdr_at sw.pdr_heap p) iph tunnel_id ≡ true
      → rule_of sw (pdr_at sw.pdr_heap p) ≡ some (s, far)
      → pfcp_session_look_up_pack_in_access cfg sw iph r_endpoint tunnel_id
        ≡ (apply_forwarding_rules cfg.s1_up_port far iph false false).sent
  unfolding pfcp_session_look_up_pack_in_access
  first_match_decides cfg sw iph r_endpoint tunnel_id front p back s far found miss hit rule =
      rw (pfcp_session_look_up_pack_in_access, found)
        (match_access_first cfg sw iph tunnel_id p back s far hit rule front miss)

  -- What rule_of finds: the session that the rule's seid leads to, and the first of its action rules
  -- with the rule's identifier.
  pub rule_of_lem :
      (sw : Switch folly) (pdr : PfcpPdr) (s : PfcpSession) (far : PfcpFar)
      → rule_of sw pdr ≡ some (s, far)
      → (ptr : ℕ) × (get_pfcp_session_by_up_seid sw pdr.local_seid ≡ some ptr)
        × (s ≡ session_at sw.session_heap ptr)
        × Among far s.fars
        × (far.far_id ≡ pdr.far_id.1)
  unfolding rule_of
  rule_of_lem sw pdr s far h = elim (Option-cases (get_pfcp_session_by_up_seid sw pdr.local_seid)) [
    | inl e ↦ absurd (none-ne_some _ (rw (rule_of, e) refl) h)
    | inr (ptr, e) ↦ elim (Bool-cases pdr.far_id.0) [
      | inr f ↦ absurd (none-ne_some _ (rw (rule_of, e, f) refl) h)
      | inl f ↦ elim (Option-cases (get_far pdr.far_id.1 (session_at sw.session_heap ptr).fars)) [
        | inl g ↦ absurd (none-ne_some _ (rw (rule_of, e, f, g) refl) h)
        | inr (far', g) ↦
            let same : (session_at sw.session_heap ptr, far') ≡ (s, far) =
              some-inj (sym (rw (rule_of, e, f, g) refl) ∙ h) in
            let found = get_far_lem _ _ far' g in
            let both =
              subst
                (λ (x : PfcpSession × PfcpFar). Among x.1 x.0.fars × (x.1.far_id ≡ pdr.far_id.1))
                same found in
            (ptr, e, sym (ap (λ (x : PfcpSession × PfcpFar). x.0) same), both.0, both.1)
      ]
    ]
  ]

  -- Why an output leaves the switch for a packet from the access side: one of the rules of its
  -- tunnel matches it, has a session and an action rule, and the action rule allows the output.
  pub record IsForwarded (cfg : Config) (sw : Switch folly) (iph : Packet) (tunnel_id : ℕ)
      (pdrs : List ℕ) (o : Output) : Type 0 where
    pub p : ℕ
    pub among : Among p pdrs
    pub matches : IsUplinkMatch (pdr_at sw.pdr_heap p) iph tunnel_id
    pub session : PfcpSession
    pub far : PfcpFar
    pub rule : rule_of sw (pdr_at sw.pdr_heap p) ≡ some (session, far)
    pub allowed : Allowed cfg.s1_up_port far iph o

  abbrev Forwards :
      (cfg : Config) (sw : Switch folly) (iph : Packet) (tunnel_id : ℕ) (pdrs : List ℕ)
      → List Output
      → Type 0
  Forwards cfg sw iph tunnel_id pdrs sent =
      (sent ≡ []) ⊎ ((o : Output) × IsForwarded cfg sw iph tunnel_id pdrs o × (sent ≡ (o ∷ [])))

  match_access_lem :
      (cfg : Config) (sw : Switch folly) (iph : Packet) (tunnel_id : ℕ) (pdrs : List ℕ)
      → Forwards cfg sw iph tunnel_id pdrs (match_access cfg sw iph tunnel_id pdrs)
  unfolding match_access
  match_access_lem cfg sw iph tunnel_id [] = inl refl
  match_access_lem cfg sw iph tunnel_id (q ∷ qs) =
      let pdr = pdr_at sw.pdr_heap q in
      elim (Bool-cases (look_up_pack_in_access pdr iph tunnel_id)) [
        | inr miss ↦ elim (match_access_lem cfg sw iph tunnel_id qs) [
          | inl nothing ↦ inl (rw miss nothing)
          | inr (o, w, sent) ↦ inr (
            o,
            record {
              p = w.p;
              among = Among-tail w.p q qs w.among;
              matches = w.matches;
              session = w.session;
              far = w.far;
              rule = w.rule;
              allowed = w.allowed;
            },
            rw miss sent,
          )
        ]
        | inl hit ↦ elim (Option-cases (rule_of sw pdr)) [
          | inl absent ↦ inl (rw (hit, absent) refl)
          | inr ((s, far), rule) ↦ elim (sends_what_is_Allowed cfg.s1_up_port far iph false false) [
            | inl nothing ↦ inl (rw (hit, rule) nothing)
            | inr (o, allowed, sent) ↦ inr (
              o,
              record {
                p = q;
                among = Among-head q qs;
                matches = (look_up_pack_in_access_iff pdr iph tunnel_id).0 hit;
                session = s;
                far = far;
                rule = rule;
                allowed = allowed;
              },
              rw (hit, rule) sent,
            )
          ]
        ]
      ]

  -- A packet from the access side on a tunnel without rules is answered by an error indication, and
  -- by nothing else. On a tunnel with rules at most one output leaves the switch, and only for a
  -- rule of that tunnel that matches the packet.
  pub uplink_is_screened :
      (cfg : Config) (sw : Switch folly) (iph : Packet) (r_endpoint tunnel_id : ℕ)
      → ((folly.find tunnel_id sw.ul_s1u_teid2pfcp_pdr ≡ none)
          × (pfcp_session_look_up_pack_in_access cfg sw iph r_endpoint tunnel_id
              ≡ (error_indication r_endpoint tunnel_id ∷ [])))
        ⊎ ((pdrs : List ℕ) × (folly.find tunnel_id sw.ul_s1u_teid2pfcp_pdr ≡ some pdrs)
            × ((pfcp_session_look_up_pack_in_access cfg sw iph r_endpoint tunnel_id ≡ [])
                ⊎ ((o : Output) × IsForwarded cfg sw iph tunnel_id pdrs o
                    × (pfcp_session_look_up_pack_in_access cfg sw iph r_endpoint tunnel_id
                        ≡ (o ∷ [])))))
  unfolding pfcp_session_look_up_pack_in_access
  uplink_is_screened cfg sw iph r_endpoint tunnel_id =
      elim (Option-cases (folly.find tunnel_id sw.ul_s1u_teid2pfcp_pdr)) [
        | inl e ↦ inl (e, rw (pfcp_session_look_up_pack_in_access, e) refl)
        | inr (pdrs, e) ↦ inr (
          pdrs,
          e,
          subst (Forwards cfg sw iph tunnel_id pdrs)
              (sym (rw (pfcp_session_look_up_pack_in_access, e) refl))
              (match_access_lem cfg sw iph tunnel_id pdrs),
        )
      ]
