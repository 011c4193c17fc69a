-- ===== src/Switch/Far/Updates.antt =====
-- What an update of an action rule changes (pfcp_far::update).
use openair_cn_cups.Common.{ℕ, inl, inr, ◌≡◌, refl, Bool, true, false, List, [], ◌∷◌, Bool-cases}
use openair_cn_cups.Switch.Ies.{UpdateFar}
use openair_cn_cups.Switch.Far.{
  PfcpFar, Packet, g_pdu_ipv4, access, send_to_access, forward, apply_forwarding_rules, update,
  update_forwarding_parameters,
}

-- The updates of one action rule, the first first.
abbrev pub update_all : List UpdateFar → PfcpFar → PfcpFar
update_all [] far = far
update_all (u ∷ us) far = update_all us (update u far)

update_all-forwarding_parameters :
    (us : List UpdateFar) (far : PfcpFar)
    → (update_all us far).forwarding_parameters.0 ≡ far.forwarding_parameters.0
unfolding update
update_all-forwarding_parameters [] far = refl
update_all-forwarding_parameters (u ∷ us) far = update_all-forwarding_parameters us (update u far)

-- An action rule created without forwarding parameters sends nothing, whatever updates it gets:
-- they write the parameters but leave them marked absent.
pub update_all_silent :
    (port : ℕ) (us : List UpdateFar) (far : PfcpFar) (packet : Packet) (nocp buff : Bool)
    → far.forwarding_parameters.0 ≡ false
    → (apply_forwarding_rules port (update_all us far) packet nocp buff).sent ≡ []
unfolding apply_forwarding_rules
update_all_silent port us far packet nocp buff h =
    elim (Bool-cases (update_all us far).apply_action.forw) [
      | inl a ↦ rw (a, update_all-forwarding_parameters us far, h) refl
      | inr a ↦ rw a refl
    ]

-- Handover: where a rule has forwarding parameters and forwards to the access side, an
-- update that leaves action and interface alone and brings an outer header for GTP-U over
-- IPv4 makes the rule send the packet in the new tunnel.
pub update_moves_tunnel :
    (port : ℕ) (u : UpdateFar) (far : PfcpFar) (packet : Packet) (nocp buff : Bool)
    → far.forwarding_parameters.0 ≡ true
    → far.apply_action.forw ≡ true
    → far.forwarding_parameters.1.destination_interface ≡ (true, access)
    → u.apply_action.0 ≡ false
    → u.update_forwarding_parameters.0 ≡ true
    → u.update_forwarding_parameters.1.destination_interface.0 ≡ false
    → u.update_forwarding_parameters.1.outer_header_creation.0 ≡ true
    → u.update_forwarding_parameters.1.outer_header_creation.1.outer_header_creation_description
      ≡ 256
    → (apply_forwarding_rules port (update u far) packet nocp buff).sent ≡ (
        g_pdu_ipv4 u.update_forwarding_parameters.1.outer_header_creation.1.ipv4_address port
          u.update_forwarding_parameters.1.outer_header_creation.1.teid packet
        ∷ [])
unfolding apply_forwarding_rules update forward send_to_access update_forwarding_parameters
update_moves_tunnel port u far packet nocp buff f a d ua uf ud uh uk =
    rw (f, a, ua, uf, ud, d, uh, uk) refl
