-- ===== src/Switch/Far/Actions.antt =====
-- What an action rule sends (pfcp_far::apply_forwarding_rules).
use openair_cn_cups.Common.{
  ℕ, ◌≡◌, refl, ◌⊎◌, inl, inr, ap₂, subst, sym, Bool, true, List, [], ◌∷◌, ◌==◌, ==_iff, Bool-cases,
}
use openair_cn_cups.Switch.Ies.{Ie}
use openair_cn_cups.Switch.Far.{
  PfcpFar, Packet, Output, g_pdu_ipv4, g_pdu_ipv6, to_core, access, core, send_to_access, forward,
  apply_forwarding_rules,
}

-- The outputs that TS 29.244 lets a FAR ask for: forwarding is on, with its parameters, and the
-- packet leaves unchanged, towards the access side in the tunnel that the outer header describes,
-- or towards the core.
pub data Allowed (port : ℕ) (far : PfcpFar) (packet : Packet) : Output → Type 0 where
  in_ipv4_tunnel :
      far.apply_action.forw ≡ true
      → far.forwarding_parameters.0 ≡ true
      → far.forwarding_parameters.1.destination_interface ≡ (true, access)
      → far.forwarding_parameters.1.outer_header_creation.0 ≡ true
      → far.forwarding_parameters.1.outer_header_creation.1.outer_header_creation_description ≡ 256
      → Allowed port far packet (
          g_pdu_ipv4 far.forwarding_parameters.1.outer_header_creation.1.ipv4_address port
            far.forwarding_parameters.1.outer_header_creation.1.teid packet)
  in_ipv6_tunnel :
      far.apply_action.forw ≡ true
      → far.forwarding_parameters.0 ≡ true
      → far.forwarding_parameters.1.destination_interface ≡ (true, access)
      → far.forwarding_parameters.1.outer_header_creation.0 ≡ true
      → far.forwarding_parameters.1.outer_header_creation.1.outer_header_creation_description ≡ 512
      → Allowed port far packet (
          g_pdu_ipv6 far.forwarding_parameters.1.outer_header_creation.1.ipv6_address port
            far.forwarding_parameters.1.outer_header_creation.1.teid packet)
  out_to_core :
      far.apply_action.forw ≡ true
      → far.forwarding_parameters.0 ≡ true
      → far.forwarding_parameters.1.destination_interface ≡ (true, core)
      → Allowed port far packet (to_core packet)

both : {A : Type 0} (v : Ie A) {a : A} → v.0 ≡ true → v.1 ≡ a → v ≡ (true, a)
both v e f = ap₂ (λ (b : Bool) x. (b, x)) e f

-- What the FAR sends is one of the allowed outputs, or nothing.
abbrev Sends : ℕ → PfcpFar → Packet → List Output → Type 0
Sends port far packet sent =
    (sent ≡ []) ⊎ ((o : Output) × Allowed port far packet o × (sent ≡ (o ∷ [])))

same :
    {port : ℕ} {far : PfcpFar} {packet : Packet} {sent now : List Output}
    → Sends port far packet sent
    → now ≡ sent
    → Sends port far packet now
same {port = port} {far = far} {packet = packet} s e = subst (Sends port far packet) (sym e) s

Sends-to_access :
    (port : ℕ) (far : PfcpFar) (packet : Packet)
    → far.apply_action.forw ≡ true
    → far.forwarding_parameters.0 ≡ true
    → far.forwarding_parameters.1.destination_interface ≡ (true, access)
    → far.forwarding_parameters.1.outer_header_creation.0 ≡ true
    → Sends port far packet
        (send_to_access port far.forwarding_parameters.1.outer_header_creation.1 packet)
unfolding send_to_access
Sends-to_access port far packet a f d h =
    let ohc = far.forwarding_parameters.1.outer_header_creation.1 in
    let kind = ohc.outer_header_creation_description in
    elim (Bool-cases (kind == 256)) [
      | inl e ↦ inr (_, in_ipv4_tunnel a f d h ((==_iff kind 256).0 e), rw e refl)
      | inr e ↦ elim (Bool-cases (kind == 512)) [
        | inl e6 ↦ inr (_, in_ipv6_tunnel a f d h ((==_iff kind 512).0 e6), rw (e, e6) refl)
        | inr e6 ↦ inl (rw (e, e6) refl)
      ]
    ]

Sends-forward :
    (port : ℕ) (far : PfcpFar) (packet : Packet)
    → far.apply_action.forw ≡ true
    → far.forwarding_parameters.0 ≡ true
    → Sends port far packet (forward port far.forwarding_parameters.1 packet)
unfolding forward
Sends-forward port far packet a f =
    let dest = far.forwarding_parameters.1.destination_interface in
    let ohc = far.forwarding_parameters.1.outer_header_creation in
    elim (Bool-cases dest.0) [
      | inr d ↦ inl (rw d refl)
      | inl d ↦ elim (Bool-cases (dest.1 == access)) [
        | inl e ↦ elim (Bool-cases ohc.0) [
          | inr h ↦ inl (rw (d, e, h) refl)
          | inl h ↦
              same
                (Sends-to_access port far packet a f (both dest d ((==_iff dest.1 access).0 e)) h)
                (rw (d, e, h) refl)
        ]
        | inr e ↦ elim (Bool-cases (dest.1 == core)) [
          | inl c ↦
              inr (_, out_to_core a f (both dest d ((==_iff dest.1 core).0 c)), rw (d, e, c) refl)
          | inr c ↦ inl (rw (d, e, c) refl)
        ]
      ]
    ]

-- An action rule sends at most one output, and only one that it allows.
pub sends_what_is_Allowed :
    (port : ℕ) (far : PfcpFar) (packet : Packet) (nocp buff : Bool)
    → ((apply_forwarding_rules port far packet nocp buff).sent ≡ [])
      ⊎ ((o : Output) × Allowed port far packet o
          × ((apply_forwarding_rules port far packet nocp buff).sent ≡ (o ∷ [])))
unfolding apply_forwarding_rules
sends_what_is_Allowed port far packet nocp buff = elim (Bool-cases far.apply_action.forw) [
  | inr a ↦ inl (rw a refl)
  | inl a ↦ elim (Bool-cases far.forwarding_parameters.0) [
    | inr f ↦ inl (rw (a, f) refl)
    | inl f ↦ same (Sends-forward port far packet a f) (rw (a, f) refl)
  ]
]

-- Every output that an action rule allows is what it sends, and all that it sends.
pub sends_all-Allowed :
    (port : ℕ) (far : PfcpFar) (packet : Packet) (nocp buff : Bool) (o : Output)
    → Allowed port far packet o
    → (apply_forwarding_rules port far packet nocp buff).sent ≡ (o ∷ [])
unfolding apply_forwarding_rules forward send_to_access
sends_all-Allowed port far packet nocp buff o (in_ipv4_tunnel a f d h k) = rw (a, f, d, h, k) refl
sends_all-Allowed port far packet nocp buff o (in_ipv6_tunnel a f d h k) = rw (a, f, d, h, k) refl
sends_all-Allowed port far packet nocp buff o (out_to_core a f d) = rw (a, f, d) refl
