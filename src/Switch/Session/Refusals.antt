-- ===== src/Switch/Session/Refusals.antt =====
-- What the create functions of a session refuse (pfcp_session::create).
use openair_cn_cups.Common.{
  none, ◌==◌, ◌&&◌, Option-cases, if-both, sym, subst, Option, ℕ, ◌≡◌, ◌≢◌, refl, ◌⊎◌, inl, inr,
  Bool, true, false, not, [], ◌∷◌, ◌++◌, some, ◌<◌, Bool-cases, arith,
}
use openair_cn_cups.Switch.HashMap.{HashMap}
use openair_cn_cups.Switch.Ies.{CreatePdr, CreateFar, no_fteid}
use openair_cn_cups.Switch.Far.{core, access, of_create_far}
use openair_cn_cups.Switch.Tables.{PfcpSession, Switch, add_far, call}
use openair_cn_cups.Switch.Session.{
  generate_fteid_s1u, Config, create_downlink, create_uplink, create_pdr, Created, created, refused,
  create_far, mandatory_ie_missing,
}

-- The elements that a FAR to create must have: an identifier, an action, and the parameters of
-- forwarding and of duplicating where the action asks for them.
pub record IsComplete (c : CreateFar) : Type 0 where
  pub has_far_id : c.far_id.0 ≡ true
  pub has_apply_action : c.apply_action.0 ≡ true
  pub can_forward : c.apply_action.1.forw ≡ true → c.forwarding_parameters.0 ≡ true
  pub can_duplicate : c.apply_action.1.dupl ≡ true → c.duplicating_parameters.0 ≡ true

-- An element that the FAR lacks, by the code of its type.
pub data IsMissing (c : CreateFar) : ℕ → Type 0 where
  no_far_id : c.far_id.0 ≡ false → IsMissing c 108
  no_apply_action : c.apply_action.0 ≡ false → IsMissing c 44
  no_forwarding : c.apply_action.1.forw ≡ true → c.forwarding_parameters.0 ≡ false → IsMissing c 4
  no_duplicating : c.apply_action.1.dupl ≡ true → c.duplicating_parameters.0 ≡ false → IsMissing c 5

ne : {b : Bool} → b ≡ false → b ≢ true
ne f t = ground arith

module _ {folly : HashMap} where
  -- A refusal with a cause other than request_accepted, which leaves the switch as it was.
  abbrev pub IsRefusal : Switch folly → Created folly → Type 0
  IsRefusal sw (created _ _ _) = Unit
  IsRefusal sw (refused sw' cause offending) = (sw' ≡ sw) × (1 < cause)

  -- A complete FAR is added behind those of the session; one that is not complete is refused, and
  -- the code that the refusal names is that of an element that the FAR lacks.
  pub create_far_decides :
      (sw : Switch folly) (s : PfcpSession) (c : CreateFar)
      → (IsComplete c
          × (create_far sw s c
              ≡ created
                  (call (add_far s.seid (of_create_far c)) sw)
                  (record s { fars = s.fars ++ (of_create_far c ∷ []) })
                  no_fteid))
        ⊎ ((IsComplete c → ⊥)
            × ((code : ℕ) × IsMissing c code
                × (create_far sw s c ≡ refused sw mandatory_ie_missing (some code))))
  unfolding create_far
  create_far_decides sw s c =
      let a = c.apply_action.1 in
      elim (Bool-cases c.far_id.0) [
        | inr i ↦ inr (λ m. ne i m.has_far_id, (108, no_far_id i, rw (create_far, i) refl))
        | inl i ↦ elim (Bool-cases c.apply_action.0) [
          | inr h ↦
              inr
                (λ m. ne h m.has_apply_action, (44, no_apply_action h, rw (create_far, i, h) refl))
          | inl h ↦ elim (Bool-cases (a.forw && not c.forwarding_parameters.0)) [
            | inl f ↦ inr (
              λ m. let can = m.can_forward in ground arith,
              (4, no_forwarding (ground arith) (ground arith), rw (create_far, i, h, f) refl),
            )
            | inr f ↦ elim (Bool-cases (a.dupl && not c.duplicating_parameters.0)) [
              | inl d ↦ inr (
                λ m. let can = m.can_duplicate in ground arith,
                (5, no_duplicating (ground arith) (ground arith), rw (create_far, i, h, f, d) refl),
              )
              | inr d ↦ inl (
                record {
                  has_far_id = i;
                  has_apply_action = h;
                  can_forward = ground arith;
                  can_duplicate = ground arith;
                },
                rw (create_far, i, h, f, d) refl,
              )
            ]
          ]
        ]
      ]

  pub create_far-IsRefusal :
      (sw : Switch folly) (s : PfcpSession) (c : CreateFar) → IsRefusal sw (create_far sw s c)
  create_far-IsRefusal sw s c = elim (create_far_decides sw s c) [
    | inl (_, e) ↦ subst (IsRefusal sw) (sym e) tt
    | inr (_, (_, _, e)) ↦ subst (IsRefusal sw) (sym e) (refl, omega arith)
  ]

  abbrev pub IsRefusal? : Switch folly → Option (Created folly) → Type 0
  IsRefusal? sw none = Unit
  IsRefusal? sw (some r) = IsRefusal sw r

  create_uplink-IsRefusal :
      (cfg : Config) (sw : Switch folly) (s : PfcpSession) (c : CreatePdr)
      → IsRefusal? sw (create_uplink cfg sw s c)
  unfolding create_uplink
  create_uplink-IsRefusal cfg sw s c =
      if-both (IsRefusal? sw) (not c.pdi.1.local_fteid.0) (refl, omega arith)
        (if-both (IsRefusal? sw) (not c.pdi.1.local_fteid.1.ch) (refl, omega arith)
          (elim (Option-cases (generate_fteid_s1u cfg sw)) [
            | inl e ↦ rw (generate_fteid_s1u, e) tt
            | inr (_, e) ↦ rw (generate_fteid_s1u, e) tt
          ]))

  create_downlink-IsRefusal :
      (sw : Switch folly) (s : PfcpSession) (c : CreatePdr) → IsRefusal sw (create_downlink sw s c)
  unfolding create_downlink
  create_downlink-IsRefusal sw s c =
      if-both (IsRefusal sw) (c.pdi.1.ue_ip_address.0 && c.pdi.1.ue_ip_address.1.v4) tt
        (refl, omega arith)

  -- A refused PDR leaves the switch as it was, and never with the cause request_accepted.
  pub create_pdr-IsRefusal :
      (cfg : Config) (sw : Switch folly) (s : PfcpSession) (c : CreatePdr)
      → IsRefusal? sw (create_pdr cfg sw s c)
  unfolding create_pdr
  create_pdr-IsRefusal cfg sw s c =
      let P = IsRefusal? sw in
      let missing : (sw ≡ sw) × (1 < mandatory_ie_missing) = (refl, omega arith) in
      if-both P (not c.pdr_id.0) missing (
        if-both P (not c.pdi.0) missing (
          if-both P (not c.precedence.0) missing (
            if-both P (not c.pdi.1.source_interface.0) missing (
              if-both P c.pdi.1.traffic_endpoint_id.0 (refl, omega arith)
                (if-both P (c.pdi.1.source_interface.1 == access)
                  (create_uplink-IsRefusal cfg sw s c)
                  (if-both P (c.pdi.1.source_interface.1 == core) (create_downlink-IsRefusal sw s c)
                    (refl, omega arith)))))))
