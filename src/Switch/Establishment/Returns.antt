-- ===== src/Switch/Establishment/Returns.antt =====
-- The handler of an establishment request returns while identifiers are left
-- (handle_pfcp_session_establishment_request, generate_seid, generate_fteid_s1u).
use openair_cn_cups.Common.{
  inl, inr, sym, refl, subst, suc, Option-cases, ℕ, ◌<◌, ◌≤◌, ◌+◌, ◌^◌, ◌≡◌, ◌≢◌, ◌==◌, ◌&&◌, not,
  List, [], ◌∷◌, ◌++◌, Option, none, some, length, if-both, arith,
}
use openair_cn_cups.Uid.Fresh.{get_uid_grows}
use openair_cn_cups.Pfcp.Fteid.{Fteid}
use openair_cn_cups.Switch.HashMap.{HashMap}
use openair_cn_cups.Switch.Ies.{CreateFar, CreatePdr}
use openair_cn_cups.Switch.Far.{access, core, of_create_far}
use openair_cn_cups.Switch.Tables.{
  PfcpSession, Switch, Config, call, add_far, generate_fteid_s1u, issue_fteid, issue_seid,
  generate_seid, get_pfcp_session_by_cp_fseid, add_pfcp_ul_pdr_by_up_teid, add_pfcp_dl_pdr_by_ue_ip,
}
use openair_cn_cups.Switch.Session.{
  Created, created, refused, create_pdr, create_uplink, create_downlink, add_uplink,
  request_accepted,
}
use openair_cn_cups.Switch.Session.Refusals.{create_far_decides}
use openair_cn_cups.Switch.Requests.{
  EstablishmentRequest, Response, CreatedPdr, Made, made, failed, create_fars, create_pdrs,
  has_create_far, always_set,
}
use openair_cn_cups.Switch.Establishment.{
  after_seid, handle_pfcp_session_establishment_request, after_pdrs, after_fars, Outcome, done,
  use_after_delete, no_free_uid, abandon, register,
}
use openair_cn_cups.Switch.Establishment.Safety.{never_uses_deleted_session}

module _ {folly : HashMap} where
  -- There are tunnel identifiers for `n` more rules.
  abbrev pub HasRoom : ℕ → Switch folly → Type 0
  HasRoom n sw = length sw.teid_s1u_generator.uid_generated + n ≤ 2 ^ 32

  abbrev HasRoom? : ℕ → Option (Created folly) → Type 0
  HasRoom? n none = ⊥
  HasRoom? n (some (refused _ _ _)) = Unit
  HasRoom? n (some (created sw _ _)) = HasRoom n sw

  create_uplink-HasRoom :
      (cfg : Config) (sw : Switch folly) (s : PfcpSession) (c : CreatePdr) (n : ℕ)
      → HasRoom (suc n) sw
      → HasRoom? n (create_uplink cfg sw s c)
  unfolding create_uplink generate_fteid_s1u issue_fteid add_uplink add_pfcp_ul_pdr_by_up_teid
  create_uplink-HasRoom cfg sw s c n room =
      let (teid, g, e, grows) = get_uid_grows 32 sw.teid_s1u_generator (omega arith) in
      if-both (HasRoom? n) (not c.pdi.1.local_fteid.0) tt (
        if-both (HasRoom? n) (not c.pdi.1.local_fteid.1.ch) tt
          (subst (λ r. HasRoom? n (add_uplink s c (issue_fteid cfg sw r))) (sym e) (omega arith)))

  create_downlink-HasRoom :
      (sw : Switch folly) (s : PfcpSession) (c : CreatePdr) (n : ℕ)
      → HasRoom (suc n) sw
      → HasRoom? n (some (create_downlink sw s c))
  unfolding create_downlink add_pfcp_dl_pdr_by_ue_ip
  create_downlink-HasRoom sw s c n room =
      let ue = c.pdi.1.ue_ip_address in
      if-both (λ r. HasRoom? n (some r)) (ue.0 && ue.1.v4) (omega arith) tt

  create_pdr-HasRoom :
      (cfg : Config) (sw : Switch folly) (s : PfcpSession) (c : CreatePdr) (n : ℕ)
      → HasRoom (suc n) sw
      → HasRoom? n (create_pdr cfg sw s c)
  unfolding create_pdr
  create_pdr-HasRoom cfg sw s c n room =
      let pdi = c.pdi.1 in
      if-both (HasRoom? n) (not c.pdr_id.0) tt (
        if-both (HasRoom? n) (not c.pdi.0) tt (
          if-both (HasRoom? n) (not c.precedence.0) tt (
            if-both (HasRoom? n) (not pdi.source_interface.0) tt (
              if-both (HasRoom? n) pdi.traffic_endpoint_id.0 tt (
                if-both (HasRoom? n) (pdi.source_interface.1 == access)
                  (create_uplink-HasRoom cfg sw s c n room)
                  (if-both (HasRoom? n) (pdi.source_interface.1 == core)
                    (create_downlink-HasRoom sw s c n room) tt))))))

  abbrev pub Ends : Option (Made folly) → Type 0
  Ends none = ⊥
  Ends (some _) = Unit

  pdrs_step :
      (cfg : Config) (set : CreatePdr → Fteid → CreatedPdr) (fars : List CreateFar)
      → (s : PfcpSession) (pdrs : List CreatedPdr) (c : CreatePdr)
      → (cs : List CreatePdr) (r : Option (Created folly)) → HasRoom? (length cs) r
      → ((sw' : Switch folly) (s' : PfcpSession) (pdrs' : List CreatedPdr)
          → HasRoom (length cs) sw'
          → Ends (create_pdrs cfg set fars sw' s' pdrs' cs))
      → Ends (elim r [
        | none ↦ none
        | some (refused sw' cause offending) ↦ some (failed sw' s pdrs cause offending)
        | some (created sw' s' fteid) ↦
            create_pdrs cfg set fars sw' s' (pdrs ++ (set c fteid ∷ [])) cs
      ])
  pdrs_step cfg set fars s pdrs c cs none h rest = h
  pdrs_step cfg set fars s pdrs c cs (some (refused sw' cause offending)) h rest = tt
  pdrs_step cfg set fars s pdrs c cs (some (created sw' s' fteid)) h rest = rest sw' s' _ h

  pub create_pdrs-Ends :
      (cfg : Config) (set : CreatePdr → Fteid → CreatedPdr) (fars : List CreateFar)
      → (sw : Switch folly) (s : PfcpSession) (pdrs : List CreatedPdr) (cs : List CreatePdr)
      → HasRoom (length cs) sw
      → Ends (create_pdrs cfg set fars sw s pdrs cs)
  unfolding create_pdrs
  create_pdrs-Ends cfg set fars sw s pdrs [] room = tt
  create_pdrs-Ends cfg set fars sw s pdrs (c ∷ cs) room = if-both Ends (not c.far_id.0) tt (
      if-both Ends (not (has_create_far c.far_id.1 fars)) tt (
        pdrs_step cfg set fars s pdrs c cs (create_pdr cfg sw s c)
          (create_pdr-HasRoom cfg sw s c (length cs) room)
          (λ sw' s' pdrs'. create_pdrs-Ends cfg set fars sw' s' pdrs' cs)))

  abbrev pub Leaves : ℕ → Made folly → Type 0
  Leaves n (made sw _ _) = HasRoom n sw
  Leaves n (failed _ _ _ _ _) = Unit

  pub create_fars-Leaves :
      (sw : Switch folly) (s : PfcpSession) (cs : List CreateFar) (n : ℕ)
      → HasRoom n sw
      → Leaves n (create_fars sw s cs)
  unfolding create_fars
  create_fars-Leaves sw s [] n room = room
  create_fars-Leaves sw s (c ∷ cs) n room = elim (create_far_decides sw s c) [
    | inl (_, e) ↦
        rw (create_fars, e)
          (create_fars-Leaves (call (add_far s.seid (of_create_far c)) sw)
            (record s { fars = s.fars ++ (of_create_far c ∷ []) }) cs n room)
    | inr (_, (_, _, e)) ↦ rw (create_fars, e) tt
  ]

  abbrev Returns : Outcome folly → Type 0
  Returns no_free_uid = ⊥
  Returns use_after_delete = Unit
  Returns (done _ _) = Unit

  abandon-Returns :
      (sw : Switch folly) (s : PfcpSession) (pdrs : List CreatedPdr) (cause : ℕ)
      → (offending : Option ℕ) → Returns (abandon sw s pdrs cause offending)
  unfolding abandon
  abandon-Returns sw s pdrs cause offending = if-both Returns (cause == request_accepted) tt tt

  after_pdrs-Returns :
      (cfg : Config) (req : EstablishmentRequest) (m : Option (Made folly))
      → Ends m
      → Returns (after_pdrs cfg req m)
  unfolding after_pdrs register
  after_pdrs-Returns cfg req none h = h
  after_pdrs-Returns cfg req (some (failed sw s pdrs cause offending)) h =
      abandon-Returns sw s pdrs cause offending
  after_pdrs-Returns cfg req (some (made sw s pdrs)) h = tt

  after_fars-Returns :
      (cfg : Config) (req : EstablishmentRequest) (m : Made folly)
      → Leaves (length req.create_pdrs) m
      → Returns (after_fars cfg req m)
  unfolding after_fars
  after_fars-Returns cfg req (failed sw s pdrs cause offending) h =
      abandon-Returns sw s pdrs cause offending
  after_fars-Returns cfg req (made sw s _) h =
      after_pdrs-Returns cfg req _
        (create_pdrs-Ends cfg always_set req.create_fars sw s [] req.create_pdrs h)

  handle-Returns :
      (cfg : Config) (req : EstablishmentRequest) (sw : Switch folly)
      → length sw.seid_generator.uid_generated < 2 ^ 64
      → HasRoom (length req.create_pdrs) sw
      → Returns (handle_pfcp_session_establishment_request cfg req sw)
  unfolding handle_pfcp_session_establishment_request generate_seid issue_seid after_seid
  handle-Returns cfg req sw seids room =
      let (seid, g, e, _) = get_uid_grows 64 sw.seid_generator seids in
      if-both Returns (not req.cp_fseid.0) tt
        (elim (Option-cases (get_pfcp_session_by_cp_fseid sw req.cp_fseid.1)) [
          | inr (_, found) ↦ rw found tt
          | inl absent ↦
              rw (absent, e)
                (after_fars-Returns cfg req _
                  (create_fars-Leaves _ _ req.create_fars (length req.create_pdrs) room))
        ])

  ended :
      (o : Outcome folly)
      → Returns o
      → o ≢ use_after_delete
      → (sw' : Switch folly) × (response : Response) × (o ≡ done sw' response)
  ended (done sw' response) r safe = (sw', response, refl)
  ended use_after_delete r safe = absurd (safe refl)
  ended no_free_uid r safe = absurd r

  -- While a session identifier is free, and a tunnel identifier for each PDR of the request, the
  -- handler returns, with a switch and a response.
  pub establishment_returns :
      (cfg : Config) (req : EstablishmentRequest) (sw : Switch folly)
      → length sw.seid_generator.uid_generated < 2 ^ 64
      → length sw.teid_s1u_generator.uid_generated + length req.create_pdrs ≤ 2 ^ 32
      → (sw' : Switch folly) × (response : Response) × (handle_pfcp_session_establishment_request
            cfg req sw
          ≡ done sw' response)
  establishment_returns cfg req sw seids teids =
      ended _ (handle-Returns cfg req sw seids teids) (never_uses_deleted_session cfg req sw)
