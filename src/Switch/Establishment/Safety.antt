-- ===== src/Switch/Establishment/Safety.antt =====
-- No session is used after it was deleted (handle_pfcp_session_establishment_request).
use openair_cn_cups.Common.{
  inl, inr, subst, Option-cases, ◌≢◌, ℕ, ◌<◌, not, List, [], ◌∷◌, ◌++◌, Option, none, some, ==_ne,
  if-both, arith,
}
use openair_cn_cups.Pfcp.Fteid.{Fteid}
use openair_cn_cups.Switch.HashMap.{HashMap}
use openair_cn_cups.Switch.Ies.{CreateFar, CreatePdr}
use openair_cn_cups.Switch.Tables.{PfcpSession, Switch, Config}
use openair_cn_cups.Switch.Session.{
  Created, created, refused, create_far, create_pdr, request_accepted,
}
use openair_cn_cups.Switch.Session.Refusals.{
  IsRefusal, create_far-IsRefusal, IsRefusal?, create_pdr-IsRefusal,
}
use openair_cn_cups.Switch.Requests.{
  EstablishmentRequest, CreatedPdr, Made, made, failed, create_fars, create_pdrs, has_create_far,
}
use openair_cn_cups.Switch.Establishment.{
  generate_seid, get_pfcp_session_by_cp_fseid, always_set, after_seid,
  handle_pfcp_session_establishment_request, after_pdrs, after_fars, Outcome, done,
  use_after_delete, no_free_uid, abandon, register,
}

module _ {folly : HashMap} where
  abbrev HasCause : Made folly → Type 0
  HasCause (made _ _ _) = Unit
  HasCause (failed _ _ _ cause _) = 1 < cause

  abbrev HasCause? : Option (Made folly) → Type 0
  HasCause? none = Unit
  HasCause? (some m) = HasCause m

  fars_step :
      (sw : Switch folly) (s : PfcpSession) (cs : List CreateFar) (r : Created folly)
      → IsRefusal sw r
      → ((sw' : Switch folly) (s' : PfcpSession) → HasCause (create_fars sw' s' cs))
      → HasCause (elim r [
        | created sw' s' _ ↦ create_fars sw' s' cs
        | refused sw' cause offending ↦ failed sw' s [] cause offending
      ])
  fars_step sw s cs (created sw' s' _) h rest = rest sw' s'
  fars_step sw s cs (refused sw' cause offending) h rest = h.1

  create_fars-HasCause :
      (sw : Switch folly) (s : PfcpSession) (cs : List CreateFar) → HasCause (create_fars sw s cs)
  unfolding create_fars
  create_fars-HasCause sw s [] = tt
  create_fars-HasCause sw s (c ∷ cs) =
      fars_step sw s cs (create_far sw s c) (create_far-IsRefusal sw s c)
        (λ sw' s'. create_fars-HasCause sw' s' cs)

  pdrs_step :
      (cfg : Config) (set : CreatePdr → Fteid → CreatedPdr) (fars : List CreateFar)
      → (sw : Switch folly) (s : PfcpSession) (pdrs : List CreatedPdr) (c : CreatePdr)
      → (cs : List CreatePdr) (r : Option (Created folly)) → IsRefusal? sw r
      → ((sw' : Switch folly) (s' : PfcpSession) (pdrs' : List CreatedPdr)
          → HasCause? (create_pdrs cfg set fars sw' s' pdrs' cs))
      → HasCause? (elim r [
        | none ↦ none
        | some (refused sw' cause offending) ↦ some (failed sw' s pdrs cause offending)
        | some (created sw' s' fteid) ↦
            create_pdrs cfg set fars sw' s' (pdrs ++ (set c fteid ∷ [])) cs
      ])
  pdrs_step cfg set fars sw s pdrs c cs none h rest = tt
  pdrs_step cfg set fars sw s pdrs c cs (some (refused sw' cause offending)) h rest = h.1
  pdrs_step cfg set fars sw s pdrs c cs (some (created sw' s' fteid)) h rest = rest sw' s' _

  create_pdrs-HasCause :
      (cfg : Config) (set : CreatePdr → Fteid → CreatedPdr) (fars : List CreateFar)
      → (sw : Switch folly) (s : PfcpSession) (pdrs : List CreatedPdr) (cs : List CreatePdr)
      → HasCause? (create_pdrs cfg set fars sw s pdrs cs)
  unfolding create_pdrs
  create_pdrs-HasCause cfg set fars sw s pdrs [] = tt
  create_pdrs-HasCause cfg set fars sw s pdrs (c ∷ cs) =
      if-both HasCause? (not c.far_id.0) (omega arith) (
        if-both HasCause? (not (has_create_far c.far_id.1 fars)) (omega arith) (
          pdrs_step cfg set fars sw s pdrs c cs (create_pdr cfg sw s c)
            (create_pdr-IsRefusal cfg sw s c)
            (λ sw' s' pdrs'. create_pdrs-HasCause cfg set fars sw' s' pdrs' cs)))

  abbrev IsSafe : Outcome folly → Type 0
  IsSafe (done _ _) = Unit
  IsSafe use_after_delete = ⊥
  IsSafe no_free_uid = Unit

  abandon-IsSafe :
      (sw : Switch folly) (s : PfcpSession) (pdrs : List CreatedPdr) (cause : ℕ)
      → (offending : Option ℕ) → 1 < cause
      → IsSafe (abandon sw s pdrs cause offending)
  unfolding abandon
  abandon-IsSafe sw s pdrs cause offending h =
      rw (==_ne cause request_accepted (λ e. omega (arith, h, e))) tt

  after_pdrs-IsSafe :
      (cfg : Config) (req : EstablishmentRequest) (m : Option (Made folly))
      → HasCause? m
      → IsSafe (after_pdrs cfg req m)
  unfolding after_pdrs register
  after_pdrs-IsSafe cfg req none h = tt
  after_pdrs-IsSafe cfg req (some (failed sw s pdrs cause offending)) h =
      abandon-IsSafe sw s pdrs cause offending h
  after_pdrs-IsSafe cfg req (some (made sw s pdrs)) h = tt

  after_fars-IsSafe :
      (cfg : Config) (req : EstablishmentRequest) (m : Made folly)
      → HasCause m
      → IsSafe (after_fars cfg req m)
  unfolding after_fars
  after_fars-IsSafe cfg req (failed sw s pdrs cause offending) h =
      abandon-IsSafe sw s pdrs cause offending h
  after_fars-IsSafe cfg req (made sw s _) h =
      after_pdrs-IsSafe cfg req _
        (create_pdrs-HasCause cfg always_set req.create_fars sw s [] req.create_pdrs)

  after_seid-IsSafe :
      (cfg : Config) (req : EstablishmentRequest) (r : Option (ℕ × Switch folly))
      → IsSafe (after_seid cfg req r)
  unfolding after_seid
  after_seid-IsSafe cfg req none = tt
  after_seid-IsSafe cfg req (some (seid, sw)) =
      after_fars-IsSafe cfg req _ (create_fars-HasCause _ _ req.create_fars)

  handle-IsSafe :
      (cfg : Config) (req : EstablishmentRequest) (sw : Switch folly)
      → IsSafe (handle_pfcp_session_establishment_request cfg req sw)
  unfolding handle_pfcp_session_establishment_request
  handle-IsSafe cfg req sw =
      if-both IsSafe (not req.cp_fseid.0) tt
        (elim (Option-cases (get_pfcp_session_by_cp_fseid sw req.cp_fseid.1)) [
          | inr (_, e) ↦ rw e tt
          | inl e ↦ rw e (after_seid-IsSafe cfg req (generate_seid sw))
        ])

  -- The handler never goes on with a session that it has deleted: whenever it deletes one, the cause
  -- it reads afterwards is not request_accepted.
  pub never_uses_deleted_session :
      (cfg : Config) (req : EstablishmentRequest) (sw : Switch folly)
      → handle_pfcp_session_establishment_request cfg req sw ≢ use_after_delete
  never_uses_deleted_session cfg req sw e = subst IsSafe e (handle-IsSafe cfg req sw)
