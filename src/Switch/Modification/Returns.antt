-- ===== src/Switch/Modification/Returns.antt =====
-- The handler of a modification request returns while tunnel identifiers are left
-- (handle_pfcp_session_modification_request).
use openair_cn_cups.Common.{
  not, inl, inr, refl, Option-cases, ℕ, ◌≤◌, ◌+◌, ◌^◌, ◌≡◌, ◌==◌, [], Option, none, some, length,
  if-both,
}
use openair_cn_cups.Switch.HashMap.{HashMap}
use openair_cn_cups.Switch.Tables.{PfcpSession, Switch, Config, get_pfcp_session_by_up_seid}
use openair_cn_cups.Switch.Requests.{
  ModificationRequest, Response, Made, made, failed, set_unless_zero,
}
use openair_cn_cups.Switch.Establishment.{Outcome, done, use_after_delete, no_free_uid}
use openair_cn_cups.Switch.Establishment.Returns.{
  HasRoom, Ends, create_pdrs-Ends, Leaves, create_fars-Leaves,
}
use openair_cn_cups.Switch.Modification.{
  create_fars, request_accepted, Errors, no_errors, remove_pdrs, remove_fars, update_rules,
  after_pdrs, after_fars, modify_session, handle_pfcp_session_modification_request, set_cp_fseid,
  session_at,
}

module _ {folly : HashMap} where
  abbrev IsDone : Outcome folly → Type 0
  IsDone (done _ _) = Unit
  IsDone use_after_delete = ⊥
  IsDone no_free_uid = ⊥

  after_pdrs-IsDone :
      (req : ModificationRequest) (p : ℕ) (e : Errors) (m : Option (Made folly))
      → Ends m
      → IsDone (after_pdrs req p e m)
  unfolding after_pdrs update_rules
  after_pdrs-IsDone req p e none h = h
  after_pdrs-IsDone req p e (some (failed sw s pdrs cause offending)) h = tt
  after_pdrs-IsDone req p e (some (made sw s pdrs)) h = tt

  after_fars-IsDone :
      (cfg : Config) (req : ModificationRequest) (p : ℕ) (e : Errors) (m : Made folly)
      → Leaves (length req.create_pdrs) m
      → IsDone (after_fars cfg req p e m)
  unfolding after_fars
  after_fars-IsDone cfg req p e (failed sw s pdrs cause offending) h = tt
  after_fars-IsDone cfg req p e (made sw s _) h =
      after_pdrs-IsDone req p e _
        (create_pdrs-Ends cfg set_unless_zero req.create_fars sw s [] req.create_pdrs h)

  modify_session-IsDone :
      (cfg : Config) (req : ModificationRequest) (sw : Switch folly) (p : ℕ) (s : PfcpSession)
      → HasRoom (length req.create_pdrs) sw
      → IsDone (modify_session cfg req sw p s)
  unfolding modify_session
  modify_session-IsDone cfg req sw p s room =
      let removed_pdrs = remove_pdrs sw.pdr_heap no_errors s.pdrs req.remove_pdrs in
      let removed_fars = remove_fars removed_pdrs.0 s.fars req.remove_fars in
      let s' = record s { pdrs = removed_pdrs.1; fars = removed_fars.1 } in
      let left = create_fars-Leaves sw s' req.create_fars (length req.create_pdrs) room in
      if-both IsDone (not (removed_pdrs.0.cause == request_accepted)) tt (
        if-both IsDone (not (removed_fars.0.cause == request_accepted)) tt
          (after_fars-IsDone cfg req p removed_fars.0 (create_fars sw s' req.create_fars) left))

  handle-IsDone :
      (cfg : Config) (seid : ℕ) (req : ModificationRequest) (sw : Switch folly)
      → HasRoom (length req.create_pdrs) sw
      → IsDone (handle_pfcp_session_modification_request cfg seid req sw)
  unfolding handle_pfcp_session_modification_request
  handle-IsDone cfg seid req sw room = elim (Option-cases (get_pfcp_session_by_up_seid sw seid)) [
    | inl absent ↦ rw (handle_pfcp_session_modification_request, absent) tt
    | inr (p, found) ↦
        rw (handle_pfcp_session_modification_request, found)
          (modify_session-IsDone cfg req sw p
            (set_cp_fseid req.cp_fseid (session_at sw.session_heap p)) room)
  ]

  ended :
      (o : Outcome folly)
      → IsDone o
      → (sw' : Switch folly) × (response : Response) × (o ≡ done sw' response)
  ended (done sw' response) h = (sw', response, refl)
  ended use_after_delete h = absurd h
  ended no_free_uid h = absurd h

  -- While a tunnel identifier is free for each PDR that the request creates, the handler returns,
  -- with a switch and a response.
  pub modification_returns :
      (cfg : Config) (seid : ℕ) (req : ModificationRequest) (sw : Switch folly)
      → length sw.teid_s1u_generator.uid_generated + length req.create_pdrs ≤ 2 ^ 32
      → (sw' : Switch folly) × (response : Response) × (handle_pfcp_session_modification_request cfg
            seid req sw
          ≡ done sw' response)
  modification_returns cfg seid req sw room = ended _ (handle-IsDone cfg seid req sw room)
