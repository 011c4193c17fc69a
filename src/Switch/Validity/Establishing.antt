-- ===== src/Switch/Validity/Establishing.antt =====
-- An establishment keeps the switch valid, and the session it accepts can be found.
use openair_cn_cups.Common.{
  ℕ, ◌≡◌, refl, sym, ap, subst, List, [], Option, none, some, length, inl, inr, ◌==◌, true, not,
  if-both, Option-cases,
}
use openair_cn_cups.Uid.{UintGenerator, count, get_uid}
use openair_cn_cups.Switch.HashMap.{HashMap, IsHashMap}
use openair_cn_cups.Switch.Tables.{
  PfcpSession, Switch, Config, call, create_session, add_pfcp_session_by_cp_fseid, issue_seid,
  generate_seid, get_pfcp_session_by_cp_fseid,
}
use openair_cn_cups.Switch.Session.{request_accepted}
use openair_cn_cups.Switch.Requests.{
  EstablishmentRequest, CreatedPdr, Made, made, failed, always_set,
}
use openair_cn_cups.Switch.Establishment.{
  Outcome, done, use_after_delete, no_free_uid, abandon, register, after_pdrs, after_fars,
  new_session, after_seid, handle_pfcp_session_establishment_request,
}
use openair_cn_cups.Switch.Validity.{IsValid}
use openair_cn_cups.Switch.Validity.Rules.{snoc-lt, call-IsValid, just_generated}
use openair_cn_cups.Switch.Validity.Creation.{
  Progress, OnMade, OnMade?, create_fars-Progress, create_pdrs-Progress,
}
use openair_cn_cups.Switch.Validity.Sessions.{
  session_at-append_length, seid_generator-IsValid, add_cp-IsValid, new_session-IsValid,
  add_up-IsValid, clean_pdrs-IsValid,
}

module _ {folly : HashMap} where
  -- The switch that a handler leaves is valid.
  abbrev pub LeavesValid : Outcome folly → Type 0
  LeavesValid (done sw _) = IsValid sw
  LeavesValid use_after_delete = Unit
  LeavesValid no_free_uid = Unit

module _ {folly : HashMap} (laws : IsHashMap folly) (cfg : Config)
    (req : EstablishmentRequest) where
  abandon-LeavesValid :
      (sw : Switch folly) (s : PfcpSession) (pdrs : List CreatedPdr) (cause : ℕ)
      → (offending : Option ℕ) → IsValid sw
      → LeavesValid (abandon sw s pdrs cause offending)
  unfolding abandon
  abandon-LeavesValid sw s pdrs cause offending v =
      if-both LeavesValid (cause == request_accepted) tt
        (clean_pdrs-IsValid laws sw.pdr_heap s.pdrs sw v)

  register-LeavesValid :
      (sw0 : Switch folly) (s0 : PfcpSession) (sw : Switch folly) (s : PfcpSession)
      → (pdrs : List CreatedPdr) → Progress sw0 s0 sw s
      → count s0.seid sw0.seid_generator.uid_generated ≡ true
      → LeavesValid (register cfg req sw s pdrs)
  unfolding register add_pfcp_session_by_cp_fseid
  register-LeavesValid sw0 s0 sw s pdrs w used = call-IsValid _ _ (
      add_up-IsValid laws s.seid (length sw.session_heap) _ (snoc-lt sw.session_heap s)
        (ap (λ (t : PfcpSession). t.seid) (session_at-append_length sw.session_heap s))
        (subst (λ (g : UintGenerator). count s.seid g.uid_generated ≡ true) (sym w.same_seids)
          (subst (λ i. count i sw0.seid_generator.uid_generated ≡ true) (sym w.same_seid) used))
        (add_cp-IsValid req.cp_fseid.1 (length sw.session_heap) _ (snoc-lt sw.session_heap s)
          (new_session-IsValid s sw w.pointers w.valid)))

  after_pdrs-LeavesValid :
      (sw0 : Switch folly) (s0 : PfcpSession) (m : Option (Made folly))
      → OnMade? sw0 s0 m
      → count s0.seid sw0.seid_generator.uid_generated ≡ true
      → LeavesValid (after_pdrs cfg req m)
  unfolding after_pdrs
  after_pdrs-LeavesValid sw0 s0 none w used = tt
  after_pdrs-LeavesValid sw0 s0 (some (failed sw s pdrs cause offending)) w used =
      abandon-LeavesValid sw s pdrs cause offending w.valid
  after_pdrs-LeavesValid sw0 s0 (some (made sw s pdrs)) w used =
      register-LeavesValid sw0 s0 sw s pdrs w used

  after_fars-LeavesValid :
      (sw0 : Switch folly) (s0 : PfcpSession) (m : Made folly)
      → OnMade sw0 s0 m
      → count s0.seid sw0.seid_generator.uid_generated ≡ true
      → LeavesValid (after_fars cfg req m)
  unfolding after_fars
  after_fars-LeavesValid sw0 s0 (failed sw s pdrs cause offending) w used =
      abandon-LeavesValid sw s pdrs cause offending w.valid
  after_fars-LeavesValid sw0 s0 (made sw s pdrs) w used =
      after_pdrs-LeavesValid sw0 s0 _
        (create_pdrs-Progress laws cfg always_set req.create_fars sw s [] req.create_pdrs w) used

  after_seid-LeavesValid :
      (sw : Switch folly) (r : Option (ℕ × UintGenerator))
      → get_uid 64 sw.seid_generator ≡ r
      → IsValid sw
      → LeavesValid (after_seid cfg req (issue_seid sw r))
  unfolding after_seid issue_seid
  after_seid-LeavesValid sw none e v = tt
  after_seid-LeavesValid sw (some (seid, g)) e v =
      let sw0 : Switch folly = call (create_session seid) (record sw { seid_generator = g }) in
      let s0 = new_session req seid in
      let start : Progress sw0 s0 sw0 s0 = record {
        valid = call-IsValid _ _ (seid_generator-IsValid sw seid g e v);
        pointers = tt;
        same_seid = refl;
        same_cp_fseid = refl;
        same_sessions = refl;
        same_up = refl;
        same_cp = refl;
        same_seids = refl;
      } in
      after_fars-LeavesValid sw0 s0 _ (create_fars-Progress sw0 s0 req.create_fars start)
        (just_generated 64 sw.seid_generator g seid e)

  -- The establishment handler keeps the switch valid, whatever the request.
  pub establishment-IsValid :
      (sw : Switch folly)
      → IsValid sw
      → LeavesValid (handle_pfcp_session_establishment_request cfg req sw)
  unfolding handle_pfcp_session_establishment_request generate_seid
  establishment-IsValid sw v =
      if-both LeavesValid (not req.cp_fseid.0) v
        (elim (Option-cases (get_pfcp_session_by_cp_fseid sw req.cp_fseid.1)) [
          | inr (_, e) ↦ rw e v
          | inl e ↦ rw e (after_seid-LeavesValid sw _ refl v)
        ])
