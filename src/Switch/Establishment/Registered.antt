-- ===== src/Switch/Establishment/Registered.antt =====
-- An accepted establishment registers its session under both of its identifiers.
use openair_cn_cups.Common.{
  ℕ, ◌≡◌, refl, ◌∙◌, ap, subst, List, [], Option, none, some, length, inl, inr, ◌==◌, true, false,
  not, if-both, arith, Option-cases, Bool-cases, ==_iff, Bool,
}
use openair_cn_cups.Uid.{UintGenerator, get_uid}
use openair_cn_cups.Uid.Fresh.{get_uid_returned}
use openair_cn_cups.Pfcp.Fseid.{Fseid}
use openair_cn_cups.Switch.HashMap.{HashMap, IsHashMap}
use openair_cn_cups.Switch.Tables.{
  PfcpSession, Switch, Config, call, create_session, add_pfcp_session_by_up_seid, same_fseid,
  same_flag, find_fseid, insert_fseid, add_pfcp_session_by_cp_fseid, issue_seid, generate_seid,
  get_pfcp_session_by_cp_fseid, get_pfcp_session_by_up_seid,
}
use openair_cn_cups.Switch.Session.{request_accepted}
use openair_cn_cups.Switch.Modification.{session_at}
use openair_cn_cups.Switch.Requests.{
  EstablishmentRequest, Response, CreatedPdr, Made, made, failed, always_set,
}
use openair_cn_cups.Switch.Establishment.{
  Outcome, done, use_after_delete, no_free_uid, abandon, register, after_pdrs, after_fars,
  new_session, after_seid, handle_pfcp_session_establishment_request,
}
use openair_cn_cups.Switch.Validity.{IsValid}
use openair_cn_cups.Switch.Validity.Rules.{call-IsValid}
use openair_cn_cups.Switch.Validity.Creation.{
  Progress, OnMade, OnMade?, create_fars-Progress, create_pdrs-Progress,
}
use openair_cn_cups.Switch.Validity.Sessions.{session_at-append_length, seid_generator-IsValid}

same_flag_refl : (b : Bool) → same_flag b b ≡ true
same_flag_refl true = refl
same_flag_refl false = refl

same_fseid_refl : (k : Fseid) → same_fseid k k ≡ true
unfolding same_fseid
same_fseid_refl k = ground (arith, same_flag_refl k.v4, same_flag_refl k.v6)

find-insert_fseid :
    (k : Fseid) (p : ℕ) (m : List (Fseid × ℕ))
    → find_fseid k m ≡ none
    → find_fseid k (insert_fseid k p m) ≡ some p
unfolding insert_fseid find_fseid
find-insert_fseid k p m h = rw (insert_fseid, h, same_fseid_refl k) refl

-- The session of the request, where both tables lead to it.
pub record IsRegistered {folly : HashMap} (req : EstablishmentRequest) (seid : ℕ)
    (sw : Switch folly) : Type 0 where
  pub p : ℕ
  pub by_up_seid : get_pfcp_session_by_up_seid sw seid ≡ some p
  pub by_cp_fseid : get_pfcp_session_by_cp_fseid sw req.cp_fseid.1 ≡ some p
  pub has_seid : (session_at sw.session_heap p).seid ≡ seid
  pub has_cp_fseid : (session_at sw.session_heap p).cp_fseid ≡ req.cp_fseid.1

module _ {folly : HashMap} where
  -- A response that accepts comes with the session registered.
  abbrev Registers : EstablishmentRequest → Outcome folly → Type 0
  Registers req (done sw r) = r.cause ≡ request_accepted → IsRegistered req r.up_fseid.1.seid sw
  Registers req use_after_delete = Unit
  Registers req no_free_uid = Unit

  refused-Registers :
      (req : EstablishmentRequest) (sw : Switch folly) (s : PfcpSession) (pdrs : List CreatedPdr)
      → (cause : ℕ) (offending : Option ℕ) → Registers req (abandon sw s pdrs cause offending)
  unfolding abandon
  refused-Registers req sw s pdrs cause offending = elim (Bool-cases (cause == request_accepted)) [
    | inl e ↦ rw e tt
    | inr e ↦ rw e (λ h. absurd (cc (e, (==_iff cause request_accepted).1 h)))
  ]

module _ {folly : HashMap} (laws : IsHashMap folly) (cfg : Config)
    (req : EstablishmentRequest) where
  register-Registers :
      (sw0 : Switch folly) (s0 : PfcpSession) (sw : Switch folly) (s : PfcpSession)
      → (pdrs : List CreatedPdr) → Progress sw0 s0 sw s
      → s0.cp_fseid ≡ req.cp_fseid.1
      → folly.find s0.seid sw0.up_seid2pfcp_sessions ≡ none
      → find_fseid req.cp_fseid.1 sw0.cp_fseid2pfcp_sessions ≡ none
      → Registers req (register cfg req sw s pdrs)
  unfolding register add_pfcp_session_by_cp_fseid add_pfcp_session_by_up_seid
  register-Registers sw0 s0 sw s pdrs w named up_free cp_free = λ _. record {
    p = length sw.session_heap;
    by_up_seid = laws.find-insert_absent s.seid (length sw.session_heap) sw.up_seid2pfcp_sessions (
        ap (λ m. folly.find s.seid m) w.same_up
        ∙ ap (λ i. folly.find i sw0.up_seid2pfcp_sessions) w.same_seid
        ∙ up_free);
    by_cp_fseid =
        find-insert_fseid req.cp_fseid.1 (length sw.session_heap) sw.cp_fseid2pfcp_sessions
          (ap (λ m. find_fseid req.cp_fseid.1 m) w.same_cp ∙ cp_free);
    has_seid = ap (λ (t : PfcpSession). t.seid) (session_at-append_length sw.session_heap s);
    has_cp_fseid =
        ap (λ (t : PfcpSession). t.cp_fseid) (session_at-append_length sw.session_heap s)
        ∙ w.same_cp_fseid
        ∙ named;
  }

  after_pdrs-Registers :
      (sw0 : Switch folly) (s0 : PfcpSession) (m : Option (Made folly))
      → OnMade? sw0 s0 m
      → s0.cp_fseid ≡ req.cp_fseid.1
      → folly.find s0.seid sw0.up_seid2pfcp_sessions ≡ none
      → find_fseid req.cp_fseid.1 sw0.cp_fseid2pfcp_sessions ≡ none
      → Registers req (after_pdrs cfg req m)
  unfolding after_pdrs
  after_pdrs-Registers sw0 s0 none w named up_free cp_free = tt
  after_pdrs-Registers sw0 s0 (some (failed sw s pdrs cause offending)) w named up_free cp_free =
      refused-Registers req sw s pdrs cause offending
  after_pdrs-Registers sw0 s0 (some (made sw s pdrs)) w named up_free cp_free =
      register-Registers sw0 s0 sw s pdrs w named up_free cp_free

  after_fars-Registers :
      (sw0 : Switch folly) (s0 : PfcpSession) (m : Made folly)
      → OnMade sw0 s0 m
      → s0.cp_fseid ≡ req.cp_fseid.1
      → folly.find s0.seid sw0.up_seid2pfcp_sessions ≡ none
      → find_fseid req.cp_fseid.1 sw0.cp_fseid2pfcp_sessions ≡ none
      → Registers req (after_fars cfg req m)
  unfolding after_fars
  after_fars-Registers sw0 s0 (failed sw s pdrs cause offending) w named up_free cp_free =
      refused-Registers req sw s pdrs cause offending
  after_fars-Registers sw0 s0 (made sw s _) w named up_free cp_free =
      after_pdrs-Registers sw0 s0 _
        (create_pdrs-Progress laws cfg always_set req.create_fars sw s [] req.create_pdrs w) named
        up_free cp_free

  fresh_seid :
      (sw : Switch folly) (seid : ℕ) (g : UintGenerator)
      → get_uid 64 sw.seid_generator ≡ some (seid, g)
      → IsValid sw
      → folly.find seid sw.up_seid2pfcp_sessions ≡ none
  fresh_seid sw seid g e v = elim (Option-cases (folly.find seid sw.up_seid2pfcp_sessions)) [
    | inl free ↦ free
    | inr (p, found) ↦
        let used = (v.up seid p found).2 in
        let unused = (get_uid_returned 64 sw.seid_generator g seid e).1 in
        absurd (ground (arith, used, unused))
  ]

  after_seid-Registers :
      (sw : Switch folly) (r : Option (ℕ × UintGenerator))
      → get_uid 64 sw.seid_generator ≡ r
      → find_fseid req.cp_fseid.1 sw.cp_fseid2pfcp_sessions ≡ none
      → IsValid sw
      → Registers req (after_seid cfg req (issue_seid sw r))
  unfolding after_seid issue_seid
  after_seid-Registers sw none e cp_free v = tt
  after_seid-Registers sw (some (seid, g)) e cp_free v =
      let sw0 : Switch folly = call (create_session seid) (record sw { seid_generator = g }) in
      let s0 = new_session req seid in
      let start : Progress sw0 s0 sw0 s0 = record {
        valid = call-IsValid _ _ (seid_generator-IsValid sw seid g e v);
        pointers = tt;
        same_seid = refl;
        same_cp_fseid = refl;
        same_sessions = refl;
        same_up = refl;
        same_cp = refl;
        same_seids = refl;
      } in
      after_fars-Registers sw0 s0 _ (create_fars-Progress sw0 s0 req.create_fars start) refl
        (fresh_seid sw seid g e v) cp_free

  handle-Registers :
      (sw : Switch folly)
      → IsValid sw
      → Registers req (handle_pfcp_session_establishment_request cfg req sw)
  unfolding handle_pfcp_session_establishment_request generate_seid
  handle-Registers sw v =
      if-both (Registers req) (not req.cp_fseid.0) (λ h. absurd (omega (arith, h)))
        (elim (Option-cases (get_pfcp_session_by_cp_fseid sw req.cp_fseid.1)) [
          | inr (_, e) ↦ rw e (λ h. absurd (omega (arith, h)))
          | inl e ↦ rw e (after_seid-Registers sw _ refl e v)
        ])

  -- When the handler accepts, on a valid switch, both tables lead to one session: that of the
  -- request's control-plane identifier, with the user-plane identifier that the response names.
  pub establishment_registers :
      (sw sw' : Switch folly) (response : Response)
      → IsValid sw
      → handle_pfcp_session_establishment_request cfg req sw ≡ done sw' response
      → response.cause ≡ request_accepted
      → IsRegistered req response.up_fseid.1.seid sw'
  establishment_registers sw sw' response v e accepted =
      subst (Registers req) e (handle-Registers sw v) accepted
