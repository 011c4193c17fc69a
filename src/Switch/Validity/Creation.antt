-- ===== src/Switch/Validity/Creation.antt =====
-- The loops over the rules to create keep the switch valid, and leave the sessions and the tables
-- of sessions alone.
use openair_cn_cups.Common.{
  ℕ, ◌≡◌, refl, sym, ◌∙◌, subst, List, [], ◌∷◌, ◌++◌, Option, none, some, All-append, not, length,
  inl, inr, ◌==◌, ◌&&◌, if-both,
}
use openair_cn_cups.Uid.{UintGenerator, get_uid}
use openair_cn_cups.Pfcp.Fteid.{Fteid}
use openair_cn_cups.Switch.HashMap.{HashMap, IsHashMap}
use openair_cn_cups.Switch.Ies.{CreateFar, CreatePdr}
use openair_cn_cups.Switch.Far.{access, core}
use openair_cn_cups.Switch.Tables.{
  issue_fteid, add_pdr, PfcpSession, Switch, Config, call, new_pdr, generate_fteid_s1u,
  add_pfcp_ul_pdr_by_up_teid, add_pfcp_dl_pdr_by_ue_ip, s1u_fteid,
}
use openair_cn_cups.Switch.Session.{
  add_uplink, Created, created, refused, create_far, create_pdr, create_uplink, create_downlink,
  uplink_pdr, downlink_pdr,
}
use openair_cn_cups.Switch.Session.Refusals.{create_far_decides}
use openair_cn_cups.Switch.Requests.{
  Made, made, failed, CreatedPdr, create_fars, create_pdrs, has_create_far,
}
use openair_cn_cups.Switch.Validity.{PfcpPdr, IsValid, Within}
use openair_cn_cups.Switch.Validity.Rules.{
  just_generated, Within-snoc, snoc-lt, call-IsValid, new_pdr-IsValid, teid_generator-IsValid,
  add_ul-IsValid, add_dl-IsValid,
}

-- Where the creation of rules for the session `s0` has got to, from the switch `sw0`.
pub record Progress {folly : HashMap} (sw0 : Switch folly) (s0 : PfcpSession) (sw : Switch folly)
    (s : PfcpSession) : Type 0 where
  pub valid : IsValid sw
  pub pointers : Within sw.pdr_heap s.pdrs
  pub same_seid : s.seid ≡ s0.seid
  pub same_cp_fseid : s.cp_fseid ≡ s0.cp_fseid
  pub same_sessions : sw.session_heap ≡ sw0.session_heap
  pub same_up : sw.up_seid2pfcp_sessions ≡ sw0.up_seid2pfcp_sessions
  pub same_cp : sw.cp_fseid2pfcp_sessions ≡ sw0.cp_fseid2pfcp_sessions
  pub same_seids : sw.seid_generator ≡ sw0.seid_generator

module _ {folly : HashMap} (sw0 : Switch folly) (s0 : PfcpSession) where
  abbrev pub OnCreated : PfcpSession → Created folly → Type 0
  OnCreated s (created sw' s' _) = Progress sw0 s0 sw' s'
  OnCreated s (refused sw' _ _) = Progress sw0 s0 sw' s

  abbrev pub OnCreated? : PfcpSession → Option (Created folly) → Type 0
  OnCreated? s none = Unit
  OnCreated? s (some r) = OnCreated s r

  abbrev pub OnMade : Made folly → Type 0
  OnMade (made sw' s' _) = Progress sw0 s0 sw' s'
  OnMade (failed sw' s' _ _ _) = Progress sw0 s0 sw' s'

  abbrev pub OnMade? : Option (Made folly) → Type 0
  OnMade? none = Unit
  OnMade? (some m) = OnMade m

module _ {folly : HashMap} {sw0 : Switch folly} {s0 : PfcpSession} where
  create_far-Progress :
      (sw : Switch folly) (s : PfcpSession) (c : CreateFar)
      → Progress sw0 s0 sw s
      → OnCreated sw0 s0 s (create_far sw s c)
  create_far-Progress sw s c w = elim (create_far_decides sw s c) [
    | inr (_, (_, _, e)) ↦ subst (OnCreated sw0 s0 s) (sym e) w
    | inl (_, e) ↦ subst (OnCreated sw0 s0 s) (sym e) (record {
      valid = call-IsValid _ sw w.valid;
      pointers = w.pointers;
      same_seid = w.same_seid;
      same_cp_fseid = w.same_cp_fseid;
      same_sessions = w.same_sessions;
      same_up = w.same_up;
      same_cp = w.same_cp;
      same_seids = w.same_seids;
    })
  ]

  fars_step :
      (s : PfcpSession) (cs : List CreateFar) (r : Created folly)
      → OnCreated sw0 s0 s r
      → ((sw' : Switch folly) (s' : PfcpSession)
          → Progress sw0 s0 sw' s'
          → OnMade sw0 s0 (create_fars sw' s' cs))
      → OnMade sw0 s0 (elim r [
        | created sw' s' _ ↦ create_fars sw' s' cs
        | refused sw' cause offending ↦ failed sw' s [] cause offending
      ])
  fars_step s cs (created sw' s' _) w rest = rest sw' s' w
  fars_step s cs (refused sw' cause offending) w rest = w

  pub create_fars-Progress :
      (sw : Switch folly) (s : PfcpSession) (cs : List CreateFar)
      → Progress sw0 s0 sw s
      → OnMade sw0 s0 (create_fars sw s cs)
  unfolding create_fars
  create_fars-Progress sw s [] w = w
  create_fars-Progress sw s (c ∷ cs) w =
      fars_step s cs (create_far sw s c) (create_far-Progress sw s c w)
        (λ sw' s' w'. create_fars-Progress sw' s' cs w')

  -- A rule in the heap, in the table where `place` puts it, and in the session.
  placed-Progress :
      (sw sw1 : Switch folly) (s : PfcpSession) (pdr : PfcpPdr)
      → Progress sw0 s0 sw s
      → IsValid sw1
      → sw1.pdr_heap ≡ sw.pdr_heap ++ (pdr ∷ [])
      → sw1.session_heap ≡ sw.session_heap
      → sw1.up_seid2pfcp_sessions ≡ sw.up_seid2pfcp_sessions
      → sw1.cp_fseid2pfcp_sessions ≡ sw.cp_fseid2pfcp_sessions
      → sw1.seid_generator ≡ sw.seid_generator
      → Progress sw0 s0
          (call (add_pdr s.seid pdr) sw1)
          (record s { pdrs = s.pdrs ++ (length sw.pdr_heap ∷ []) })
  placed-Progress sw sw1 s pdr w v heap sessions up cp seids = record {
    valid = call-IsValid _ sw1 v;
    pointers =
        subst (λ h. Within h (s.pdrs ++ (length sw.pdr_heap ∷ []))) (sym heap)
          (All-append _ s.pdrs (length sw.pdr_heap ∷ [])
            (Within-snoc sw.pdr_heap pdr s.pdrs w.pointers) (snoc-lt sw.pdr_heap pdr, tt));
    same_seid = w.same_seid;
    same_cp_fseid = w.same_cp_fseid;
    same_sessions = sessions ∙ w.same_sessions;
    same_up = up ∙ w.same_up;
    same_cp = cp ∙ w.same_cp;
    same_seids = seids ∙ w.same_seids;
  }

module _ {folly : HashMap} (laws : IsHashMap folly) {sw0 : Switch folly} {s0 : PfcpSession} where
  create_downlink-Progress :
      (sw : Switch folly) (s : PfcpSession) (c : CreatePdr)
      → Progress sw0 s0 sw s
      → OnCreated sw0 s0 s (create_downlink sw s c)
  unfolding create_downlink add_pfcp_dl_pdr_by_ue_ip
  create_downlink-Progress sw s c w =
      let ue = c.pdi.1.ue_ip_address in
      let pdr = downlink_pdr s c in
      if-both (OnCreated sw0 s0 s) (ue.0 && ue.1.v4)
        (placed-Progress sw _ s pdr w
          (add_dl-IsValid laws ue.1.ipv4_address (length sw.pdr_heap) (new_pdr pdr sw)
            (snoc-lt sw.pdr_heap pdr) (new_pdr-IsValid pdr sw w.valid))
          refl refl refl refl refl)
        w

  add_uplink-Progress :
      (cfg : Config) (sw : Switch folly) (s : PfcpSession) (c : CreatePdr)
      → (r : Option (ℕ × UintGenerator)) → get_uid 32 sw.teid_s1u_generator ≡ r
      → Progress sw0 s0 sw s
      → OnCreated? sw0 s0 s (add_uplink s c (issue_fteid cfg sw r))
  unfolding add_uplink issue_fteid add_pfcp_ul_pdr_by_up_teid
  add_uplink-Progress cfg sw s c none e w = tt
  add_uplink-Progress cfg sw s c (some (teid, g)) e w =
      let pdr = uplink_pdr s c (s1u_fteid cfg teid) in
      let sw1 : Switch folly = record sw { teid_s1u_generator = g } in
      placed-Progress sw _ s pdr w
        (add_ul-IsValid laws teid (length sw.pdr_heap) (new_pdr pdr sw1)
          (just_generated 32 sw.teid_s1u_generator g teid e) (snoc-lt sw.pdr_heap pdr)
          (new_pdr-IsValid pdr sw1 (teid_generator-IsValid sw teid g e w.valid)))
        refl refl refl refl refl

  create_uplink-Progress :
      (cfg : Config) (sw : Switch folly) (s : PfcpSession) (c : CreatePdr)
      → Progress sw0 s0 sw s
      → OnCreated? sw0 s0 s (create_uplink cfg sw s c)
  unfolding create_uplink generate_fteid_s1u
  create_uplink-Progress cfg sw s c w =
      if-both (OnCreated? sw0 s0 s) (not c.pdi.1.local_fteid.0) w (
        if-both (OnCreated? sw0 s0 s) (not c.pdi.1.local_fteid.1.ch) w
          (add_uplink-Progress cfg sw s c _ refl w))

  create_pdr-Progress :
      (cfg : Config) (sw : Switch folly) (s : PfcpSession) (c : CreatePdr)
      → Progress sw0 s0 sw s
      → OnCreated? sw0 s0 s (create_pdr cfg sw s c)
  unfolding create_pdr
  create_pdr-Progress cfg sw s c w =
      let P = OnCreated? sw0 s0 s in
      if-both P (not c.pdr_id.0) w (
        if-both P (not c.pdi.0) w (
          if-both P (not c.precedence.0) w (
            if-both P (not c.pdi.1.source_interface.0) w (
              if-both P c.pdi.1.traffic_endpoint_id.0 w (
                if-both P (c.pdi.1.source_interface.1 == access)
                  (create_uplink-Progress cfg sw s c w)
                  (if-both P (c.pdi.1.source_interface.1 == core)
                    (create_downlink-Progress sw s c w) w))))))

  pdrs_step :
      (cfg : Config) (set : CreatePdr → Fteid → CreatedPdr) (fars : List CreateFar)
      → (s : PfcpSession) (pdrs : List CreatedPdr) (c : CreatePdr) (cs : List CreatePdr)
      → (r : Option (Created folly)) → OnCreated? sw0 s0 s r
      → ((sw' : Switch folly) (s' : PfcpSession) (pdrs' : List CreatedPdr)
          → Progress sw0 s0 sw' s'
          → OnMade? sw0 s0 (create_pdrs cfg set fars sw' s' pdrs' cs))
      → OnMade? sw0 s0 (elim r [
        | none ↦ none
        | some (refused sw' cause offending) ↦ some (failed sw' s pdrs cause offending)
        | some (created sw' s' fteid) ↦
            create_pdrs cfg set fars sw' s' (pdrs ++ (set c fteid ∷ [])) cs
      ])
  pdrs_step cfg set fars s pdrs c cs none w rest = tt
  pdrs_step cfg set fars s pdrs c cs (some (refused sw' cause offending)) w rest = w
  pdrs_step cfg set fars s pdrs c cs (some (created sw' s' fteid)) w rest =
      rest sw' s' (pdrs ++ (set c fteid ∷ [])) w

  pub create_pdrs-Progress :
      (cfg : Config) (set : CreatePdr → Fteid → CreatedPdr) (fars : List CreateFar)
      → (sw : Switch folly) (s : PfcpSession) (pdrs : List CreatedPdr) (cs : List CreatePdr)
      → Progress sw0 s0 sw s
      → OnMade? sw0 s0 (create_pdrs cfg set fars sw s pdrs cs)
  unfolding create_pdrs
  create_pdrs-Progress cfg set fars sw s pdrs [] w = w
  create_pdrs-Progress cfg set fars sw s pdrs (c ∷ cs) w =
      if-both (OnMade? sw0 s0) (not c.far_id.0) w (
        if-both (OnMade? sw0 s0) (not (has_create_far c.far_id.1 fars)) w (
          pdrs_step cfg set fars s pdrs c cs (create_pdr cfg sw s c)
            (create_pdr-Progress cfg sw s c w)
            (λ sw' s' pdrs' w'. create_pdrs-Progress cfg set fars sw' s' pdrs' cs w')))
