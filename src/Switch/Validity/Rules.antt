-- ===== src/Switch/Validity/Rules.antt =====
-- Creating the rules of a session keeps the switch valid.
use openair_cn_cups.Common.{
  ℕ, ◌<◌, ◌≡◌, List, [], ◌∷◌, ◌++◌, some, All-map, length, length-append, arith, true,
}
use openair_cn_cups.Uid.{UintGenerator, count, get_uid}
use openair_cn_cups.Uid.Fresh.{get_uid_returned}
use openair_cn_cups.Switch.HashMap.{HashMap, IsHashMap}
use openair_cn_cups.Switch.Pdr.{PfcpPdr}
use openair_cn_cups.Switch.Tables.{
  PfcpSession, Switch, Call, call, new_pdr, add_pfcp_ul_pdr_by_up_teid, add_pfcp_dl_pdr_by_ue_ip,
}
use openair_cn_cups.Switch.Tables.Entries.{Entries-add_pdr_to, insert_sorted-All}
use openair_cn_cups.Switch.Validity.{IsValid, Within}

pub Within-snoc :
    {A : Type 0} (heap : List A) (a : A) (ps : List ℕ)
    → Within heap ps
    → Within (heap ++ (a ∷ [])) ps
Within-snoc heap a ps h = All-map (λ p lt. omega (arith, lt, length-append heap (a ∷ []))) ps h

pub snoc-lt : {A : Type 0} (heap : List A) (a : A) → length heap < length (heap ++ (a ∷ []))
snoc-lt heap a = omega (arith, length-append heap (a ∷ []))

pub generated_grows :
    (w : ℕ) (g g' : UintGenerator) (uid x : ℕ)
    → get_uid w g ≡ some (uid, g')
    → count x g.uid_generated ≡ true
    → count x g'.uid_generated ≡ true
generated_grows w g g' uid x e h = let after = (get_uid_returned w g g' uid e).2 x in ground arith

pub just_generated :
    (w : ℕ) (g g' : UintGenerator) (uid : ℕ)
    → get_uid w g ≡ some (uid, g')
    → count uid g'.uid_generated ≡ true
just_generated w g g' uid e = let after = (get_uid_returned w g g' uid e).2 uid in ground arith

module _ {folly : HashMap} where
  pub call-IsValid : (c : Call) (sw : Switch folly) → IsValid sw → IsValid (call c sw)
  call-IsValid c sw v = record { up = v.up; ul = v.ul; dl = v.dl; sessions = v.sessions; cp = v.cp }

  pub new_pdr-IsValid : (pdr : PfcpPdr) (sw : Switch folly) → IsValid sw → IsValid (new_pdr pdr sw)
  new_pdr-IsValid pdr sw v = record {
    up = v.up;
    ul = λ k ps e. ((v.ul k ps e).0, Within-snoc sw.pdr_heap pdr ps (v.ul k ps e).1);
    dl = λ k ps e. Within-snoc sw.pdr_heap pdr ps (v.dl k ps e);
    sessions =
        All-map (λ (s : PfcpSession) h. Within-snoc sw.pdr_heap pdr s.pdrs h) sw.session_heap
          v.sessions;
    cp = v.cp;
  }

  pub teid_generator-IsValid :
      (sw : Switch folly) (teid : ℕ) (g : UintGenerator)
      → get_uid 32 sw.teid_s1u_generator ≡ some (teid, g)
      → IsValid sw
      → IsValid (record sw { teid_s1u_generator = g })
  teid_generator-IsValid sw teid g e v = record {
    up = v.up;
    ul = λ k ps found.
        let old = v.ul k ps found in
        (generated_grows 32 sw.teid_s1u_generator g teid k e old.0, old.1);
    dl = v.dl;
    sessions = v.sessions;
    cp = v.cp;
  }

module _ {folly : HashMap} (laws : IsHashMap folly) where
  pub add_ul-IsValid :
      (teid p : ℕ) (sw : Switch folly)
      → count teid sw.teid_s1u_generator.uid_generated ≡ true
      → p < length sw.pdr_heap
      → IsValid sw
      → IsValid (add_pfcp_ul_pdr_by_up_teid teid p sw)
  unfolding add_pfcp_ul_pdr_by_up_teid
  add_ul-IsValid teid p sw used lt v = record {
    up = v.up;
    ul =
        Entries-add_pdr_to laws _ sw.pdr_heap teid p sw.ul_s1u_teid2pfcp_pdr (used, (lt, tt))
          (λ ps h. (h.0, insert_sorted-All _ sw.pdr_heap p ps lt h.1)) v.ul;
    dl = v.dl;
    sessions = v.sessions;
    cp = v.cp;
  }

  pub add_dl-IsValid :
      (ue_ip p : ℕ) (sw : Switch folly)
      → p < length sw.pdr_heap
      → IsValid sw
      → IsValid (add_pfcp_dl_pdr_by_ue_ip ue_ip p sw)
  unfolding add_pfcp_dl_pdr_by_ue_ip
  add_dl-IsValid ue_ip p sw lt v = record {
    up = v.up;
    ul = v.ul;
    dl =
        Entries-add_pdr_to laws (λ _ ps. Within sw.pdr_heap ps) sw.pdr_heap ue_ip p
          sw.ue_ipv4_hbo2pfcp_pdr (lt, tt) (λ ps h. insert_sorted-All _ sw.pdr_heap p ps lt h) v.dl;
    sessions = v.sessions;
    cp = v.cp;
  }
