-- ===== src/Switch/Session/Tunnels.antt =====
-- Each uplink rule gets a tunnel of its own (pfcp_session::create, generate_fteid_s1u and
-- add_pfcp_ul_pdr_by_up_teid).
use openair_cn_cups.Common.{
  ℕ, ◌≡◌, ◌≢◌, ◌<◌, ◌^◌, refl, ◌∙◌, ap, subst, List, [], ◌∷◌, ◌++◌, Option, none, some, inl, inr,
  not, if-both, length, Option-cases, get_elem?-append_length, arith,
}
use openair_cn_cups.Uid.{UintGenerator, get_uid}
use openair_cn_cups.Uid.Fresh.{get_uid_returned}
use openair_cn_cups.Pfcp.Fteid.{Fteid}
use openair_cn_cups.Switch.HashMap.{HashMap, IsHashMap}
use openair_cn_cups.Switch.Ies.{CreatePdr}
use openair_cn_cups.Switch.Pdr.{PfcpPdr}
use openair_cn_cups.Switch.Tables.{
  PfcpSession, Switch, Config, pdr_at, add_pdr_to, issue_fteid, generate_fteid_s1u, s1u_fteid,
  add_pfcp_ul_pdr_by_up_teid,
}
use openair_cn_cups.Switch.Session.{
  Created, created, refused, add_uplink, create_uplink, uplink_pdr,
}
use openair_cn_cups.Switch.Validity.{IsValid}

-- The tunnel of a new rule: unused before, with that rule alone in it afterwards, and every other
-- tunnel as it was.
pub record IsOwnTunnel {folly : HashMap} (sw : Switch folly) (s : PfcpSession) (c : CreatePdr)
    (sw' : Switch folly) (fteid : Fteid) : Type 0 where
  pub p : ℕ
  pub fits : fteid.teid < 2 ^ 32
  pub was_unused : folly.find fteid.teid sw.ul_s1u_teid2pfcp_pdr ≡ none
  pub holds : folly.find fteid.teid sw'.ul_s1u_teid2pfcp_pdr ≡ some (p ∷ [])
  pub is_rule : pdr_at sw'.pdr_heap p ≡ uplink_pdr s c fteid
  pub others :
      (teid : ℕ)
      → teid ≢ fteid.teid
      → folly.find teid sw'.ul_s1u_teid2pfcp_pdr ≡ folly.find teid sw.ul_s1u_teid2pfcp_pdr

pdr_at-append_length :
    (heap : List PfcpPdr) (pdr : PfcpPdr) → pdr_at (heap ++ (pdr ∷ [])) (length heap) ≡ pdr
unfolding pdr_at
pdr_at-append_length heap pdr = rw (pdr_at, get_elem?-append_length heap pdr) refl

module _ {folly : HashMap} (laws : IsHashMap folly) where
  abbrev OwnTunnel? : Switch folly → PfcpSession → CreatePdr → Option (Created folly) → Type 0
  OwnTunnel? sw s c none = Unit
  OwnTunnel? sw s c (some (refused _ _ _)) = Unit
  OwnTunnel? sw s c (some (created sw' _ fteid)) = IsOwnTunnel sw s c sw' fteid

  unused_teid :
      (sw : Switch folly) (teid : ℕ) (g : UintGenerator)
      → get_uid 32 sw.teid_s1u_generator ≡ some (teid, g)
      → IsValid sw
      → folly.find teid sw.ul_s1u_teid2pfcp_pdr ≡ none
  unused_teid sw teid g e v = elim (Option-cases (folly.find teid sw.ul_s1u_teid2pfcp_pdr)) [
    | inl free ↦ free
    | inr (ps, found) ↦
        let used = (v.ul teid ps found).0 in
        let unused = (get_uid_returned 32 sw.teid_s1u_generator g teid e).1 in
        absurd (ground (arith, used, unused))
  ]

  add_uplink-OwnTunnel :
      (cfg : Config) (sw : Switch folly) (s : PfcpSession) (c : CreatePdr)
      → (r : Option (ℕ × UintGenerator)) → get_uid 32 sw.teid_s1u_generator ≡ r
      → IsValid sw
      → OwnTunnel? sw s c (add_uplink s c (issue_fteid cfg sw r))
  unfolding add_uplink issue_fteid add_pfcp_ul_pdr_by_up_teid add_pdr_to
  add_uplink-OwnTunnel cfg sw s c none e v = tt
  add_uplink-OwnTunnel cfg sw s c (some (teid, g)) e v =
      let free = unused_teid sw teid g e v in
      let p = length sw.pdr_heap in
      let m = sw.ul_s1u_teid2pfcp_pdr in
      let pdr = uplink_pdr s c (s1u_fteid cfg teid) in
      let inserted : add_pdr_to folly (sw.pdr_heap ++ (pdr ∷ [])) teid p m
          ≡ folly.insert teid (p ∷ []) m =
        rw (add_pdr_to, free) refl in
      record {
        p = p;
        fits = (get_uid_returned 32 sw.teid_s1u_generator g teid e).0;
        was_unused = free;
        holds = ap (folly.find teid) inserted ∙ laws.find-insert_absent teid (p ∷ []) m free;
        is_rule = pdr_at-append_length sw.pdr_heap pdr;
        others = λ other ne.
            ap (folly.find other) inserted ∙ laws.find-insert_ne other teid (p ∷ []) m ne;
      }

  create_uplink-OwnTunnel :
      (cfg : Config) (sw : Switch folly) (s : PfcpSession) (c : CreatePdr)
      → IsValid sw
      → OwnTunnel? sw s c (create_uplink cfg sw s c)
  unfolding create_uplink generate_fteid_s1u
  create_uplink-OwnTunnel cfg sw s c v =
      if-both (OwnTunnel? sw s c) (not c.pdi.1.local_fteid.0) tt (
        if-both (OwnTunnel? sw s c) (not c.pdi.1.local_fteid.1.ch) tt
          (add_uplink-OwnTunnel cfg sw s c _ refl v))

  -- An uplink rule created on a valid switch gets a 32-bit tunnel that no rule used, in which
  -- it is the only one, and no other tunnel changes.
  pub uplink_gets-IsOwnTunnel :
      (cfg : Config) (sw sw' : Switch folly) (s s' : PfcpSession) (c : CreatePdr) (fteid : Fteid)
      → IsValid sw
      → create_uplink cfg sw s c ≡ some (created sw' s' fteid)
      → IsOwnTunnel sw s c sw' fteid
  uplink_gets-IsOwnTunnel cfg sw sw' s s' c fteid v e =
      subst (OwnTunnel? sw s c) e (create_uplink-OwnTunnel cfg sw s c v)
