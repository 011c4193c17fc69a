-- ===== src/Switch/Validity/Sessions.antt =====
-- Registering, storing and removing sessions keeps the switch valid.
use openair_cn_cups.Common.{
  All-map, Option-cases, zero, suc, ◌≢◌, set, ℕ, ◌<◌, ◌≡◌, refl, sym, ◌∙◌, ap, subst, List, [], ◌∷◌,
  ◌++◌, some, All, All-append, All-set, length, length-set, length-append, get_elem?-append_left,
  get_elem?-append_length, get_elem?-set_self, get_elem?-set_ne, inl, inr, ◌==◌, ◌&&◌, true,
  if-both, arith, eq-or_ne,
}
use openair_cn_cups.Uid.{UintGenerator, count, get_uid}
use openair_cn_cups.Pfcp.Fseid.{Fseid}
use openair_cn_cups.Switch.HashMap.{HashMap, IsHashMap}
use openair_cn_cups.Switch.Far.{access, core}
use openair_cn_cups.Switch.Pdr.{PfcpPdr}
use openair_cn_cups.Switch.Tables.{
  same_fseid, find_fseid, insert_fseid, erase_fseid, PfcpSession, Switch, pdr_at,
  add_pfcp_session_by_up_seid, add_pfcp_session_by_cp_fseid,
}
use openair_cn_cups.Switch.Tables.Entries.{Entries-insert, Entries-erase}
use openair_cn_cups.Switch.Session.{clean_pdr, clean_pdrs}
use openair_cn_cups.Switch.Modification.{session_at, store}
use openair_cn_cups.Switch.Validity.{IsValid, Within}
use openair_cn_cups.Switch.Validity.Rules.{snoc-lt, generated_grows}

session_at-append :
    (heap : List PfcpSession) (s : PfcpSession) (p : ℕ)
    → p < length heap
    → session_at (heap ++ (s ∷ [])) p ≡ session_at heap p
unfolding session_at
session_at-append heap s p lt = rw (session_at, get_elem?-append_left heap (s ∷ []) p lt) refl

pub session_at-append_length :
    (heap : List PfcpSession) (s : PfcpSession) → session_at (heap ++ (s ∷ [])) (length heap) ≡ s
unfolding session_at
session_at-append_length heap s = rw (session_at, get_elem?-append_length heap s) refl

pub session_at-set :
    (heap : List PfcpSession) (p : ℕ) (s : PfcpSession)
    → p < length heap
    → session_at (set heap p s) p ≡ s
unfolding session_at
session_at-set heap p s lt = rw (session_at, get_elem?-set_self heap p s lt) refl

pub session_at-set_ne :
    (heap : List PfcpSession) (p q : ℕ) (s : PfcpSession)
    → p ≢ q
    → session_at (set heap p s) q ≡ session_at heap q
unfolding session_at
session_at-set_ne heap p q s ne = rw (session_at, get_elem?-set_ne heap p q s ne) refl

-- A session in the heap has what all of them have.
pub session_at-All :
    (P : PfcpSession → Type 0) (heap : List PfcpSession) (p : ℕ)
    → p < length heap
    → All P heap
    → P (session_at heap p)
unfolding session_at
session_at-All P [] p lt h = absurd (omega arith)
session_at-All P (s ∷ heap) zero lt h = h.0
session_at-All P (s ∷ heap) (suc p) lt h = session_at-All P heap p (omega arith) h.1

set-seid :
    (heap : List PfcpSession) (p q : ℕ) (s : PfcpSession)
    → q < length heap
    → s.seid ≡ (session_at heap p).seid
    → (session_at (set heap p s) q).seid ≡ (session_at heap q).seid
set-seid heap p q s lt same = elim (eq-or_ne p q) [
  | inr ne ↦ ap (λ (t : PfcpSession). t.seid) (session_at-set_ne heap p q s ne)
  | inl e ↦
      subst (λ i. (session_at (set heap i s) q).seid ≡ (session_at heap q).seid) (sym e)
        (ap (λ (t : PfcpSession). t.seid) (session_at-set heap q s lt)
          ∙ subst (λ i. s.seid ≡ (session_at heap i).seid) e same)
]

insert_fseid-All :
    (P : Fseid × ℕ → Type 0) (k : Fseid) (p : ℕ) (m : List (Fseid × ℕ))
    → P (k, p)
    → All P m
    → All P (insert_fseid k p m)
unfolding insert_fseid
insert_fseid-All P k p m here h = elim (Option-cases (find_fseid k m)) [
  | inl e ↦ rw (insert_fseid, e) (here, h)
  | inr (_, e) ↦ rw (insert_fseid, e) h
]

pub erase_fseid-All :
    (P : Fseid × ℕ → Type 0) (k : Fseid) (m : List (Fseid × ℕ)) → All P m → All P (erase_fseid k m)
unfolding erase_fseid
erase_fseid-All P k [] h = h
erase_fseid-All P k ((j, p) ∷ m) h =
    if-both (All P) (same_fseid k j) (erase_fseid-All P k m h.1) (h.0, erase_fseid-All P k m h.1)

module _ {folly : HashMap} where
  pub seid_generator-IsValid :
      (sw : Switch folly) (seid : ℕ) (g : UintGenerator)
      → get_uid 64 sw.seid_generator ≡ some (seid, g)
      → IsValid sw
      → IsValid (record sw { seid_generator = g })
  seid_generator-IsValid sw seid g e v = record {
    up = λ k p found.
        let old = v.up k p found in
        (old.0, old.1, generated_grows 64 sw.seid_generator g seid k e old.2);
    ul = v.ul;
    dl = v.dl;
    sessions = v.sessions;
    cp = v.cp;
  }

  -- A session stored under the identifier that the one at `p` has.
  pub store-IsValid :
      (p : ℕ) (s : PfcpSession) (sw : Switch folly)
      → s.seid ≡ (session_at sw.session_heap p).seid
      → Within sw.pdr_heap s.pdrs
      → IsValid sw
      → IsValid (store p s sw)
  store-IsValid p s sw same within v = record {
    up = λ k q found.
        let old = v.up k q found in
        (
          omega (arith, old.0, length-set sw.session_heap p s),
          set-seid sw.session_heap p q s old.0 same ∙ old.1,
          old.2,
        );
    ul = v.ul;
    dl = v.dl;
    sessions = All-set _ sw.session_heap p s within v.sessions;
    cp =
        All-map (λ e lt. omega (arith, lt, length-set sw.session_heap p s))
          sw.cp_fseid2pfcp_sessions v.cp;
  }

  pub add_cp-IsValid :
      (fseid : Fseid) (p : ℕ) (sw : Switch folly)
      → p < length sw.session_heap
      → IsValid sw
      → IsValid (add_pfcp_session_by_cp_fseid fseid p sw)
  unfolding add_pfcp_session_by_cp_fseid
  add_cp-IsValid fseid p sw lt v = record {
    up = v.up;
    ul = v.ul;
    dl = v.dl;
    sessions = v.sessions;
    cp = insert_fseid-All _ fseid p sw.cp_fseid2pfcp_sessions lt v.cp;
  }

  -- A new session in the heap, which no table has yet.
  pub new_session-IsValid :
      (s : PfcpSession) (sw : Switch folly)
      → Within sw.pdr_heap s.pdrs
      → IsValid sw
      → IsValid (record sw { session_heap = sw.session_heap ++ (s ∷ []) })
  new_session-IsValid s sw within v = record {
    up = λ k p found.
        let old = v.up k p found in
        (
          omega (arith, old.0, snoc-lt sw.session_heap s, length-append sw.session_heap (s ∷ [])),
          ap (λ (t : PfcpSession). t.seid) (session_at-append sw.session_heap s p old.0) ∙ old.1,
          old.2,
        );
    ul = v.ul;
    dl = v.dl;
    sessions = All-append _ sw.session_heap (s ∷ []) v.sessions (within, tt);
    cp =
        All-map (λ e lt. omega (arith, lt, length-append sw.session_heap (s ∷ [])))
          sw.cp_fseid2pfcp_sessions v.cp;
  }

  clean_pdr-session_heap :
      (pdr : PfcpPdr) (sw : Switch folly) → (clean_pdr pdr sw).session_heap ≡ sw.session_heap
  unfolding clean_pdr
  clean_pdr-session_heap pdr sw =
      let pdi = pdr.pdi.1 in
      let P = λ (sw' : Switch folly). sw'.session_heap ≡ sw.session_heap in
      if-both P (pdr.pdi.0 && pdi.source_interface.0)
        (if-both P (pdi.source_interface.1 == access) (if-both P pdi.local_fteid.0 refl refl) (
          if-both P (pdi.source_interface.1 == core)
            (if-both P (pdi.ue_ip_address.0 && pdi.ue_ip_address.1.v4) refl refl) refl))
        refl

  pub clean_pdrs-session_heap :
      (heap : List PfcpPdr) (ps : List ℕ) (sw : Switch folly)
      → (clean_pdrs heap ps sw).session_heap ≡ sw.session_heap
  unfolding clean_pdrs
  clean_pdrs-session_heap heap [] sw = refl
  clean_pdrs-session_heap heap (p ∷ ps) sw =
      clean_pdrs-session_heap heap ps (clean_pdr (pdr_at heap p) sw)
      ∙ clean_pdr-session_heap (pdr_at heap p) sw

module _ {folly : HashMap} (laws : IsHashMap folly) where
  pub add_up-IsValid :
      (seid p : ℕ) (sw : Switch folly)
      → p < length sw.session_heap
      → (session_at sw.session_heap p).seid ≡ seid
      → count seid sw.seid_generator.uid_generated ≡ true
      → IsValid sw
      → IsValid (add_pfcp_session_by_up_seid seid p sw)
  unfolding add_pfcp_session_by_up_seid
  add_up-IsValid seid p sw lt same used v = record {
    up = Entries-insert laws _ seid p sw.up_seid2pfcp_sessions (lt, same, used) v.up;
    ul = v.ul;
    dl = v.dl;
    sessions = v.sessions;
    cp = v.cp;
  }

  clean_pdr-IsValid : (pdr : PfcpPdr) (sw : Switch folly) → IsValid sw → IsValid (clean_pdr pdr sw)
  unfolding clean_pdr
  clean_pdr-IsValid pdr sw v =
      let pdi = pdr.pdi.1 in
      if-both IsValid (pdr.pdi.0 && pdi.source_interface.0)
        (if-both IsValid (pdi.source_interface.1 == access)
          (if-both IsValid pdi.local_fteid.0
            (record {
              up = v.up;
              ul = Entries-erase laws _ pdi.local_fteid.1.teid sw.ul_s1u_teid2pfcp_pdr v.ul;
              dl = v.dl;
              sessions = v.sessions;
              cp = v.cp;
            })
            v)
          (if-both IsValid (pdi.source_interface.1 == core)
            (if-both IsValid (pdi.ue_ip_address.0 && pdi.ue_ip_address.1.v4)
              (record {
                up = v.up;
                ul = v.ul;
                dl =
                    Entries-erase laws (λ _ ps. Within sw.pdr_heap ps)
                      pdi.ue_ip_address.1.ipv4_address sw.ue_ipv4_hbo2pfcp_pdr v.dl;
                sessions = v.sessions;
                cp = v.cp;
              })
              v)
            v))
        v

  pub clean_pdrs-IsValid :
      (heap : List PfcpPdr) (ps : List ℕ) (sw : Switch folly)
      → IsValid sw
      → IsValid (clean_pdrs heap ps sw)
  unfolding clean_pdrs
  clean_pdrs-IsValid heap [] sw v = v
  clean_pdrs-IsValid heap (p ∷ ps) sw v =
      clean_pdrs-IsValid heap ps (clean_pdr (pdr_at heap p) sw)
        (clean_pdr-IsValid (pdr_at heap p) sw v)

  pub remove_up-IsValid :
      (seid : ℕ) (sw : Switch folly)
      → IsValid sw
      → IsValid (record sw { up_seid2pfcp_sessions = folly.erase seid sw.up_seid2pfcp_sessions })
  remove_up-IsValid seid sw v = record {
    up = Entries-erase laws _ seid sw.up_seid2pfcp_sessions v.up;
    ul = v.ul;
    dl = v.dl;
    sessions = v.sessions;
    cp = v.cp;
  }
