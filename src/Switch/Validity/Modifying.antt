-- ===== src/Switch/Validity/Modifying.antt =====
-- Modifications, deletions and packets keep the switch valid.
use openair_cn_cups.Common.{
  some-inj, ℕ, ◌<◌, ◌≡◌, refl, sym, ◌∙◌, ap, subst, List, [], ◌∷◌, Option, none, some, length, inl,
  inr, ◌==◌, true, set, if-both, arith, Option-cases, none-ne_some, All, All-map, length-set,
}
use openair_cn_cups.Switch.HashMap.{HashMap}
use openair_cn_cups.Switch.Ies.{Ie, UpdatePdr}
use openair_cn_cups.Switch.Pdr
use openair_cn_cups.Switch.Pdr.{PfcpPdr}
use openair_cn_cups.Switch.Tables.{PfcpSession, Switch, pdr_at}
use openair_cn_cups.Switch.Session.{remove_pdr, update_pdr, get_pdr}
use openair_cn_cups.Switch.Requests.{ModificationRequest, CreatedPdr}
use openair_cn_cups.Switch.Modification.{
  session_at, unknown, Errors, remove_pdrs, update_pdrs, missing, update_rules,
}
use openair_cn_cups.Switch.Validity.{IsValid, Within}
use openair_cn_cups.Switch.Validity.Creation.{Progress}
use openair_cn_cups.Switch.Validity.Sessions.{store-IsValid}
use openair_cn_cups.Switch.Validity.Establishing.{LeavesValid}

-- Removing a rule only shortens the list.
abbrev AllLeft : (ℕ → Type 0) → Option (List ℕ) → Type 0
AllLeft P none = Unit
AllLeft P (some left) = All P left

remove_step :
    (P : ℕ → Type 0) (p : ℕ) (r : Option (List ℕ))
    → P p
    → AllLeft P r
    → AllLeft P (elim r [ none ↦ none | some left ↦ some (p ∷ left) ])
remove_step P p none hp h = tt
remove_step P p (some left) hp h = (hp, h)

remove_pdr-All :
    (P : ℕ → Type 0) (heap : List PfcpPdr) (pdr_id : ℕ) (ps : List ℕ)
    → All P ps
    → AllLeft P (remove_pdr heap pdr_id ps)
unfolding remove_pdr
remove_pdr-All P heap pdr_id [] h = tt
remove_pdr-All P heap pdr_id (p ∷ ps) h =
    if-both (AllLeft P) ((pdr_at heap p).pdr_id == pdr_id) h.1
      (remove_step P p (remove_pdr heap pdr_id ps) h.0 (remove_pdr-All P heap pdr_id ps h.1))

removal_step :
    (P : ℕ → Type 0) (heap : List PfcpPdr) (e : Errors) (ps : List ℕ) (id : ℕ) (rs : List (Ie ℕ))
    → (o : Option (List ℕ)) → All P ps
    → AllLeft P o
    → ((left : List ℕ) → All P left → All P (remove_pdrs heap e left rs).1)
    → All P
        (elim o as (λ _. Errors × List ℕ) [
          | none ↦ (unknown 0 id e, ps)
          | some left ↦ remove_pdrs heap e left rs
        ]).1
removal_step P heap e ps id rs none h _ rest = h
removal_step P heap e ps id rs (some left) h k rest = rest left k

pub remove_pdrs-All :
    (P : ℕ → Type 0) (heap : List PfcpPdr) (e : Errors) (ps : List ℕ) (rs : List (Ie ℕ))
    → All P ps
    → All P (remove_pdrs heap e ps rs).1
unfolding remove_pdrs
remove_pdrs-All P heap e ps [] h = h
remove_pdrs-All P heap e ps (r ∷ rs) h =
    if-both (λ (x : Errors × List ℕ). All P x.1) r.0
      (removal_step P heap e ps r.1 rs (remove_pdr heap r.1 ps) h (remove_pdr-All P heap r.1 ps h)
        (λ left k. remove_pdrs-All P heap e left rs k))
      (remove_pdrs-All P heap (missing 56 e) ps rs h)

-- Updating rules in place keeps the length of the heap.
pdr_heap_step :
    (heap : List PfcpPdr) (s : PfcpSession) (e : Errors) (id : ℕ) (us : List UpdatePdr)
    → (o : Option (List PfcpPdr))
    → ((heap' : List PfcpPdr) → o ≡ some heap' → length heap' ≡ length heap)
    → ((e' : Errors) (heap' : List PfcpPdr) → length (update_pdrs s e' heap' us).1 ≡ length heap')
    → length
        (elim o as (λ _. Errors × List PfcpPdr) [
          | none ↦ update_pdrs s (record e { failed_rule_id = (true, (0, id)) }) heap us
          | some heap' ↦ update_pdrs s e heap' us
        ]).1
      ≡ length heap
pdr_heap_step heap s e id us none same rest = rest _ heap
pdr_heap_step heap s e id us (some heap') same rest = rest e heap' ∙ same heap' refl

length-update_pdr :
    (heap heap' : List PfcpPdr) (u : UpdatePdr) (s : PfcpSession)
    → update_pdr heap u s ≡ some heap'
    → length heap' ≡ length heap
unfolding update_pdr
length-update_pdr heap heap' u s h = elim (Option-cases (get_pdr heap u.pdr_id s.pdrs)) [
  | inl e ↦ absurd (none-ne_some _ (rw (update_pdr, e) refl) h)
  | inr (p, e) ↦
      let new = set heap p (Pdr.update u (pdr_at heap p)) in
      let same : new ≡ heap' = some-inj (sym (rw (update_pdr, e) refl) ∙ h) in
      ap (λ (xs : List PfcpPdr). length xs) (sym same) ∙ length-set heap p _
]

length-update_pdrs :
    (s : PfcpSession) (e : Errors) (heap : List PfcpPdr) (us : List UpdatePdr)
    → length (update_pdrs s e heap us).1 ≡ length heap
unfolding update_pdrs
length-update_pdrs s e heap [] = refl
length-update_pdrs s e heap (u ∷ us) =
    pdr_heap_step heap s e u.pdr_id us (update_pdr heap u s)
      (λ heap' h. length-update_pdr heap heap' u s h) (λ e' heap'. length-update_pdrs s e' heap' us)

module _ {folly : HashMap} where
  -- Rules changed in place.
  pub pdr_heap-IsValid :
      (heap : List PfcpPdr) (sw : Switch folly)
      → length heap ≡ length sw.pdr_heap
      → IsValid sw
      → IsValid (record sw { pdr_heap = heap })
  pdr_heap-IsValid heap sw same v =
      let keep = λ (ps : List ℕ) (h : Within sw.pdr_heap ps).
        All-map {Q = λ p. p < length heap} (λ p lt. omega (arith, lt, same)) ps h in
      record {
        up = v.up;
        ul = λ k ps found. ((v.ul k ps found).0, keep ps (v.ul k ps found).1);
        dl = λ k ps found. keep ps (v.dl k ps found);
        sessions = All-map (λ (s : PfcpSession) h. keep s.pdrs h) sw.session_heap v.sessions;
        cp = v.cp;
      }

  -- The session in work is the one at `p`, by its identifier.
  pub at_p :
      (p : ℕ) (sw0 : Switch folly) (s0 : PfcpSession) (sw : Switch folly) (s : PfcpSession)
      → Progress sw0 s0 sw s
      → s0.seid ≡ (session_at sw0.session_heap p).seid
      → s.seid ≡ (session_at sw.session_heap p).seid
  at_p p sw0 s0 sw s w same =
      w.same_seid ∙ subst (λ h. s0.seid ≡ (session_at h p).seid) (sym w.same_sessions) same

  pub update_rules-LeavesValid :
      (req : ModificationRequest) (p : ℕ) (sw0 : Switch folly) (s0 : PfcpSession)
      → (sw : Switch folly) (s : PfcpSession) (pdrs : List CreatedPdr) (e : Errors)
      → Progress sw0 s0 sw s
      → s0.seid ≡ (session_at sw0.session_heap p).seid
      → LeavesValid (update_rules req p sw s pdrs e)
  unfolding update_rules
  update_rules-LeavesValid req p sw0 s0 sw s pdrs e w same =
      let heap = (update_pdrs s e sw.pdr_heap req.update_pdrs).1 in
      let len = length-update_pdrs s e sw.pdr_heap req.update_pdrs in
      store-IsValid p _ (record sw { pdr_heap = heap }) (at_p p sw0 s0 sw s w same)
        (All-map (λ q lt. omega (arith, lt, len)) s.pdrs w.pointers)
        (pdr_heap-IsValid heap sw len w.valid)
