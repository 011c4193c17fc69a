-- ===== src/Switch/Tables/Precedence.antt =====
-- The order of the rules of a tunnel or of a user's address (the loops of
-- add_pfcp_ul_pdr_by_up_teid and add_pfcp_dl_pdr_by_ue_ip).
use openair_cn_cups.Common.{
  ℕ, ◌≡◌, ◌≤◌, ◌<◌, refl, ap, ◌⊎◌, inl, inr, List, [], ◌∷◌, ◌++◌, All, All-map, ltb, ltb→lt,
  not-ltb→le, Bool-cases, arith,
}
use openair_cn_cups.Switch.Pdr.{PfcpPdr}
use openair_cn_cups.Switch.Tables.{pdr_at, insert_sorted}

abbrev pub precedence_at : List PfcpPdr → ℕ → ℕ
precedence_at heap p = (pdr_at heap p).precedence.1

-- The precedence values never grow along the list.
abbrev pub IsDescending : List PfcpPdr → List ℕ → Type 0
IsDescending heap [] = Unit
IsDescending heap (q ∷ qs) =
    All (λ r. precedence_at heap r ≤ precedence_at heap q) qs × IsDescending heap qs

-- The new rule is dropped when every rule that is there has a precedence value at least its own.
pub insert_sorted_drops :
    (heap : List PfcpPdr) (p : ℕ) (qs : List ℕ)
    → All (λ q. precedence_at heap p ≤ precedence_at heap q) qs
    → insert_sorted heap p qs ≡ qs
unfolding insert_sorted
insert_sorted_drops heap p [] h = refl
insert_sorted_drops heap p (q ∷ qs) h =
    let rest = insert_sorted_drops heap p qs h.1 in let here = h.0 in rw rest (ground arith)

-- Adding a rule to the list of a tunnel or an address: if no rule of the list has a smaller
-- precedence value, the list stays as it is, and the rule is not added; otherwise the rule
-- stands in front of the first one with a smaller value, and all others are kept in their
-- order.
pub insert_sorted_lem :
    (heap : List PfcpPdr) (p : ℕ) (qs : List ℕ)
    → (All (λ q. precedence_at heap p ≤ precedence_at heap q) qs × (insert_sorted heap p qs ≡ qs))
      ⊎ ((front : List ℕ) × (q : ℕ) × (back : List ℕ) × (qs ≡ front ++ (q ∷ back))
          × All (λ r. precedence_at heap p ≤ precedence_at heap r) front
          × (precedence_at heap q < precedence_at heap p)
          × (insert_sorted heap p qs ≡ front ++ (p ∷ (q ∷ back))))
unfolding insert_sorted
insert_sorted_lem heap p [] = inl (tt, refl)
insert_sorted_lem heap p (q ∷ qs) =
    elim (Bool-cases (ltb (precedence_at heap q) (precedence_at heap p))) [
      | inl l ↦ inr ([], q, qs, refl, tt, ltb→lt _ _ l, rw l refl)
      | inr l ↦ elim (insert_sorted_lem heap p qs) [
        | inl (all, same) ↦ inl ((not-ltb→le _ _ l, all), rw l (ap (λ xs. q ∷ xs) same))
        | inr (front, r, back, split, all, less, same) ↦ inr (
          q ∷ front,
          r,
          back,
          ap (λ xs. q ∷ xs) split,
          (not-ltb→le _ _ l, all),
          less,
          rw l (ap (λ xs. q ∷ xs) same),
        )
      ]
    ]

insert_sorted-All :
    (heap : List PfcpPdr) (p n : ℕ) (qs : List ℕ)
    → precedence_at heap p ≤ n
    → All (λ r. precedence_at heap r ≤ n) qs
    → All (λ r. precedence_at heap r ≤ n) (insert_sorted heap p qs)
unfolding insert_sorted
insert_sorted-All heap p n [] h all = tt
insert_sorted-All heap p n (q ∷ qs) h all =
    elim (Bool-cases (ltb (precedence_at heap q) (precedence_at heap p))) [
      | inl l ↦ rw l (h, all)
      | inr l ↦ rw l (all.0, insert_sorted-All heap p n qs h all.1)
    ]

-- A list of rules in descending order of precedence value stays in that order when a rule is
-- added.
pub insert_sorted-IsDescending :
    (heap : List PfcpPdr) (p : ℕ) (qs : List ℕ)
    → IsDescending heap qs
    → IsDescending heap (insert_sorted heap p qs)
unfolding insert_sorted
insert_sorted-IsDescending heap p [] h = tt
insert_sorted-IsDescending heap p (q ∷ qs) h =
    elim (Bool-cases (ltb (precedence_at heap q) (precedence_at heap p))) [
      | inl l ↦
          let less = ltb→lt _ _ l in
          rw l (
            (
              omega arith,
              All-map (λ r (e : precedence_at heap r ≤ precedence_at heap q). omega arith) qs h.0,
            ),
            h,
          )
      | inr l ↦ rw l (
        insert_sorted-All heap p _ qs (not-ltb→le _ _ l) h.0,
        insert_sorted-IsDescending heap p qs h.1,
      )
    ]
