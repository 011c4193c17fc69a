-- ===== src/Switch/Tables/Entries.antt =====
-- What holds of every entry of a table of the switch, and how the operations keep it.
use openair_cn_cups.Common.{
  eq-or_ne, ℕ, ◌≡◌, refl, sym, ◌∙◌, subst, inl, inr, List, [], ◌∷◌, some, All, Option-cases,
  some-inj, none-ne_some, if-both,
}
use openair_cn_cups.Switch.HashMap.{HashMap, IsHashMap}
use openair_cn_cups.Switch.Pdr.{PfcpPdr, precedes}
use openair_cn_cups.Switch.Tables.{pdr_at, insert_sorted, add_pdr_to}

-- P holds of every entry.
abbrev pub Entries : (folly : HashMap) {V : Type 0} → (ℕ → V → Type 0) → folly.Map V → Type 0
Entries folly {V = V} P m = (k : ℕ) (v : V) → folly.find k m ≡ some v → P k v

pub insert_sorted-All :
    (P : ℕ → Type 0) (heap : List PfcpPdr) (p : ℕ) (qs : List ℕ)
    → P p
    → All P qs
    → All P (insert_sorted heap p qs)
unfolding insert_sorted
insert_sorted-All P heap p [] hp h = tt
insert_sorted-All P heap p (q ∷ qs) hp h =
    if-both (All P) (precedes (pdr_at heap q) (pdr_at heap p)) (hp, h)
      (h.0, insert_sorted-All P heap p qs hp h.1)

module _ {folly : HashMap} (laws : IsHashMap folly) where
  pub Entries-empty : {V : Type 0} (P : ℕ → V → Type 0) → Entries folly P (folly.empty {V = V})
  Entries-empty P k v h = absurd (none-ne_some _ (laws.find-empty k) h)

  -- An entry that the operation wrote, at the key or elsewhere.
  move :
      {V : Type 0} (P : ℕ → V → Type 0) {j k : ℕ} {v w : V}
      → j ≡ k
      → some v ≡ some w
      → P k v
      → P j w
  move P {k = k} {w = w} same e h =
      subst (λ i. P i w) (sym same) (subst (λ u. P k u) (some-inj e) h)

  pub Entries-insert :
      {V : Type 0} (P : ℕ → V → Type 0) (k : ℕ) (v : V) (m : folly.Map V)
      → P k v
      → Entries folly P m
      → Entries folly P (folly.insert k v m)
  Entries-insert P k v m hk h j w e = elim (eq-or_ne j k) [
    | inr ne ↦ h j w (sym (laws.find-insert_ne j k v m ne) ∙ e)
    | inl same ↦
        let at = subst (λ i. folly.find i (folly.insert k v m) ≡ some w) same e in
        elim (Option-cases (folly.find k m)) [
          | inl free ↦ move P same (sym (laws.find-insert_absent k v m free) ∙ at) hk
          | inr (u, used) ↦
              move P same (sym (laws.find-insert_present k v u m used) ∙ at) (h k u used)
        ]
  ]

  Entries-assign :
      {V : Type 0} (P : ℕ → V → Type 0) (k : ℕ) (v u : V) (m : folly.Map V)
      → folly.find k m ≡ some u
      → P k v
      → Entries folly P m
      → Entries folly P (folly.assign k v m)
  Entries-assign P k v u m used hk h j w e = elim (eq-or_ne j k) [
    | inr ne ↦ h j w (sym (laws.find-assign_ne j k v m ne) ∙ e)
    | inl same ↦
        let at = subst (λ i. folly.find i (folly.assign k v m) ≡ some w) same e in
        move P same (sym (laws.find-assign k v u m used) ∙ at) hk
  ]

  pub Entries-erase :
      {V : Type 0} (P : ℕ → V → Type 0) (k : ℕ) (m : folly.Map V)
      → Entries folly P m
      → Entries folly P (folly.erase k m)
  Entries-erase P k m h j w e = elim (eq-or_ne j k) [
    | inr ne ↦ h j w (sym (laws.find-erase_ne j k m ne) ∙ e)
    | inl same ↦ absurd (
        none-ne_some _ (laws.find-erase k m)
          (subst (λ i. folly.find i (folly.erase k m) ≡ some w) same e))
  ]

  pub Entries-add_pdr_to :
      (P : ℕ → List ℕ → Type 0) (heap : List PfcpPdr) (k p : ℕ) (m : folly.Map (List ℕ))
      → P k (p ∷ [])
      → ((ps : List ℕ) → P k ps → P k (insert_sorted heap p ps))
      → Entries folly P m
      → Entries folly P (add_pdr_to folly heap k p m)
  unfolding add_pdr_to
  Entries-add_pdr_to P heap k p m new grow h = elim (Option-cases (folly.find k m)) [
    | inl free ↦
        subst (Entries folly P) (sym (rw (add_pdr_to, free) refl))
          (Entries-insert P k (p ∷ []) m new h)
    | inr (ps, used) ↦
        subst (Entries folly P) (sym (rw (add_pdr_to, used) refl))
          (Entries-assign P k (insert_sorted heap p ps) ps m used (grow ps (h k ps used)) h)
  ]
