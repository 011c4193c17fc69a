-- ===== src/StdMap/Laws.antt =====
-- What a lookup finds after each operation.
use openair_cn_cups.Common.{
  suc, length, none-ne_some, ◌≢◌, ℕ, ◌≡◌, refl, sym, ◌∙◌, subst, ◌==◌, ==_ne, eq-or_ne,
  if◌then◌else◌, [], ◌∷◌, Option, none, some, arith, Option-cases, inl, inr,
}
use openair_cn_cups.StdMap.{Map, find, insert, erase, assign}

module _ {ℓ} {V : Type ℓ} where
  pub find-erase : (j k : ℕ) (m : Map V) → find j (erase k m) ≡ (if j == k then none else find j m)
  unfolding find erase
  find-erase j k [] = ground arith
  find-erase j k ((i, v) ∷ m) = ground (arith, find-erase j k m)

  pub find-assign :
      (j k : ℕ) (v : V) (m : Map V) → find j (assign k v m) ≡ (if j == k then some v else find j m)
  unfolding find assign
  find-assign j k v [] = refl
  find-assign j k v ((i, w) ∷ m) = ground (arith, find-assign j k v m)

  -- A key that is there is overwritten in its place.
  pub length-assign :
      (k : ℕ) (v w : V) (m : Map V) → find k m ≡ some w → length (assign k v m) ≡ length m
  unfolding find assign
  length-assign k v w [] e = absurd (none-ne_some none refl e)
  length-assign k v w ((i, u) ∷ m) e = ground (arith, length-assign k v w m)

  pub length-assign_absent :
      (k : ℕ) (v : V) (m : Map V) → find k m ≡ none → length (assign k v m) ≡ suc (length m)
  unfolding find assign
  length-assign_absent k v [] e = refl
  length-assign_absent k v ((i, u) ∷ m) e = ground (arith, length-assign_absent k v m)

  -- Whether the key was there, and what was there, stays as it was.
  pub find-insert :
      (j k : ℕ) (v : V) (m : Map V)
      → find j (insert k v m)
        ≡ (if j == k then elim (find k m) [ none ↦ some v | some w ↦ some w ] else find j m)
  unfolding find insert
  find-insert j k v m = ground arith

  pub find-insert_absent :
      (k : ℕ) (v : V) (m : Map V) → find k m ≡ none → find k (insert k v m) ≡ some v
  find-insert_absent k v m e = ground (arith, find-insert k k v m)

  pub find-insert_present :
      (j k : ℕ) (v w : V) (m : Map V) → find j m ≡ some w → find j (insert k v m) ≡ some w
  find-insert_present j k v w m e = ground (arith, find-insert j k v m)

  -- What holds of all that a lookup may find after an operation.
  pub insert-both {κ} :
      (P : Option V → Type κ) (j k : ℕ) (v : V) (m : Map V)
      → (j ≡ k → find j m ≡ none → P (some v))
      → P (find j m)
      → P (find j (insert k v m))
  insert-both P j k v m new old = elim (eq-or_ne j k) [
    | inr ne ↦ subst P (sym (find-insert j k v m ∙ rw (==_ne j k ne) refl)) old
    | inl same ↦ elim (Option-cases (find j m)) [
      | inl absent ↦ subst P (sym (ground (arith, find-insert j k v m))) (new same absent)
      | inr (w, present) ↦ subst P (present ∙ sym (find-insert_present j k v w m present)) old
    ]
  ]

  pub erase-both {κ} :
      (P : Option V → Type κ) (j k : ℕ) (m : Map V)
      → (j ≡ k → P none)
      → (j ≢ k → P (find j m))
      → P (find j (erase k m))
  erase-both P j k m gone old = elim (eq-or_ne j k) [
    | inl same ↦ subst P (sym (ground (arith, find-erase j k m))) (gone same)
    | inr ne ↦ subst P (sym (find-erase j k m ∙ rw (==_ne j k ne) refl)) (old ne)
  ]

  pub assign-both {κ} :
      (P : Option V → Type κ) (j k : ℕ) (v : V) (m : Map V)
      → (j ≡ k → P (some v))
      → (j ≢ k → P (find j m))
      → P (find j (assign k v m))
  assign-both P j k v m new old = elim (eq-or_ne j k) [
    | inl same ↦ subst P (sym (ground (arith, find-assign j k v m))) (new same)
    | inr ne ↦ subst P (sym (find-assign j k v m ∙ rw (==_ne j k ne) refl)) (old ne)
  ]
