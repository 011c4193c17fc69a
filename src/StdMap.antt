-- ===== src/StdMap.antt =====
-- std::map on numbers: a list of entries with one for each key, of which only lookups are read.
pub mod Laws
use openair_cn_cups.Common.{ℕ, ◌==◌, if◌then◌else◌, List, [], ◌∷◌, Option, none, some}

abbrev pub Map {ℓ} : Type ℓ → Type ℓ
Map V = List (ℕ × V)

module _ {ℓ} {V : Type ℓ} where
  unfoldable pub find : ℕ → Map V → Option V
  find k [] = none
  find k ((j, v) ∷ m) = let rest = find k m in if k == j then some v else rest

  -- insert keeps the entry of a key that is there.
  unfoldable pub insert : ℕ → V → Map V → Map V
  unfolding find
  insert k v m = elim (find k m) [ none ↦ (k, v) ∷ m | some _ ↦ m ]

  unfoldable pub erase : ℕ → Map V → Map V
  erase k [] = []
  erase k ((j, v) ∷ m) = let rest = erase k m in if k == j then rest else (j, v) ∷ rest

  -- operator[] and a write through the iterator that find returned: the entry of the key is
  -- overwritten, or made.
  unfoldable pub assign : ℕ → V → Map V → Map V
  assign k v [] = (k, v) ∷ []
  assign k v ((j, w) ∷ m) = let rest = assign k v m in if k == j then (k, v) ∷ m else (j, w) ∷ rest
