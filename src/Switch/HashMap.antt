-- ===== src/Switch/HashMap.antt =====
-- folly::AtomicHashMap, which is not part of the repository: the operations the switch calls and
-- what its documentation promises of them. `insert` keeps an entry that is there; `assign` is a
-- write through the iterator that `find` returned. Keys are apart from the map's three reserved
-- keys and the map is not full.
use openair_cn_cups.Common.{ℕ, Option, none, some, ◌≡◌, ◌≢◌}

pub record HashMap : Type 1 where
  pub Map : Type 0 → Type 0
  pub empty : {V : Type 0} → Map V
  pub find : {V : Type 0} → ℕ → Map V → Option V
  pub insert : {V : Type 0} → ℕ → V → Map V → Map V
  pub assign : {V : Type 0} → ℕ → V → Map V → Map V
  pub erase : {V : Type 0} → ℕ → Map V → Map V

pub record IsHashMap (folly : HashMap) : Type 1 where
  pub find-empty : {V : Type 0} (k : ℕ) → folly.find k (folly.empty {V = V}) ≡ none
  pub find-insert_absent :
      {V : Type 0} (k : ℕ) (v : V) (m : folly.Map V)
      → folly.find k m ≡ none
      → folly.find k (folly.insert k v m) ≡ some v
  pub find-insert_present :
      {V : Type 0} (k : ℕ) (v w : V) (m : folly.Map V)
      → folly.find k m ≡ some w
      → folly.find k (folly.insert k v m) ≡ some w
  pub find-insert_ne :
      {V : Type 0} (j k : ℕ) (v : V) (m : folly.Map V)
      → j ≢ k
      → folly.find j (folly.insert k v m) ≡ folly.find j m
  pub find-assign :
      {V : Type 0} (k : ℕ) (v w : V) (m : folly.Map V)
      → folly.find k m ≡ some w
      → folly.find k (folly.assign k v m) ≡ some v
  pub find-assign_ne :
      {V : Type 0} (j k : ℕ) (v : V) (m : folly.Map V)
      → j ≢ k
      → folly.find j (folly.assign k v m) ≡ folly.find j m
  pub find-erase : {V : Type 0} (k : ℕ) (m : folly.Map V) → folly.find k (folly.erase k m) ≡ none
  pub find-erase_ne :
      {V : Type 0} (j k : ℕ) (m : folly.Map V)
      → j ≢ k
      → folly.find j (folly.erase k m) ≡ folly.find j m
