-- ===== src/Switch/FunctionMap.antt =====
-- A map that keeps the laws of HashMap, for runs of the switch: a function.
use openair_cn_cups.Common.{ℕ, Option, none, some, refl, ◌==◌, ==_refl, ==_ne, if◌then◌else◌}
use openair_cn_cups.Switch.HashMap.{HashMap, IsHashMap}

abbrev insert : {V : Type 0} → ℕ → V → (ℕ → Option V) → (ℕ → Option V)
insert k v m j = if j == k then elim (m k) [ none ↦ some v | some w ↦ some w ] else m j

abbrev assign : {V : Type 0} → ℕ → V → (ℕ → Option V) → (ℕ → Option V)
assign k v m j = if j == k then elim (m k) [ none ↦ none | some w ↦ some v ] else m j

abbrev erase : {V : Type 0} → ℕ → (ℕ → Option V) → (ℕ → Option V)
erase k m j = if j == k then none else m j

abbrev pub function_map : HashMap
function_map = record {
  Map = λ (V : Type 0). ℕ → Option V;
  empty = λ _. none;
  find = λ k m. m k;
  insert = insert;
  assign = assign;
  erase = erase;
}

pub function_map-IsHashMap : IsHashMap function_map
function_map-IsHashMap = record {
  find-empty = λ k. refl;
  find-insert_absent = λ k v m h. rw (==_refl k, h) refl;
  find-insert_present = λ k v w m h. rw (==_refl k, h) refl;
  find-insert_ne = λ j k v m h. rw (==_ne j k h) refl;
  find-assign = λ k v w m h. rw (==_refl k, h) refl;
  find-assign_ne = λ j k v m h. rw (==_ne j k h) refl;
  find-erase = λ k m. rw (==_refl k) refl;
  find-erase_ne = λ j k m h. rw (==_ne j k h) refl;
}
