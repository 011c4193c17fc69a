-- ===== src/Paa/Dynamic/Served.antt =====
-- What an access point hands out (paa_dynamic::get_free_paa, add_pool).
use openair_cn_cups.Common.{
  Option, if-both, All-map, eq-or_ne, ℕ, ◌+◌, ◌^◌, ◌<◌, ◌≡◌, inl, inr, ◌==◌, ltb, lt→ltb,
  if◌then◌else◌, Bool, true, false, List, [], ◌∷◌, none, some, All, Among, refl, sym, ◌∙◌, ap,
  subst, arith,
}
use openair_cn_cups.StdMap.{Map, find, assign}
use openair_cn_cups.StdMap.Laws.{find-assign}
use openair_cn_cups.Paa.{Ipv4Pool, alloc_address}
use openair_cn_cups.Paa.Alloc.{is_used, IsValid}
use openair_cn_cups.Paa.Pools.{IsAllocated, alloc_address_lem}
use openair_cn_cups.Paa.Dynamic.{
  has, first_prefix, ApnDynamicPools, PaaDynamic, Paa, ipv4, ipv4v6, pool4, add_pool4, add_pool6,
  first_address, every_address, both_addresses, free_paa_of, get_free_paa,
}

pool4-assign :
    (j k : ℕ) (p : Ipv4Pool) (m : Map Ipv4Pool)
    → pool4 j (assign k p m) ≡ (if j == k then p else pool4 j m)
unfolding pool4
pool4-assign j k p m = ground (arith, find-assign j k p m)

pool4-assign_same : (j k : ℕ) (m : Map Ipv4Pool) → pool4 j (assign k (pool4 k m) m) ≡ pool4 j m
pool4-assign_same j k m = elim (eq-or_ne j k) [
  | inl same ↦ rw (same, pool4-assign k k (pool4 k m) m) (ground arith)
  | inr ne ↦ ground (arith, pool4-assign j k (pool4 k m) m, ne)
]

abbrev pub IsFull : Ipv4Pool → Type 0
IsFull p = (b : ℕ) → b < p.num → is_used b p.alloc ≡ true

-- The address is that of one of the pools, where it was free, and its use is all that changes.
pub record IsServed (ids : List ℕ) (m : Map Ipv4Pool) (a : ℕ) (m' : Map Ipv4Pool) : Type 0 where
  pub id : ℕ
  pub b : ℕ
  pub p' : Ipv4Pool
  pub listed : Among id ids
  pub address : a ≡ (pool4 id m).start + b
  pub allocated : IsAllocated (pool4 id m) b p'
  pub others : (j : ℕ) → pool4 j m' ≡ (if j == id then p' else pool4 j m)

-- Either all pools are full, or one of them serves.
abbrev pub Answer : List ℕ → Map Ipv4Pool → Bool × (Paa × Map Ipv4Pool) → Type 0
Answer ids m (false, (paa, m')) = All (λ id. IsFull (pool4 id m)) ids
Answer ids m (true, (paa, m')) = IsServed ids m paa.ipv4_address m'

Answer-full :
    (k : ℕ) (ids : List ℕ) (m : Map Ipv4Pool) (r : Bool × (Paa × Map Ipv4Pool))
    → IsFull (pool4 k m)
    → Answer ids (assign k (pool4 k m) m) r
    → Answer (k ∷ ids) m r
Answer-full k ids m (false, (paa, m')) full h =
    (full, All-map (λ id f. subst IsFull (pool4-assign_same id k m) f) ids h)
Answer-full k ids m (true, (paa, m')) full h = record {
  id = h.id;
  b = h.b;
  p' = h.p';
  listed = let (front, back, e) = h.listed in (k ∷ front, back, ap (λ xs. k ∷ xs) e);
  address = h.address ∙ ap (λ p. p.start + h.b) (pool4-assign_same h.id k m);
  allocated = subst (λ p. IsAllocated p h.b h.p') (pool4-assign_same h.id k m) h.allocated;
  others = λ j. h.others j ∙ ap (λ p. if j == h.id then h.p' else p) (pool4-assign_same j k m);
}

first_address-Answer :
    (ids : List ℕ) (m : Map Ipv4Pool) (paa : Paa)
    → All (λ id. IsValid (pool4 id m)) ids
    → Answer ids m (first_address ids m paa)
unfolding first_address
first_address-Answer [] m paa v = tt
first_address-Answer (k ∷ ids) m paa v = elim (alloc_address_lem (pool4 k m) v.0) [
  | inl (e, full) ↦
      rw (first_address, e)
        (Answer-full k ids m _ full (
          first_address-Answer ids (assign k (pool4 k m) m) (record paa { ipv4_address = 0 })
            (All-map (λ id f. subst IsValid (sym (pool4-assign_same id k m)) f) ids v.1)))
  | inr (b, p', e, allocated) ↦
      rw (first_address, e)
        (record {
          id = k;
          b = b;
          p' = p';
          listed = ([], ids, refl);
          address = refl;
          allocated = allocated;
          others = λ j. pool4-assign j k p' m;
        })
]

-- A subscriber with an IPv4 address: where all pools of the access point are valid, either it gets
-- none and every address of all of them is in use, or it gets the first free address of one of them,
-- which is in use from then on, and nothing else of any pool changes.
pub ipv4_subscriber_is_served :
    (apn_label : ℕ) (apn : ApnDynamicPools) (paa : Paa) (d : PaaDynamic)
    → find apn_label d.apns ≡ some apn
    → paa.pdn_type ≡ ipv4
    → All (λ id. IsValid (pool4 id d.ipv4_pools)) apn.ipv4_pool_ids
    → (r : Bool × (Paa × Map Ipv4Pool)) × Answer apn.ipv4_pool_ids d.ipv4_pools r
      × (get_free_paa apn_label paa d ≡ some (r.0, (r.1.0, record d { ipv4_pools = r.1.1 })))
unfolding get_free_paa free_paa_of
ipv4_subscriber_is_served apn_label apn paa d found type v = (
  first_address apn.ipv4_pool_ids d.ipv4_pools paa,
  first_address-Answer apn.ipv4_pool_ids d.ipv4_pools paa v,
  rw (get_free_paa, found, type) refl,
)

-- An access point with one pool, for IPv4.
abbrev only4 : ℕ → ApnDynamicPools
only4 id4 = record { ipv4_pool_ids = id4 ∷ []; ipv6_pool_ids = [] }

only4_faults :
    (apn_label id4 a : ℕ) (p : Ipv4Pool) (paa : Paa) (d : PaaDynamic)
    → find apn_label d.apns ≡ some (only4 id4)
    → paa.pdn_type ≡ ipv4v6
    → alloc_address (pool4 id4 d.ipv4_pools) ≡ some (a, p)
    → get_free_paa apn_label paa d ≡ none
unfolding get_free_paa free_paa_of every_address both_addresses first_prefix
only4_faults apn_label id4 a p paa d found type e =
    rw (get_free_paa, found, type, every_address, e) refl

has-find :
    {V : Type 0}
    → (k : ℕ) (m : Map V) (found : Option V) → find k m ≡ found
    → has k m ≡ elim found [ none ↦ false | some _ ↦ true ]
has-find k m found e = rw (has, e) refl

add_pool4-only4 :
    (apn_label id4 first range : ℕ) (d : PaaDynamic)
    → find apn_label d.apns ≡ none
    → id4 < 2 ^ 31
    → find apn_label (add_pool4 apn_label id4 first range d).apns ≡ some (only4 id4)
unfolding add_pool4
add_pool4-only4 apn_label id4 first range d absent small =
    rw (lt→ltb id4 (2 ^ 31) small, has-find apn_label d.apns none absent)
      (ground (arith, find-assign apn_label apn_label (only4 id4) d.apns))

add_pool6-listed :
    (apn_label id6 prefix prefix_len : ℕ) (apn : ApnDynamicPools) (d : PaaDynamic)
    → find apn_label d.apns ≡ some apn
    → ((add_pool6 apn_label id6 prefix prefix_len d).apns ≡ d.apns)
      × ((add_pool6 apn_label id6 prefix prefix_len d).ipv4_pools ≡ d.ipv4_pools)
unfolding add_pool6
add_pool6-listed apn_label id6 prefix prefix_len apn d found =
    if-both (λ (e : PaaDynamic). (e.apns ≡ d.apns) × (e.ipv4_pools ≡ d.ipv4_pools))
      (ltb id6 (2 ^ 31)) (rw (has-find apn_label d.apns (some apn) found) (refl, refl)) (refl, refl)

-- Where an access point gets an IPv4 pool and then an IPv6 pool, as pgw_app::apply_config does, a
-- subscriber that wants both addresses makes the code read past the end of the list of pools, as soon
-- as the IPv4 pool has a free address: the IPv6 pool is not listed.
pub dual_stack_faults :
    (apn_label id4 id6 first range prefix prefix_len a : ℕ) (p : Ipv4Pool) (paa : Paa)
    → (d : PaaDynamic) → find apn_label d.apns ≡ none
    → id4 < 2 ^ 31
    → paa.pdn_type ≡ ipv4v6
    → alloc_address (pool4 id4 (add_pool4 apn_label id4 first range d).ipv4_pools) ≡ some (a, p)
    → get_free_paa apn_label paa
        (add_pool6 apn_label id6 prefix prefix_len (add_pool4 apn_label id4 first range d))
      ≡ none
dual_stack_faults apn_label id4 id6 first range prefix prefix_len a p paa d absent small type e =
    let d4 = add_pool4 apn_label id4 first range d in
    let d6 = add_pool6 apn_label id6 prefix prefix_len d4 in
    let listed = add_pool4-only4 apn_label id4 first range d absent small in
    let (apns, pools) = add_pool6-listed apn_label id6 prefix prefix_len (only4 id4) d4 listed in
    only4_faults apn_label id4 a p paa d6 (ap (find apn_label) apns ∙ listed) type
      (ap (λ m. alloc_address (pool4 id4 m)) pools ∙ e)
