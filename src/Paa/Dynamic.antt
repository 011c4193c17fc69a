-- ===== src/Paa/Dynamic.antt =====
-- src/pgwc/pgw_paa_dynamic.hpp, classes ipv6_pool, apn_dynamic_pools and paa_dynamic: which pools serve
-- an access point. A label stands for the string that names it.
pub mod Served
use openair_cn_cups.Common.{
  ℕ, ◌^◌, ◌==◌, ltb, if◌then◌else◌, Bool, true, false, List, [], ◌∷◌, Option, none, some,
}
use openair_cn_cups.StdMap.{Map, find, assign}
use openair_cn_cups.Paa.{Ipv4Pool, ipv4_pool, alloc_address, free_address}

pub record Ipv6Pool : Type 0 where
  pub prefix : ℕ
  pub prefix_len : ℕ

pub record ApnDynamicPools : Type 0 where
  pub ipv4_pool_ids : List ℕ
  pub ipv6_pool_ids : List ℕ

pub record PaaDynamic : Type 0 where
  pub ipv4_pools : Map Ipv4Pool
  pub ipv6_pools : Map Ipv6Pool
  pub apns : Map ApnDynamicPools

-- paa_t
pub record Paa : Type 0 where
  pub pdn_type : ℕ
  pub ipv4_address : ℕ
  pub ipv6_address : ℕ

abbrev pub ipv4 : ℕ
ipv4 = 1

abbrev pub ipv6 : ℕ
ipv6 = 2

abbrev pub ipv4v6 : ℕ
ipv4v6 = 3

abbrev pub has {ℓ} : {V : Type ℓ} → ℕ → Map V → Bool
has k m = elim (find k m) [ none ↦ false | some _ ↦ true ]

-- ipv4_pools[id], which makes an empty pool where there is none.
unfoldable pub pool4 : ℕ → Map Ipv4Pool → Ipv4Pool
unfolding find
pool4 id m = elim (find id m) [ none ↦ record { start = 0; num = 0; alloc = [] } | some p ↦ p ]

unfoldable pub pool6 : ℕ → Map Ipv6Pool → Ipv6Pool
unfolding find
pool6 id m = elim (find id m) [ none ↦ record { prefix = 0; prefix_len = 0 } | some p ↦ p ]

-- add_pool for IPv4; a negative int has bit 31 set.
unfoldable pub add_pool4 : ℕ → ℕ → ℕ → ℕ → PaaDynamic → PaaDynamic
unfolding find assign ipv4_pool
add_pool4 apn_label pool_id first range d =
    if ltb pool_id (2 ^ 31)
    then record d {
      ipv4_pools =
          if has pool_id d.ipv4_pools
          then d.ipv4_pools
          else assign pool_id (ipv4_pool first range) d.ipv4_pools;
      apns =
          if has apn_label d.apns
          then d.apns
          else assign apn_label (record { ipv4_pool_ids = pool_id ∷ []; ipv6_pool_ids = [] })
              d.apns;
    }
    else d

-- add_pool for IPv6.
unfoldable pub add_pool6 : ℕ → ℕ → ℕ → ℕ → PaaDynamic → PaaDynamic
unfolding find assign
add_pool6 apn_label pool_id prefix prefix_len d =
    if ltb pool_id (2 ^ 31)
    then record d {
      ipv6_pools =
          if has pool_id d.ipv6_pools
          then d.ipv6_pools
          else assign pool_id (record { prefix = prefix; prefix_len = prefix_len }) d.ipv6_pools;
      apns =
          if has apn_label d.apns
          then d.apns
          else assign apn_label (record { ipv4_pool_ids = []; ipv6_pool_ids = pool_id ∷ [] })
              d.apns;
    }
    else d

-- The loop over the IPv4 pools that returns at the first with a free address; the address is 0 after
-- a pool that has none.
unfoldable pub first_address : List ℕ → Map Ipv4Pool → Paa → Bool × (Paa × Map Ipv4Pool)
unfolding pool4 assign alloc_address
first_address [] m paa = (false, (paa, m))
first_address (id ∷ ids) m paa = elim (alloc_address (pool4 id m)) [
  | none ↦ first_address ids (assign id (pool4 id m) m) (record paa { ipv4_address = 0 })
  | some (a, p) ↦ (true, (record paa { ipv4_address = a }, assign id p m))
]

-- The loop over the IPv4 pools for both kinds of address, which does not stop.
unfoldable pub every_address : List ℕ → Map Ipv4Pool → Bool → Paa → Bool × (Paa × Map Ipv4Pool)
unfolding pool4 assign alloc_address
every_address [] m success paa = (success, (paa, m))
every_address (id ∷ ids) m success paa = elim (alloc_address (pool4 id m)) [
  | none ↦ every_address ids (assign id (pool4 id m) m) success (record paa { ipv4_address = 0 })
  | some (a, p) ↦ every_address ids (assign id p m) true (record paa { ipv4_address = a })
]

-- The loop over the IPv6 pools, of which the first answers.
unfoldable pub first_prefix : List ℕ → Map Ipv6Pool → Paa → Bool × (Paa × Map Ipv6Pool)
unfolding pool6 assign
first_prefix [] m paa = (false, (paa, m))
first_prefix (id ∷ _) m paa =
    (true, (record paa { ipv6_address = (pool6 id m).prefix }, assign id (pool6 id m) m))

-- The end of the case of both: `none` where the code reads the pool number at the end of the list.
unfoldable pub both_addresses :
    ApnDynamicPools → Bool × (Paa × Map Ipv4Pool) → PaaDynamic → Option (Bool × (Paa × PaaDynamic))
unfolding first_prefix
both_addresses apn (false, (paa, m)) d = some (false, (paa, record d { ipv4_pools = m }))
both_addresses apn (true, (paa, m)) d =
    let sixth = first_prefix apn.ipv6_pool_ids d.ipv6_pools paa in
    if sixth.0
    then some (true, (sixth.1.0, record d { ipv4_pools = m; ipv6_pools = sixth.1.1 }))
    else none

-- The cases of get_free_paa.
unfoldable pub free_paa_of : ApnDynamicPools → Paa → PaaDynamic → Option (Bool × (Paa × PaaDynamic))
unfolding first_address every_address first_prefix both_addresses
free_paa_of apn paa d =
    let fourth = first_address apn.ipv4_pool_ids d.ipv4_pools paa in
    let sixth = first_prefix apn.ipv6_pool_ids d.ipv6_pools paa in
    if paa.pdn_type == ipv4
    then some (fourth.0, (fourth.1.0, record d { ipv4_pools = fourth.1.1 }))
    else if paa.pdn_type == ipv4v6
    then both_addresses apn (every_address apn.ipv4_pool_ids d.ipv4_pools false paa) d
    else if paa.pdn_type == ipv6
    then some (sixth.0, (sixth.1.0, record d { ipv6_pools = sixth.1.1 }))
    else some (false, (paa, d))

unfoldable pub get_free_paa : ℕ → Paa → PaaDynamic → Option (Bool × (Paa × PaaDynamic))
unfolding find free_paa_of
get_free_paa apn_label paa d = elim (find apn_label d.apns) [
  | none ↦ some (false, (paa, d))
  | some apn ↦ free_paa_of apn paa d
]

-- The loop that gives an address back to the first pool that takes it.
unfoldable pub give_back : List ℕ → ℕ → Map Ipv4Pool → Bool × Map Ipv4Pool
unfolding pool4 assign free_address
give_back [] a m = (false, m)
give_back (id ∷ ids) a m =
    let freed = free_address a (pool4 id m) in
    let rest = give_back ids a (assign id freed.1 m) in
    if freed.0 then (true, assign id freed.1 m) else rest

-- release_paa, for a subscriber's addresses.
unfoldable pub release_paa : ℕ → Paa → PaaDynamic → Bool × PaaDynamic
unfolding find give_back
release_paa apn_label paa d = elim (find apn_label d.apns) [
  | none ↦ (false, d)
  | some apn ↦
      let given = give_back apn.ipv4_pool_ids paa.ipv4_address d.ipv4_pools in
      if paa.pdn_type == ipv4
      then (given.0, record d { ipv4_pools = given.1 })
      else if paa.pdn_type == ipv4v6
      then (given.0, record d { ipv4_pools = given.1 })
      else (paa.pdn_type == ipv6, d)
]

-- release_paa, for an IPv4 address.
unfoldable pub release_address : ℕ → ℕ → PaaDynamic → Bool × PaaDynamic
unfolding find give_back
release_address apn_label a d = elim (find apn_label d.apns) [
  | none ↦ (false, d)
  | some apn ↦
      let given = give_back apn.ipv4_pool_ids a d.ipv4_pools in
      (given.0, record d { ipv4_pools = given.1 })
]
