-- ===== src/Paa/Tests.antt =====
-- The pools of addresses on a small pool, from 10.0.0.10 on.
use openair_cn_cups.Paa.Dynamic.Served.{Answer, ipv4_subscriber_is_served, dual_stack_faults}
use openair_cn_cups.Paa.Foreign.{free_below_leaks}
use openair_cn_cups.Paa.Dynamic.{
  PaaDynamic, Paa, ipv4, ipv4v6, pool4, add_pool4, add_pool6, get_free_paa,
}
use openair_cn_cups.Common.{
  ◌^◌, Bool, ◌∷◌, [], ◌/◌, ◌-◌, ◌%◌, ◌≤◌, none, ◌⊎◌, ℕ, ◌+◌, ◌<◌, ◌≡◌, ◌==◌, if◌then◌else◌, true,
  false, some, refl, arith,
}
use openair_cn_cups.StdMap.{Map, find, assign}
use openair_cn_cups.Paa.{
  all_ones, free_address, word, alloc_free_bit, Ipv4Pool, ipv4_pool, alloc_address, clear_words,
}
use openair_cn_cups.Paa.Bits.{test_bit, set_bit, first_clear}
use openair_cn_cups.Paa.Alloc.{full_word, is_used, IsValid}
use openair_cn_cups.Paa.Pools.{IsAllocated, alloc_address_lem, free_address_lem}
use openair_cn_cups.Paa.Made.{ipv4_pool-IsValid}

abbrev first : ℕ
first = 167772170

-- One address.
abbrev one : Ipv4Pool
one = ipv4_pool first 1

one-IsValid : IsValid one
one-IsValid = (ipv4_pool-IsValid first 1 (omega arith) (omega arith)).0

ipv4_pool-IsValid_example :
    IsValid (ipv4_pool first 40) × ((b : ℕ) → b < 40 → is_used b (ipv4_pool first 40).alloc ≡ false)
ipv4_pool-IsValid_example = ipv4_pool-IsValid first 40 (omega arith) (omega arith)

handed_out : (p' : Ipv4Pool) × (alloc_address one ≡ some (first, p'))
unfolding ipv4_pool clear_words alloc_address alloc_free_bit word find assign first_clear set_bit
    test_bit
handed_out = (_, refl)

alloc_address_lem_example :
    ((alloc_address one ≡ none) × ((b : ℕ) → b < one.num → is_used b one.alloc ≡ true))
    ⊎ ((b : ℕ) × (p' : Ipv4Pool) × (alloc_address one ≡ some (one.start + b, p'))
        × IsAllocated one b p')
alloc_address_lem_example = alloc_address_lem one one-IsValid

free_address_lem_example :
    (p' : Ipv4Pool) × (free_address (first + 0) (ipv4_pool first 1) ≡ (true, p'))
    × IsValid p'
    × ((c : ℕ) → is_used c p'.alloc ≡ (if c == 0 then false else is_used c one.alloc))
unfolding ipv4_pool
free_address_lem_example = free_address_lem one 0 one-IsValid (omega arith)

-- One address, in use.
abbrev full : Ipv4Pool
full = record { start = first; num = 1; alloc = (0, all_ones) ∷ [] }

full_at : (i : ℕ) → i < 1 → word i full.alloc ≡ all_ones
unfolding word find
full_at i lt = ground (arith, lt)

full-is_used : (b : ℕ) → b < 32 → is_used b full.alloc ≡ true
full-is_used b lt = full_word b full.alloc (full_at (b / 32) (omega (arith, lt)))

full-IsValid : IsValid full
unfolding find
full-IsValid = record {
  size = refl;
  there = λ i lt. (all_ones, ground (arith, lt), omega arith);
  only = λ i le. ground (arith, le);
  padded = λ b le lt. full-is_used b lt;
  small = omega arith;
  fits = omega arith;
}

free_below_leaks_example :
    ((free_address (first - 10) full).0 ≡ true)
    × ((b : ℕ) × (p' : Ipv4Pool) × (1 ≤ b)
        × (alloc_address (free_address (first - 10) full).1 ≡ some ((first + b) % 2 ^ 32, p')))
free_below_leaks_example =
    free_below_leaks full 10 full-IsValid (λ b lt. full-is_used b (omega (arith, lt))) (omega arith)
      (omega arith) (omega arith) (omega arith)

-- An access point with one pool of one address.
abbrev pools : PaaDynamic
pools = add_pool4 3 0 first 1 (record { ipv4_pools = []; ipv6_pools = []; apns = [] })

abbrev subscriber : ℕ → Paa
subscriber pdn_type = record { pdn_type = pdn_type; ipv4_address = 0; ipv6_address = 0 }

ipv4_subscriber_is_served_example :
    (r : Bool × (Paa × Map Ipv4Pool)) × Answer (0 ∷ []) pools.ipv4_pools r
    × (get_free_paa 3 (subscriber ipv4) pools
        ≡ some (r.0, (r.1.0, record pools { ipv4_pools = r.1.1 })))
unfolding add_pool4 find assign pool4
ipv4_subscriber_is_served_example =
    ipv4_subscriber_is_served 3 (record { ipv4_pool_ids = 0 ∷ []; ipv6_pool_ids = [] })
      (subscriber ipv4) pools refl refl (one-IsValid, tt)

dual_stack_faults_example :
    get_free_paa 3 (subscriber ipv4v6) (
      add_pool6 3 0 1 64
        (add_pool4 3 0 first 1 (record { ipv4_pools = []; ipv6_pools = []; apns = [] })))
    ≡ none
unfolding find assign add_pool4 pool4 ipv4_pool clear_words alloc_address alloc_free_bit word
    first_clear set_bit test_bit
dual_stack_faults_example =
    dual_stack_faults 3 0 0 first 1 1 64 first handed_out.0 (subscriber ipv4v6)
      (record { ipv4_pools = []; ipv6_pools = []; apns = [] }) refl (omega arith) refl handed_out.1
