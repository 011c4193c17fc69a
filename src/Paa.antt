-- ===== src/Paa.antt =====
-- src/pgwc/pgw_paa_dynamic.hpp: the pools of addresses for the subscribers. An IPv4 address is its number
-- in host order, so be32toh and htobe32 are left out. An int is the number of its 32 bits, and
-- arithmetic on ints goes round as the machine's does.
pub mod Bits
pub mod Alloc
pub mod Pools
pub mod Made
pub mod Foreign
pub mod Dynamic
mod Tests
use openair_cn_cups.Common.{
  ℕ, zero, suc, ◌+◌, ◌-◌, ◌*◌, ◌/◌, ◌%◌, ◌^◌, ◌==◌, ltb, if◌then◌else◌, Bool, true, false, List, [],
  ◌∷◌, Option, none, some, length,
}
use openair_cn_cups.StdMap.{Map, find, assign}
use openair_cn_cups.Paa.Bits.{test_bit, set_bit, reset_bit, first_clear}

pub record Ipv4Pool : Type 0 where
  pub start : ℕ
  pub num : ℕ
  pub alloc : Map ℕ

-- std::numeric_limits<uint32_t>::max()
abbrev pub all_ones : ℕ
all_ones = 4294967295

-- alloc[i], which makes an entry of 0 where there is none; every read is followed by a write of the
-- entry, or finds it full.
unfoldable pub word : ℕ → Map ℕ → ℕ
unfolding find
word i m = elim (find i m) [ none ↦ 0 | some w ↦ w ]

-- a < b on ints.
abbrev pub less_int : ℕ → ℕ → Bool
less_int a b = ltb ((a + 2 ^ 31) % 2 ^ 32) ((b + 2 ^ 31) % 2 ^ 32)

-- a - b on ints.
abbrev pub sub_int : ℕ → ℕ → ℕ
sub_int a b = (a + 2 ^ 32 - b) % 2 ^ 32

-- a >> 5 on an int, which keeps the sign.
abbrev pub shift_int : ℕ → ℕ
shift_int a = if ltb a (2 ^ 31) then a / 32 else a / 32 + (2 ^ 32 - 2 ^ 27)

-- The loop of the constructor: entries of 0 for `i` and the words after it.
unfoldable pub clear_words : ℕ → ℕ → Map ℕ → Map ℕ
unfolding assign
clear_words zero i m = m
clear_words (suc n) i m = clear_words n (i + 1) (assign i 0 m)

-- The constructor from the first address and the size; the bits beyond the size are set.
unfoldable pub ipv4_pool : ℕ → ℕ → Ipv4Pool
unfolding clear_words assign
ipv4_pool first range =
    let range32 = range / 32 in
    let words = clear_words range32 0 [] in
    record {
      start = first;
      num = range;
      alloc = if range % 32 == 0 then words else assign range32 (2 ^ 32 - 2 ^ (range % 32)) words;
    }

-- The loop of alloc_free_bit from the word `i` on, for `n` words.
unfoldable pub alloc_free_bit : ℕ → ℕ → Map ℕ → Option (ℕ × Map ℕ)
unfolding word assign first_clear set_bit
alloc_free_bit zero i m = none
alloc_free_bit (suc n) i m =
    let rest = alloc_free_bit n (i + 1) m in
    let w = word i m in
    if w == all_ones
    then rest
    else some (32 * i + first_clear 32 w, assign i (set_bit (first_clear 32 w) w) m)

-- alloc_address: the address, or none where it returns false.
abbrev pub allocated : Ipv4Pool → Option (ℕ × Map ℕ) → Option (ℕ × Ipv4Pool)
allocated p none = none
allocated p (some (bit_pos, alloc)) =
    some ((p.start + bit_pos) % 2 ^ 32, record p { alloc = alloc })

unfoldable pub alloc_address : Ipv4Pool → Option (ℕ × Ipv4Pool)
unfolding alloc_free_bit
alloc_address p = allocated p (alloc_free_bit (length p.alloc) 0 p.alloc)

abbrev pub free_bit : ℕ → Ipv4Pool → Bool × Ipv4Pool
free_bit bit_pos p =
    let i = shift_int bit_pos in
    if less_int bit_pos p.num
    then (true, record p { alloc = assign i (reset_bit (bit_pos % 32) (word i p.alloc)) p.alloc })
    else (false, p)

abbrev pub in_pool : ℕ → Ipv4Pool → Bool
in_pool a p = less_int (sub_int a p.start) p.num

unfoldable pub free_address : ℕ → Ipv4Pool → Bool × Ipv4Pool
unfolding word assign reset_bit
free_address allocated p =
    if in_pool allocated p then free_bit (sub_int allocated p.start) p else (false, p)
