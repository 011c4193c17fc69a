-- ===== src/Paa/Made.antt =====
-- A new pool (the constructor of ipv4_pool).
use openair_cn_cups.Common.{
  ◌&&◌, ℕ, zero, suc, ◌+◌, ◌-◌, ◌*◌, ◌/◌, ◌%◌, ◌^◌, ◌<◌, ◌≤◌, ◌≡◌, inl, inr, ◌==◌, ==_iff, ltb, leb,
  if◌then◌else◌, false, [], none, some, length, refl, ◌∙◌, ap, Bool-cases, eq-or_ne, arith,
}
use openair_cn_cups.StdMap.{Map, find, assign}
use openair_cn_cups.StdMap.Laws.{find-assign, length-assign_absent}
use openair_cn_cups.Paa.{word, ipv4_pool, clear_words}
use openair_cn_cups.Paa.Alloc.{is_used, IsValid, word-assign}
use native.Mathlib.Nat.{one-le-pow}
use openair_cn_cups.Paa.Bits.{test_bit}
use openair_cn_cups.Paa.Alloc.{is_used, IsValid}
use openair_cn_cups.Paa.Bits.{test_bit-ones}

-- What is found in the words cleared.
find-clear_words :
    (n i j : ℕ) (m : Map ℕ)
    → find j (clear_words n i m) ≡ (if leb i j && ltb j (i + n) then some 0 else find j m)
unfolding clear_words
find-clear_words zero i j m = ground arith
find-clear_words (suc n) i j m =
    ground (arith, find-clear_words n (i + 1) j (assign i 0 m), find-assign j i 0 m)

length-clear_words :
    (n i : ℕ) (m : Map ℕ)
    → ((j : ℕ) → i ≤ j → find j m ≡ none)
    → length (clear_words n i m) ≡ length m + n
unfolding clear_words
length-clear_words zero i m absent = omega arith
length-clear_words (suc n) i m absent =
    let one = length-assign_absent i 0 m (absent i (omega arith)) in
    let rest =
      length-clear_words n (i + 1) (assign i 0 m)
        (λ j le. ground (arith, find-assign j i 0 m, absent j (omega arith), le)) in
    omega (arith, one, rest)

cleared : ℕ → Map ℕ
cleared n = clear_words n 0 []

find-cleared : (n j : ℕ) → find j (cleared n) ≡ (if ltb j n then some 0 else none)
unfolding cleared find
find-cleared n j = ground (arith, find-clear_words n 0 j [])

length-cleared : (n : ℕ) → length (cleared n) ≡ n
unfolding cleared find
length-cleared n = omega (arith, length-clear_words n 0 [] (λ j le. refl))

word-cleared : (n j : ℕ) → word j (cleared n) ≡ 0
unfolding word
word-cleared n j = ground (arith, find-cleared n j)

test_bit-zero : (k : ℕ) → test_bit k 0 ≡ false
unfolding test_bit
test_bit-zero zero = refl
test_bit-zero (suc k) = test_bit-zero k

cleared-unused : (n b : ℕ) → is_used b (cleared n) ≡ false
unfolding is_used
cleared-unused n b = rw (word-cleared n (b / 32)) (test_bit-zero (b % 32))

-- A size that is a multiple of 32.
whole-IsValid :
    (first range n : ℕ)
    → range ≡ 32 * n
    → range < 2 ^ 31
    → first + range ≤ 2 ^ 32
    → IsValid (record { start = first; num = range; alloc = cleared n })
whole-IsValid first range n e small fits =
    let size = length-cleared n in
    record {
      size = omega (arith, size, e);
      there = λ i lt. (0, ground (arith, find-cleared n i, size, lt), omega arith);
      only = λ i le. ground (arith, find-cleared n i, size, le);
      padded = λ b le lt. absurd (omega (arith, size, e, le, lt));
      small = small;
      fits = fits;
    }

-- The last word, of which the lower `r` bits stand for addresses.
module _ (first range n r : ℕ) (e : range ≡ 32 * n + r) (some : 0 < r) (partial : r < 32) where
  last : ℕ
  last = 2 ^ 32 - 2 ^ r

  alloc : Map ℕ
  alloc = assign n last (cleared n)

  length-alloc : length alloc ≡ suc n
  unfolding alloc
  length-alloc =
      length-assign_absent n last (cleared n) (ground (arith, find-cleared n n))
      ∙ ap suc (length-cleared n)

  is_used-alloc : (b : ℕ) → b < 32 * suc n → is_used b alloc ≡ leb range b
  unfolding is_used alloc last
  is_used-alloc b lt = elim (eq-or_ne (b / 32) n) [
    | inl same ↦
        rw (word-assign (b / 32) n last (cleared n), same)
          (ground
            (arith, test_bit-ones 32 r (b % 32) (omega (arith, partial)) (omega arith), e, same))
    | inr ne ↦
        rw (word-assign (b / 32) n last (cleared n), word-cleared n (b / 32))
          (ground (arith, test_bit-zero (b % 32), e, ne, lt))
  ]

  partial-IsValid :
      range < 2 ^ 31
      → first + range ≤ 2 ^ 32
      → IsValid (record { start = first; num = range; alloc = alloc })
  unfolding alloc last
  partial-IsValid small fits = record {
    size = omega (arith, length-alloc, e, some, partial);
    there = λ i lt. elim (eq-or_ne i n) [
      | inl same ↦ (
        last,
        ground (arith, find-assign i n last (cleared n), same),
        omega (arith, one-le-pow r 2 (omega arith)),
      )
      | inr ne ↦ (
        0,
        ground (arith, find-assign i n last (cleared n), ne, find-cleared n i, lt, length-alloc),
        omega arith,
      )
    ];
    only = λ i le.
        ground (arith, find-assign i n last (cleared n), find-cleared n i, le, length-alloc);
    padded = λ b le lt.
        let used = is_used-alloc b (omega (arith, length-alloc, lt)) in ground (arith, used, le);
    small = small;
    fits = fits;
  }

-- A new pool whose addresses are 32-bit numbers and fewer than 2 ^ 31 is valid, and none of its
-- addresses is in use.
pub ipv4_pool-IsValid :
    (first range : ℕ)
    → range < 2 ^ 31
    → first + range ≤ 2 ^ 32
    → IsValid (ipv4_pool first range)
      × ((b : ℕ) → b < range → is_used b (ipv4_pool first range).alloc ≡ false)
unfolding ipv4_pool cleared alloc last
ipv4_pool-IsValid first range small fits = elim (Bool-cases (range % 32 == 0)) [
  | inl whole ↦
      let n = range / 32 in
      let none_left = (==_iff (range % 32) 0).0 whole in
      rw (ipv4_pool, whole)
        (
          whole-IsValid first range n (omega (arith, none_left)) small fits,
          λ b lt. cleared-unused n b,
        )
  | inr partial ↦
      let n = range / 32 in
      let r = range % 32 in
      let e : range ≡ 32 * n + r = omega arith in
      let some : 0 < r = ground (arith, partial) in
      let lt : r < 32 = omega arith in
      rw (ipv4_pool, partial)
        (
          partial-IsValid first range n r e some lt small fits,
          λ b below.
              is_used-alloc first range n r e some lt b (omega (arith, below))
              ∙ ground (arith, below),
        )
]
