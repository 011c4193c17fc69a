-- ===== src/Paa/Foreign.antt =====
-- Addresses that are not the pool's (ipv4_pool::free_address, in_pool, free_bit).
use openair_cn_cups.Common.{
  ltb→lt, ℕ, suc, ◌+◌, ◌-◌, ◌/◌, ◌%◌, ◌^◌, ◌<◌, ◌≤◌, ◌≡◌, inl, inr, ltb, true, Option, none, some,
  length, refl, ◌∙◌, Bool-cases, eq-or_ne, arith,
}
use openair_cn_cups.StdMap.{Map, assign}
use openair_cn_cups.StdMap.Laws.{length-assign_absent}
use openair_cn_cups.Paa.{
  allocated, Ipv4Pool, word, alloc_free_bit, alloc_address, free_address, less_int, sub_int,
  shift_int,
}
use openair_cn_cups.Paa.Alloc.{is_used, IsValid, Found, alloc_free_bit-Found, word-assign}
use openair_cn_cups.Paa.Bits.{reset_bit}
use openair_cn_cups.Paa.Pools.{word_there}

-- The pool with a word at a key far beyond its own.
module _ (p : Ipv4Pool) (v : IsValid p) (far x : ℕ) (beyond : length p.alloc < far) where
  grown : Map ℕ
  grown = assign far x p.alloc

  length-grown : length grown ≡ suc (length p.alloc)
  unfolding grown
  length-grown = length-assign_absent far x p.alloc (v.only far (omega (arith, beyond)))

  word-grown : (j : ℕ) → j ≤ length p.alloc → word j grown ≡ word j p.alloc
  unfolding grown
  word-grown j le = ground (arith, word-assign j far x p.alloc, le, beyond)

  word-next : word (length p.alloc) grown ≡ 0
  unfolding word
  word-next =
      word-grown (length p.alloc) (omega arith)
      ∙ rw (word, v.only (length p.alloc) (omega arith)) refl

  word-grown_lt : (j : ℕ) → j < length grown → word j grown < 2 ^ 32
  word-grown_lt j lt = elim (eq-or_ne j (length p.alloc)) [
    | inl same ↦ rw (same, word-next) (omega arith)
    | inr ne ↦
        let inside : j < length p.alloc = omega (arith, length-grown, lt, ne) in
        rw (word-grown j (omega (arith, inside))) (word_there p j v inside)
  ]

  is_used-grown : (b : ℕ) → b < p.num → is_used b grown ≡ is_used b p.alloc
  unfolding is_used
  is_used-grown b lt = let size = v.size in rw (word-grown (b / 32) (omega (arith, size, lt))) refl

  grown-cases :
      (o : Option (ℕ × Map ℕ))
      → ((b : ℕ) → b < p.num → is_used b p.alloc ≡ true)
      → Found 0 (length grown) grown o
      → (b : ℕ) × (p' : Ipv4Pool) × (p.num ≤ b)
        × (allocated (record p { alloc = grown }) o ≡ some ((p.start + b) % 2 ^ 32, p'))
  grown-cases none used h =
      let full = h (length p.alloc) (omega arith) (omega (arith, length-grown)) in
      absurd (ground (arith, full, word-next))
  grown-cases (some (b, m')) used h = (
    b,
    record p { alloc = m' },
    elim (Bool-cases (ltb b p.num)) [
      | inl inside ↦
          let lt = ltb→lt b p.num inside in
          absurd (ground (arith, used b lt, is_used-grown b lt, h.free))
      | inr outside ↦ ground (arith, outside)
    ],
    refl,
  )

-- Giving back an address that is at most 2 ^ 31 below the start of a valid pool, which has an
-- address and all of them in use, is accepted, and the pool then hands out an address beyond its
-- end.
pub free_below_leaks :
    (p : Ipv4Pool) (d : ℕ)
    → IsValid p
    → ((b : ℕ) → b < p.num → is_used b p.alloc ≡ true)
    → 0 < d
    → d ≤ 2 ^ 31
    → d ≤ p.start
    → 0 < p.num
    → ((free_address (p.start - d) p).0 ≡ true)
      × ((b : ℕ) × (p' : Ipv4Pool) × (p.num ≤ b)
          × (alloc_address (free_address (p.start - d) p).1 ≡ some ((p.start + b) % 2 ^ 32, p')))
unfolding free_address alloc_address grown
free_below_leaks p d v used pos near below some_there =
    let size = v.size in
    let small = v.small in
    let distance : sub_int (p.start - d) p.start ≡ 2 ^ 32 - d = omega (arith, pos, near, below) in
    let less : less_int (2 ^ 32 - d) p.num ≡ true = ground (arith, pos, near, small, some_there) in
    let far = shift_int (2 ^ 32 - d) in
    let beyond : length p.alloc < far = ground (arith, pos, near, size, small) in
    let x = reset_bit ((2 ^ 32 - d) % 32) (word far p.alloc) in
    let m = grown p v far x beyond in
    rw (distance, less)
      (
        refl,
        grown-cases p v far x beyond (alloc_free_bit (length m) 0 m) used (
            alloc_free_bit-Found (length m) 0 m
              (λ j le lt. word-grown_lt p v far x beyond j (omega (arith, lt)))),
      )
