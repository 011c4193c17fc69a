-- ===== src/Paa/Pools.antt =====
-- A pool over its life (ipv4_pool): made, drawn from and given back to.
use openair_cn_cups.Common.{
  ℕ, ◌+◌, ◌*◌, ◌/◌, ◌%◌, ◌^◌, ◌<◌, ◌≤◌, ◌≡◌, ◌⊎◌, inl, inr, ◌==◌, leb, if◌then◌else◌, true, false,
  Option, none, some, length, refl, sym, ◌∙◌, ap, subst, Bool-cases, eq-or_ne, arith,
}
use openair_cn_cups.StdMap.{Map, assign}
use openair_cn_cups.StdMap.Laws.{find-assign, length-assign}
use openair_cn_cups.Paa.{
  allocated, Ipv4Pool, word, alloc_free_bit, alloc_address, free_address, less_int, sub_int,
  shift_int,
}
use openair_cn_cups.Paa.Alloc.{
  full_word, is_used, IsValid, IsFirst, Found, alloc_free_bit-Found, is_used-assign_set,
  is_used-assign_reset,
}
use openair_cn_cups.Paa.Bits.{set_bit, reset_bit, set_bit-lt, reset_bit-lt}

pub word_there : (p : Ipv4Pool) (i : ℕ) → IsValid p → i < length p.alloc → word i p.alloc < 2 ^ 32
unfolding word
word_there p i v lt = let (w, e, small) = v.there i lt in rw (word, e) small

-- A word of the pool is overwritten.
assign-IsValid :
    (p : Ipv4Pool) (i w : ℕ)
    → IsValid p
    → i < length p.alloc
    → w < 2 ^ 32
    → ((b : ℕ) → p.num ≤ b → is_used b p.alloc ≡ true → is_used b (assign i w p.alloc) ≡ true)
    → IsValid (record p { alloc = assign i w p.alloc })
assign-IsValid p i w v lt small kept =
    let (old, e, _) = v.there i lt in
    let same : length (assign i w p.alloc) ≡ length p.alloc = length-assign i w old p.alloc e in
    record {
      size = same ∙ v.size;
      there = λ j below. elim (eq-or_ne j i) [
        | inl here ↦ (w, ground (arith, find-assign j i w p.alloc, here), small)
        | inr ne ↦
            let (u, found, fits) = v.there j (subst (λ n. j < n) same below) in
            (u, ground (arith, find-assign j i w p.alloc, ne, found), fits)
      ];
      only = λ j above.
          let absent = v.only j (subst (λ n. n ≤ j) same above) in
          let le : length p.alloc ≤ j = subst (λ n. n ≤ j) same above in
          ground (arith, find-assign j i w p.alloc, absent, le);
      padded = λ b le below. kept b le (v.padded b le (subst (λ n. b < 32 * n) same below));
      small = v.small;
      fits = v.fits;
    }

-- An address handed out: it belongs to the pool and was free, it is the first such, and its use is
-- all that changes.
pub record IsAllocated (p : Ipv4Pool) (b : ℕ) (p' : Ipv4Pool) : Type 0 where
  pub inside : b < p.num
  pub free : is_used b p.alloc ≡ false
  pub first : (c : ℕ) → c < b → is_used c p.alloc ≡ true
  pub used : (c : ℕ) → is_used c p'.alloc ≡ (if c == b then true else is_used c p.alloc)
  pub valid : IsValid p'

first-IsAllocated :
    (p : Ipv4Pool) (b : ℕ) (m' : Map ℕ)
    → IsValid p
    → IsFirst 0 (length p.alloc) p.alloc b m'
    → IsAllocated p b (record p { alloc = m' })
first-IsAllocated p b m' v h =
    let i = b / 32 in
    let k = b % 32 in
    let there : i < length p.alloc = omega (arith, h.below) in
    let inside : b < p.num = elim (Bool-cases (leb p.num b)) [
      | inl above ↦ absurd (ground (arith, above, h.free, v.padded b, h.below))
      | inr not_above ↦ ground (arith, not_above)
    ] in
    let used : (c : ℕ)
        → is_used c (assign i (set_bit k (word i p.alloc)) p.alloc)
          ≡ (if c == b then true else is_used c p.alloc) =
      λ c.
        is_used-assign_set i k c p.alloc (omega arith)
        ∙ ap (λ n. if c == n then true else is_used c p.alloc) (omega arith) in
    let valid =
      assign-IsValid p i (set_bit k (word i p.alloc)) v there
        (set_bit-lt 32 k (word i p.alloc) (omega arith) (word_there p i v there))
        (λ c le e. ground (arith, used c, e)) in
    record {
      inside = inside;
      free = h.free;
      first = λ c lt. h.before c (omega arith) lt;
      used = λ c. ap (is_used c) h.written ∙ used c;
      valid = subst (λ m. IsValid (record p { alloc = m })) (sym h.written) valid;
    }

allocated-cases :
    (p : Ipv4Pool) (o : Option (ℕ × Map ℕ))
    → IsValid p
    → Found 0 (length p.alloc) p.alloc o
    → ((allocated p o ≡ none) × ((b : ℕ) → b < p.num → is_used b p.alloc ≡ true))
      ⊎ ((b : ℕ) × (p' : Ipv4Pool) × (allocated p o ≡ some (p.start + b, p')) × IsAllocated p b p')
allocated-cases p none v h = inl (
  refl,
  λ b lt.
      let size = v.size in full_word b p.alloc (h (b / 32) (omega arith) (omega (arith, size, lt))),
)
allocated-cases p (some (b, m')) v h =
    let allocation = first-IsAllocated p b m' v h in
    let inside = allocation.inside in
    let fits = v.fits in
    let e : (p.start + b) % 2 ^ 32 ≡ p.start + b = omega (arith, inside, fits) in
    inr (b, record p { alloc = m' }, ap (λ a. some (a, record p { alloc = m' })) e, allocation)

-- A valid pool in which every address is in use hands out none; any other hands out its first free
-- address, which it marks as in use, leaving the others as they were, and stays valid.
pub alloc_address_lem :
    (p : Ipv4Pool)
    → IsValid p
    → ((alloc_address p ≡ none) × ((b : ℕ) → b < p.num → is_used b p.alloc ≡ true))
      ⊎ ((b : ℕ) × (p' : Ipv4Pool) × (alloc_address p ≡ some (p.start + b, p'))
          × IsAllocated p b p')
unfolding alloc_address
alloc_address_lem p v = allocated-cases p (alloc_free_bit (length p.alloc) 0 p.alloc) v (
    alloc_free_bit-Found (length p.alloc) 0 p.alloc
      (λ j le lt. word_there p j v (omega (arith, lt))))

-- An address of a valid pool that is given back is free afterwards, the others are as they were, and
-- the pool stays valid.
pub free_address_lem :
    (p : Ipv4Pool) (b : ℕ)
    → IsValid p
    → b < p.num
    → (p' : Ipv4Pool) × (free_address (p.start + b) p ≡ (true, p'))
      × IsValid p'
      × ((c : ℕ) → is_used c p'.alloc ≡ (if c == b then false else is_used c p.alloc))
unfolding free_address
free_address_lem p b v lt =
    let small = v.small in
    let size = v.size in
    let i = b / 32 in
    let k = b % 32 in
    let there : i < length p.alloc = omega (arith, size, lt) in
    let distance : sub_int (p.start + b) p.start ≡ b = omega (arith, small, lt) in
    let less : less_int b p.num ≡ true = ground (arith, small, lt) in
    let shifted : shift_int b ≡ b / 32 = ground (arith, small, lt) in
    let used = λ (c : ℕ).
      is_used-assign_reset i k c p.alloc (omega arith)
      ∙ ap (λ n. if c == n then false else is_used c p.alloc) (omega arith) in
    let valid =
      assign-IsValid p i (reset_bit k (word i p.alloc)) v there
        (reset_bit-lt 32 k (word i p.alloc) (word_there p i v there))
        (λ c le e. ground (arith, used c, e, le, lt)) in
    (
      record p { alloc = assign i (reset_bit k (word i p.alloc)) p.alloc },
      rw (distance, less, shifted) refl,
      valid,
      used,
    )
