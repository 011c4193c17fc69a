-- ===== src/Paa/Alloc.antt =====
-- What a pool hands out (ipv4_pool::alloc_address, free_address).
use openair_cn_cups.Common.{
  ℕ, zero, suc, ◌+◌, ◌*◌, ◌/◌, ◌%◌, ◌^◌, ◌<◌, ◌≤◌, ◌≡◌, ◌≢◌, inl, inr, ◌==◌, ==_iff, if◌then◌else◌,
  Bool, true, false, Option, none, some, length, refl, Bool-cases, eq-or_ne, arith,
}
use openair_cn_cups.StdMap.{Map, find, assign}
use openair_cn_cups.StdMap.Laws.{find-assign}
use openair_cn_cups.Paa.{Ipv4Pool, all_ones, word, alloc_free_bit}
use openair_cn_cups.Paa.Bits.{
  test_bit-all_ones, test_bit, set_bit, reset_bit, first_clear, test_bit-set_bit,
  test_bit-reset_bit, first_clear-lt, test_bit-first_clear, test_bit-below,
}

-- Is the address at this distance from the start in use?
unfoldable pub is_used : ℕ → Map ℕ → Bool
unfolding word test_bit
is_used b m = test_bit (b % 32) (word (b / 32) m)

-- There is a word for every 32 addresses and for the rest of them, and what it has bits for beyond
-- the size counts as in use. The addresses are 32-bit numbers, and the size is a positive int.
pub record IsValid (p : Ipv4Pool) : Type 0 where
  pub size : length p.alloc ≡ (p.num + 31) / 32
  pub there : (i : ℕ) → i < length p.alloc → (w : ℕ) × (find i p.alloc ≡ some w) × (w < 2 ^ 32)
  pub only : (i : ℕ) → length p.alloc ≤ i → find i p.alloc ≡ none
  pub padded : (b : ℕ) → p.num ≤ b → b < 32 * length p.alloc → is_used b p.alloc ≡ true
  pub small : p.num < 2 ^ 31
  pub fits : p.start + p.num ≤ 2 ^ 32

pub word-assign : (j i w : ℕ) (m : Map ℕ) → word j (assign i w m) ≡ (if j == i then w else word j m)
unfolding word
word-assign j i w m = ground (arith, find-assign j i w m)

-- The state of one address after its bit is written.
pub is_used-assign_set :
    (i k b : ℕ) (m : Map ℕ)
    → k < 32
    → is_used b (assign i (set_bit k (word i m)) m)
      ≡ (if b == 32 * i + k then true else is_used b m)
unfolding is_used
is_used-assign_set i k b m lt = elim (eq-or_ne (b / 32) i) [
  | inl same ↦
      rw (word-assign (b / 32) i (set_bit k (word i m)) m, same)
        (ground (arith, test_bit-set_bit (b % 32) k (word i m), same))
  | inr ne ↦ ground (arith, word-assign (b / 32) i (set_bit k (word i m)) m, ne)
]

pub is_used-assign_reset :
    (i k b : ℕ) (m : Map ℕ)
    → k < 32
    → is_used b (assign i (reset_bit k (word i m)) m)
      ≡ (if b == 32 * i + k then false else is_used b m)
unfolding is_used
is_used-assign_reset i k b m lt = elim (eq-or_ne (b / 32) i) [
  | inl same ↦
      rw (word-assign (b / 32) i (reset_bit k (word i m)) m, same)
        (ground (arith, test_bit-reset_bit (b % 32) k (word i m), same))
  | inr ne ↦ ground (arith, word-assign (b / 32) i (reset_bit k (word i m)) m, ne)
]

pub full_word : (b : ℕ) (m : Map ℕ) → word (b / 32) m ≡ all_ones → is_used b m ≡ true
unfolding is_used
full_word b m e = rw e (test_bit-all_ones (b % 32) (omega arith))

-- The first address that is not in use, from the word `i` on.
pub record IsFirst (i n : ℕ) (m : Map ℕ) (bit_pos : ℕ) (m' : Map ℕ) : Type 0 where
  pub from : 32 * i ≤ bit_pos
  pub below : bit_pos < 32 * (i + n)
  pub free : is_used bit_pos m ≡ false
  pub before : (b : ℕ) → 32 * i ≤ b → b < bit_pos → is_used b m ≡ true
  pub written : m' ≡ assign (bit_pos / 32) (set_bit (bit_pos % 32) (word (bit_pos / 32) m)) m

abbrev pub Found : ℕ → ℕ → Map ℕ → Option (ℕ × Map ℕ) → Type 0
Found i n m none = (j : ℕ) → i ≤ j → j < i + n → word j m ≡ all_ones
Found i n m (some (bit_pos, m')) = IsFirst i n m bit_pos m'

Found-full :
    (i n : ℕ) (m : Map ℕ) (o : Option (ℕ × Map ℕ))
    → word i m ≡ all_ones
    → Found (i + 1) n m o
    → Found i (suc n) m o
Found-full i n m none full h = λ j le lt. elim (eq-or_ne j i) [
  | inl same ↦ rw same full
  | inr ne ↦ h j (omega arith) (omega arith)
]
Found-full i n m (some (bit_pos, m')) full h = record {
  from = omega (arith, h.from);
  below = omega (arith, h.below);
  free = h.free;
  before = λ b le lt. elim (eq-or_ne (b / 32) i) [
    | inl same ↦ full_word b m (rw same full)
    | inr ne ↦ h.before b (omega arith) lt
  ];
  written = h.written;
}

IsFirst-here :
    (i n : ℕ) (m : Map ℕ)
    → word i m < 2 ^ 32
    → word i m ≢ all_ones
    → IsFirst i
        (suc n)
        m
        (32 * i + first_clear 32 (word i m))
        (assign i (set_bit (first_clear 32 (word i m)) (word i m)) m)
unfolding is_used
IsFirst-here i n m lt ne =
    let w = word i m in
    let k = first_clear 32 w in
    let small = first_clear-lt 32 w lt ne in
    let quotient : (32 * i + k) / 32 ≡ i = omega (arith, small) in
    let remainder : (32 * i + k) % 32 ≡ k = omega (arith, small) in
    record {
      from = omega arith;
      below = omega (arith, small);
      free = rw (quotient, remainder) (test_bit-first_clear 32 w lt ne);
      before = λ b le below.
          let same : b / 32 ≡ i = omega (arith, small) in
          rw same (test_bit-below 32 w (b % 32) (omega arith));
      written = rw (quotient, remainder) refl;
    }

pub alloc_free_bit-Found :
    (n i : ℕ) (m : Map ℕ)
    → ((j : ℕ) → i ≤ j → j < i + n → word j m < 2 ^ 32)
    → Found i n m (alloc_free_bit n i m)
unfolding alloc_free_bit
alloc_free_bit-Found zero i m small = λ j le lt. absurd (omega arith)
alloc_free_bit-Found (suc n) i m small = elim (Bool-cases (word i m == all_ones)) [
  | inl full ↦
      rw (alloc_free_bit, full)
        (Found-full i n m (alloc_free_bit n (i + 1) m) ((==_iff (word i m) all_ones).0 full)
          (alloc_free_bit-Found n (i + 1) m (λ j le lt. small j (omega arith) (omega arith))))
  | inr some_clear ↦
      rw (alloc_free_bit, some_clear)
        (IsFirst-here i n m (small i (omega arith) (omega arith))
          (λ full. ground (arith, full, some_clear)))
]
