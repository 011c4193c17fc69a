-- ===== src/Paa/Bits.antt =====
-- std::bitset<32> on the number that it is made from.
use openair_cn_cups.Common.{
  ◌∙◌, Bool-cases, ==_iff, inl, inr, ℕ, zero, suc, ◌+◌, ◌-◌, ◌*◌, ◌/◌, ◌%◌, ◌^◌, ◌<◌, ◌≤◌, ◌≡◌, ◌≢◌,
  ◌==◌, leb, if◌then◌else◌, Bool, true, false, refl, arith,
}
use native.Mathlib.Nat.{pow-suc, one-le-pow}

-- bs[k]
unfoldable pub test_bit : ℕ → ℕ → Bool
test_bit zero w = w % 2 == 1
test_bit (suc k) w = test_bit k (w / 2)

-- bs.set(k)
unfoldable pub set_bit : ℕ → ℕ → ℕ
set_bit zero w = w / 2 * 2 + 1
set_bit (suc k) w = set_bit k (w / 2) * 2 + w % 2

-- bs.reset(k)
unfoldable pub reset_bit : ℕ → ℕ → ℕ
reset_bit zero w = w / 2 * 2
reset_bit (suc k) w = reset_bit k (w / 2) * 2 + w % 2

-- The loop `while (bs[word_bit_pos])` on a word of `bits` bits, some of which is clear.
unfoldable pub first_clear : ℕ → ℕ → ℕ
first_clear zero w = 0
first_clear (suc bits) w = let rest = first_clear bits (w / 2) in if w % 2 == 1 then suc rest else 0

pub test_bit-set_bit :
    (j k w : ℕ) → test_bit j (set_bit k w) ≡ (if j == k then true else test_bit j w)
unfolding test_bit set_bit
test_bit-set_bit zero zero w = ground arith
test_bit-set_bit zero (suc k) w = ground arith
test_bit-set_bit (suc j) zero w =
    let e : (w / 2 * 2 + 1) / 2 ≡ w / 2 = omega arith in rw e (ground arith)
test_bit-set_bit (suc j) (suc k) w =
    let e : (set_bit k (w / 2) * 2 + w % 2) / 2 ≡ set_bit k (w / 2) = omega arith in
    rw e (ground (arith, test_bit-set_bit j k (w / 2)))

pub test_bit-reset_bit :
    (j k w : ℕ) → test_bit j (reset_bit k w) ≡ (if j == k then false else test_bit j w)
unfolding test_bit reset_bit
test_bit-reset_bit zero zero w = ground arith
test_bit-reset_bit zero (suc k) w = ground arith
test_bit-reset_bit (suc j) zero w =
    let e : w / 2 * 2 / 2 ≡ w / 2 = omega arith in rw e (ground arith)
test_bit-reset_bit (suc j) (suc k) w =
    let e : (reset_bit k (w / 2) * 2 + w % 2) / 2 ≡ reset_bit k (w / 2) = omega arith in
    rw e (ground (arith, test_bit-reset_bit j k (w / 2)))

pow_step : (n : ℕ) → 2 ^ suc n ≡ 2 * 2 ^ n
pow_step n = omega (arith, pow-suc 2 n)

pub set_bit-lt : (bits k w : ℕ) → k < bits → w < 2 ^ bits → set_bit k w < 2 ^ bits
unfolding set_bit
set_bit-lt zero k w h lt = absurd (omega arith)
set_bit-lt (suc bits) zero w h lt = omega (arith, pow_step bits)
set_bit-lt (suc bits) (suc k) w h lt =
    let half : w / 2 < 2 ^ bits = omega (arith, pow_step bits) in
    omega (arith, pow_step bits, set_bit-lt bits k (w / 2) (omega arith) half)

pub reset_bit-lt : (bits k w : ℕ) → w < 2 ^ bits → reset_bit k w < 2 ^ bits
unfolding reset_bit
reset_bit-lt zero zero w lt = omega arith
reset_bit-lt zero (suc k) w lt =
    let e : w ≡ 0 = omega arith in rw e (omega (arith, reset_bit-lt zero k 0 (omega arith)))
reset_bit-lt (suc bits) zero w lt = omega arith
reset_bit-lt (suc bits) (suc k) w lt =
    let half : w / 2 < 2 ^ bits = omega (arith, pow_step bits) in
    omega (arith, pow_step bits, reset_bit-lt bits k (w / 2) half)

-- A word that is not all ones has a first clear bit, and all bits below it are set.
pub first_clear-lt : (bits w : ℕ) → w < 2 ^ bits → w ≢ 2 ^ bits - 1 → first_clear bits w < bits
unfolding first_clear
first_clear-lt zero w lt ne = absurd (ne (omega arith))
first_clear-lt (suc bits) w lt ne = elim (Bool-cases (w % 2 == 1)) [
  | inl odd ↦
      let e : w % 2 ≡ 1 = (==_iff (w % 2) 1).0 odd in
      let half : w / 2 < 2 ^ bits = omega (arith, pow_step bits) in
      let some_clear : w / 2 ≢ 2 ^ bits - 1 = λ full. ne (omega (arith, pow_step bits, e, full)) in
      rw odd (omega (arith, first_clear-lt bits (w / 2) half some_clear))
  | inr even ↦ rw even (omega arith)
]

pub test_bit-first_clear :
    (bits w : ℕ) → w < 2 ^ bits → w ≢ 2 ^ bits - 1 → test_bit (first_clear bits w) w ≡ false
unfolding first_clear test_bit
test_bit-first_clear zero w lt ne = absurd (ne (omega arith))
test_bit-first_clear (suc bits) w lt ne = elim (Bool-cases (w % 2 == 1)) [
  | inl odd ↦
      let e : w % 2 ≡ 1 = (==_iff (w % 2) 1).0 odd in
      let half : w / 2 < 2 ^ bits = omega (arith, pow_step bits) in
      let some_clear : w / 2 ≢ 2 ^ bits - 1 = λ full. ne (omega (arith, pow_step bits, e, full)) in
      rw odd (test_bit-first_clear bits (w / 2) half some_clear)
  | inr even ↦ rw (even, test_bit, even) refl
]

pub test_bit-below : (bits w j : ℕ) → j < first_clear bits w → test_bit j w ≡ true
unfolding first_clear test_bit
test_bit-below zero w j lt = absurd (omega arith)
test_bit-below (suc bits) w zero lt = ground arith
test_bit-below (suc bits) w (suc j) lt = ground (arith, test_bit-below bits (w / 2) j)

-- max() << r, on a word of `bits` bits: the lower r bits are clear, the others set.
pub test_bit-ones : (bits r j : ℕ) → r ≤ bits → j < bits → test_bit j (2 ^ bits - 2 ^ r) ≡ leb r j
unfolding test_bit
test_bit-ones zero r j le lt = absurd (omega arith)
test_bit-ones (suc bits) zero zero le lt =
    let big : 1 ≤ 2 ^ bits = one-le-pow bits 2 (omega arith) in
    let e : (2 ^ suc bits - 1) % 2 ≡ 1 = omega (arith, pow_step bits, big) in rw e refl
test_bit-ones (suc bits) zero (suc j) le lt =
    let big : 1 ≤ 2 ^ bits = one-le-pow bits 2 (omega arith) in
    let e : (2 ^ suc bits - 1) / 2 ≡ 2 ^ bits - 1 = omega (arith, pow_step bits, big) in
    rw e (test_bit-ones bits zero j (omega arith) (omega arith) ∙ ground arith)
test_bit-ones (suc bits) (suc r) zero le lt =
    let e : (2 ^ suc bits - 2 ^ suc r) % 2 ≡ 0 = omega (arith, pow_step bits, pow_step r) in
    rw e (ground arith)
test_bit-ones (suc bits) (suc r) (suc j) le lt =
    let e : (2 ^ suc bits - 2 ^ suc r) / 2 ≡ 2 ^ bits - 2 ^ r =
      omega (arith, pow_step bits, pow_step r) in
    rw e (test_bit-ones bits r j (omega arith) (omega arith) ∙ ground arith)

pub test_bit-all_ones : (j : ℕ) → j < 32 → test_bit j 4294967295 ≡ true
test_bit-all_ones j lt = test_bit-ones 32 0 j (omega arith) lt ∙ ground arith
