-- ===== src/Common/Words.antt =====
-- Unsigned words on the wire: big-endian bytes (htobeNN, beNNtoh on a little-endian host), and the
-- order of the host itself.
use openair_cn_cups.Common.Lists.{length}
use openair_cn_cups.Common.Results.{Result, ok}
use Prim.Native.Nat.{ℕ, zero, suc, ◌+◌, ◌*◌, ◌/◌, ◌%◌, ◌^◌, ◌<◌}
use mathlib.Core.Path.{◌≡◌, refl, ap, ◌∙◌}
use mathlib.Core.List.{List, [], ◌∷◌, ◌++◌}
use native.Mathlib.Omega.{arith}
use native.Mathlib.Nat.{
  pow-succ', one-le-pow, div-add-mod, mod-lt, mod-eq_of_lt, add-mul-mod_self_left,
}

-- The `k` low bytes of `n`, the highest first.
unfoldable pub write_be : ℕ → ℕ → List ℕ
write_be zero n = []
write_be (suc k) n = (n / 256 ^ k % 256) ∷ write_be k n

-- The `k` low bytes of `n`, the lowest first: a word written as it lies in memory.
unfoldable pub write_le : ℕ → ℕ → List ℕ
write_le zero n = []
write_le (suc k) n = (n % 256) ∷ write_le k (n / 256)

-- `is.read` into memory that holds the bytes of the first list, the result taken as a big-endian
-- number behind `acc`. At the end of the stream nothing is thrown: the bytes that are there are
-- stored, the others stay, and the stream is in failure. From a stream in failure nothing is read,
-- as from the empty list.
unfoldable pub read_be_from : List ℕ → ℕ → List ℕ → Result (ℕ × List ℕ)
read_be_from [] acc s = ok (acc, s)
read_be_from (old ∷ olds) acc [] = read_be_from olds (acc * 256 + old) []
read_be_from (old ∷ olds) acc (b ∷ s) = read_be_from olds (acc * 256 + b) s

-- `is.read` into a word of `k` bytes that is `old`, and beNNtoh on the word.
abbrev pub read_be : ℕ → ℕ → List ℕ → Result (ℕ × List ℕ)
read_be k old s = read_be_from (write_le k old) 0 s

-- `is.read` into an array of `k` bytes, which stands for the number with these bytes.
abbrev pub read_array : ℕ → ℕ → List ℕ → Result (ℕ × List ℕ)
read_array k old s = read_be_from (write_be k old) 0 s

pub length-write_be : (k n : ℕ) → length (write_be k n) ≡ k
unfolding write_be
length-write_be zero n = refl
length-write_be (suc k) n = ap suc (length-write_be k n)

pub length-write_le : (k n : ℕ) → length (write_le k n) ≡ k
unfolding write_le
length-write_le zero n = refl
length-write_le (suc k) n = ap suc (length-write_le k (n / 256))

below_radix : (r s p : ℕ) → r < 256 → s < p → r * p + s < 256 * p
below_radix r s p hr hs = grind arith

digit_split : (n p : ℕ) → n ≡ n / p % 256 * p + n % p + 256 * p * (n / p / 256)
digit_split n p = omega (arith, div-add-mod n p, ap (λ (t : ℕ). p * t) (div-add-mod (n / p) 256))

mod_radix : (n p : ℕ) → 0 < p → n % (256 * p) ≡ n / p % 256 * p + n % p
mod_radix n p h =
    ap (λ (t : ℕ). t % (256 * p)) (digit_split n p)
    ∙ add-mul-mod_self_left (n / p % 256 * p + n % p) (256 * p) (n / p / 256)
    ∙ mod-eq_of_lt (below_radix _ _ _ (omega arith) (mod-lt n h))

pub read_be_from-write_be :
    (k acc n : ℕ) (olds rest : List ℕ)
    → length olds ≡ k
    → read_be_from olds acc (write_be k n ++ rest) ≡ ok (acc * 256 ^ k + n % 256 ^ k, rest)
unfolding read_be_from write_be
read_be_from-write_be zero acc n [] rest h = ap (λ (t : ℕ). ok (t, rest)) (omega arith)
read_be_from-write_be zero acc n (old ∷ olds) rest h = absurd (omega (arith, h))
read_be_from-write_be (suc k) acc n [] rest h = absurd (omega (arith, h))
read_be_from-write_be (suc k) acc n (old ∷ olds) rest h =
    read_be_from-write_be k (acc * 256 + n / 256 ^ k % 256) n olds rest (omega (arith, h))
    ∙ ap (λ (t : ℕ). ok (t, rest))
        (omega (
          arith,
          mod_radix n (256 ^ k) (one-le-pow k 256 (omega arith)),
          pow-succ' 256 k,
          ap (λ (t : ℕ). acc * t) (pow-succ' 256 k),
          ap (λ (t : ℕ). n % t) (pow-succ' 256 k),
        ))

-- A word that fits its width is read back, and what follows it is left.
pub read_be-write_be :
    (k old n : ℕ) (rest : List ℕ)
    → n < 256 ^ k
    → read_be k old (write_be k n ++ rest) ≡ ok (n, rest)
read_be-write_be k old n rest h =
    read_be_from-write_be k 0 n (write_le k old) rest (length-write_le k old)
    ∙ ap (λ (t : ℕ). ok (t, rest)) (omega (arith, mod-eq_of_lt h))

pub read_array-write_be :
    (k old n : ℕ) (rest : List ℕ)
    → n < 256 ^ k
    → read_array k old (write_be k n ++ rest) ≡ ok (n, rest)
read_array-write_be k old n rest h =
    read_be_from-write_be k 0 n (write_be k old) rest (length-write_be k old)
    ∙ ap (λ (t : ℕ). ok (t, rest)) (omega (arith, mod-eq_of_lt h))
