-- ===== src/Common/Flags.antt =====
-- A byte of one-bit fields, the first field lowest, as the compilers of the target lay it out; and
-- the members that such a byte announces.
use Prim.Native.Nat.{ℕ, ◌+◌, ◌*◌, ◌/◌, ◌%◌, ◌^◌, ◌<◌}
use mathlib.Core.Path.{◌≡◌, refl, ap}
use mathlib.Core.Bool.{Bool, true, false}
use mathlib.Core.List.{List, [], ◌++◌}
use native.Mathlib.Omega.{arith}
use openair_cn_cups.Common.Tests.{bit, is_set, if◌then◌else◌}
use openair_cn_cups.Common.Results.{Result, ok}
use openair_cn_cups.Common.Lists.{length}
use openair_cn_cups.Common.Words.{
  read_array, read_array-write_be, length-write_be, write_be, read_be, read_be-write_be,
}

unfoldable pub flag : ℕ → ℕ → Bool
flag i u = is_set (u / 2 ^ i % 2)

pub bits : Bool → Bool → Bool → Bool → Bool → ℕ
bits a b c d e = bit a + 2 * bit b + 4 * bit c + 8 * bit d + 16 * bit e

module _ (a b c d e : Bool) where
  pub flag-bits_first : flag 0 (bits a b c d e) ≡ a
  unfolding flag bits
  flag-bits_first = ground arith

  pub flag-bits_second : flag 1 (bits a b c d e) ≡ b
  unfolding flag bits
  flag-bits_second = ground arith

  pub flag-bits_third : flag 2 (bits a b c d e) ≡ c
  unfolding flag bits
  flag-bits_third = ground arith

  pub flag-bits_fourth : flag 3 (bits a b c d e) ≡ d
  unfolding flag bits
  flag-bits_fourth = ground arith

  pub flag-bits_fifth : flag 4 (bits a b c d e) ≡ e
  unfolding flag bits
  flag-bits_fifth = ground arith

  pub bits-lt : bits a b c d e < 256
  unfolding bits
  bits-lt = ground arith

-- `if (b) os.write(…)` and `if (b) is.read(…)` for a word of `k` bytes; `old` is what the member
-- holds if it is not read.
abbrev pub write_if : Bool → ℕ → ℕ → List ℕ
write_if b k n = if b then write_be k n else []

abbrev pub read_if : Bool → ℕ → ℕ → List ℕ → Result (ℕ × List ℕ)
read_if true k old s = read_be k old s
read_if false k old s = ok (old, s)

-- `if (b) ipv4_address_load_from(…)`, and the same with ipv6: an address is its bytes in memory.
abbrev pub read_address_if : Bool → ℕ → ℕ → List ℕ → Result (ℕ × List ℕ)
read_address_if true k old s = read_array k old s
read_address_if false k old s = ok (old, s)

pub read_address_if-write_if :
    (b : Bool) (k old n : ℕ) (rest : List ℕ)
    → n < 256 ^ k
    → read_address_if b k old (write_if b k n ++ rest) ≡ ok ((if b then n else old), rest)
read_address_if-write_if true k old n rest h = read_array-write_be k old n rest h
read_address_if-write_if false k old n rest h = refl

pub read_if-write_if :
    (b : Bool) (k old n : ℕ) (rest : List ℕ)
    → n < 256 ^ k
    → read_if b k old (write_if b k n ++ rest) ≡ ok ((if b then n else old), rest)
read_if-write_if true k old n rest h = read_be-write_be k old n rest h
read_if-write_if false k old n rest h = refl

pub ruleset flags =
    (flag-bits_first, flag-bits_second, flag-bits_third, flag-bits_fourth, flag-bits_fifth)

-- The lowest field depends on the lowest bit only.
pub flag-low : (m n : ℕ) → m % 2 ≡ n % 2 → flag 0 m ≡ flag 0 n
unfolding flag
flag-low m n h = ap is_set (omega arith)

-- Adding 1 to a byte whose lowest field is clear sets that field.
pub flag-low_add : (n : ℕ) → flag 0 n ≡ false → flag 0 (n + 1) ≡ true
unfolding flag
flag-low_add n h = ground arith

pub length-write_if : (b : Bool) (k n : ℕ) → length (write_if b k n) ≡ (if b then k else 0)
length-write_if true k n = length-write_be k n
length-write_if false k n = refl
