-- ===== src/Common/Streams.antt =====
-- What a decoder leaves of its input.
use openair_cn_cups.Common.Lists.{length}
use openair_cn_cups.Common.Results.{Result, ok, err, ◌>>=◌}
use openair_cn_cups.Common.Words.{length-write_le, read_be_from, read_be, write_le}
use Prim.Native.Nat.{◌*◌, ℕ, ◌+◌, ◌≤◌}
use mathlib.Core.List.{List, [], ◌∷◌}
use native.Mathlib.Omega.{arith}

-- No more than `n` bytes are left.
abbrev pub Within : {A : Type 0} → ℕ → Result (A × List ℕ) → Type 0
Within n (err fault) = Unit
Within n (ok (a, s)) = length s ≤ n

pub Within-read_be_from :
    (olds : List ℕ) (acc n : ℕ) (s : List ℕ)
    → length s ≤ n + length olds
    → Within n (read_be_from olds acc s)
unfolding read_be_from
Within-read_be_from [] acc n s h = omega (arith, h)
Within-read_be_from (old ∷ olds) acc n [] h =
    Within-read_be_from olds (acc * 256 + old) n [] (omega arith)
Within-read_be_from (old ∷ olds) acc n (b ∷ s) h =
    Within-read_be_from olds (acc * 256 + b) n s (omega (arith, h))

pub Within-read_be : (k old n : ℕ) (s : List ℕ) → length s ≤ n → Within n (read_be k old s)
Within-read_be k old n s h =
    Within-read_be_from (write_le k old) 0 n s (omega (arith, h, length-write_le k old))

pub Within-then :
    {A B : Type 0}
    → (n m : ℕ) (r : Result (A × List ℕ)) (f : A × List ℕ → Result (B × List ℕ)) → Within n r
    → ((a : A) (s : List ℕ) → length s ≤ n → Within m (f (a, s)))
    → Within m (r >>= f)
Within-then n m (err fault) f h k = tt
Within-then n m (ok (a, s)) f h k = k a s h
