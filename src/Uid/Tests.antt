-- ===== src/Uid/Tests.antt =====
-- Runs of the identifier generator, and its theorems at concrete inputs.
use openair_cn_cups.Common.{ℕ, ◌^◌, ◌<◌, ◌==◌, ◌||◌, false, [], ◌∷◌, some, ◌≡◌, refl, arith}
use openair_cn_cups.Uid.{UintGenerator, count, get_uid}
use openair_cn_cups.Uid.Fresh.{get_uid_fresh}

-- A 2-bit generator about to wrap, with 0 and 1 in use.
abbrev wrapping : UintGenerator
wrapping = record { uid_generator = 3; uid_generated = 0 ∷ 1 ∷ [] }

skips_used :
    get_uid 2 wrapping ≡ some (2, record { uid_generator = 2; uid_generated = 2 ∷ 0 ∷ 1 ∷ [] })
unfolding get_uid
skips_used = refl

get_uid_fresh_example :
    (uid : ℕ) × (g' : UintGenerator) × (get_uid 2 wrapping ≡ some (uid, g'))
    × (uid < 2 ^ 2)
    × (count uid wrapping.uid_generated ≡ false)
    × ((x : ℕ) → count x g'.uid_generated ≡ (x == uid || count x wrapping.uid_generated))
get_uid_fresh_example = get_uid_fresh 2 wrapping (omega arith)
