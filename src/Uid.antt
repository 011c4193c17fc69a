-- ===== src/Uid.antt =====
-- src/common/utils/uint_generator.hpp: the identifier generator, of which a 64-bit instance hands out
-- session identifiers and a 32-bit one tunnel identifiers. The two mutexes make get_uid and
-- free_uid atomic; std::set is a list of which only membership is read.
pub mod Fresh
mod Tests
use openair_cn_cups.Common.{
  ℕ, zero, suc, ◌+◌, ◌%◌, ◌^◌, ◌==◌, ◌||◌, if◌then◌else◌, Bool, true, false, List, [], ◌∷◌, Option,
  none, some, length,
}

pub record UintGenerator : Type 0 where
  pub uid_generator : ℕ
  pub uid_generated : List ℕ

-- std::set<UINT>::count, insert and erase.
unfoldable pub count : ℕ → List ℕ → Bool
count x [] = false
count x (y ∷ ys) = x == y || count x ys

unfoldable pub insert : ℕ → List ℕ → List ℕ
unfolding count
insert x ys = if count x ys then ys else x ∷ ys

unfoldable pub erase : ℕ → List ℕ → List ℕ
erase x [] = []
erase x (y ∷ ys) = if x == y then erase x ys else y ∷ erase x ys

-- ++uid on a `w`-bit UINT.
abbrev pub next_uid : ℕ → ℕ → ℕ
next_uid w uid = (uid + 1) % 2 ^ w

-- The loop of get_uid, in rounds; `none` means that the rounds ran out.
unfoldable pub find_free : ℕ → ℕ → ℕ → List ℕ → Option ℕ
unfolding count
find_free w zero uid generated = none
find_free w (suc rounds) uid generated =
    let rest = find_free w rounds (next_uid w uid) generated in
    if count uid generated then rest else some uid

abbrev pub finish : UintGenerator → Option ℕ → Option (ℕ × UintGenerator)
finish g none = none
finish g (some uid) =
    some (uid, record { uid_generator = uid; uid_generated = insert uid g.uid_generated })

-- get_uid. One round more than there are identifiers in use is enough whenever one is free.
unfoldable pub get_uid : ℕ → UintGenerator → Option (ℕ × UintGenerator)
unfolding find_free insert
get_uid w g =
    finish g
      (find_free w (suc (length g.uid_generated)) (next_uid w g.uid_generator) g.uid_generated)

unfoldable pub free_uid : ℕ → UintGenerator → UintGenerator
unfolding erase
free_uid uid g = record g { uid_generated = erase uid g.uid_generated }
