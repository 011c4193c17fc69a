-- ===== src/Uid/Fresh.antt =====
-- get_uid ends whenever an identifier is free, and hands out one that is not in use.
use native.Mathlib.Nat.{mod-add-mod, mod-eq-sub-mod, mod-eq_of_lt, mod-lt, one-le-pow}
use openair_cn_cups.Common.{
  subst, some-inj, none-ne_some, Option-cases, ℕ, zero, suc, ◌+◌, ◌%◌, ◌^◌, ◌≤◌, ◌<◌, ◌==◌, ◌||◌,
  true, false, List, [], ◌∷◌, some, ◌≡◌, ◌≢◌, refl, sym, ap, ◌∙◌, inl, inr, arith, length,
  Bool-cases, ==_iff, if◌then◌else◌,
}
use openair_cn_cups.Uid.{
  UintGenerator, count, insert, erase, next_uid, find_free, finish, get_uid, free_uid,
}

pub count-erase :
    (x y : ℕ) (ys : List ℕ) → count x (erase y ys) ≡ (if x == y then false else count x ys)
unfolding count erase
count-erase x y [] = ground arith
count-erase x y (z ∷ ys) = ground (arith, count-erase x y ys)

pub count-insert : (x y : ℕ) (ys : List ℕ) → count x (insert y ys) ≡ (x == y || count x ys)
unfolding count insert
count-insert x y ys = ground (arith, ==_iff x y)

length-erase_le : (x : ℕ) (ys : List ℕ) → length (erase x ys) ≤ length ys
unfolding erase
length-erase_le x [] = omega arith
length-erase_le x (y ∷ ys) = ground (arith, length-erase_le x ys)

length-erase_lt : (x : ℕ) (ys : List ℕ) → count x ys ≡ true → length (erase x ys) < length ys
unfolding count erase
length-erase_lt x [] h = ground arith
length-erase_lt x (y ∷ ys) h = ground (arith, length-erase_le x ys, length-erase_lt x ys)

-- The values that `rounds` rounds try from `uid` on leave `x` out.
abbrev Avoids : ℕ → ℕ → ℕ → ℕ → Type 0
Avoids w rounds uid x = (i : ℕ) → i < rounds → (uid + i) % 2 ^ w ≢ x

shift : (m uid i : ℕ) → ((uid + 1) % m + i) % m ≡ (uid + suc i) % m
shift m uid i = mod-add-mod (uid + 1) m i ∙ ap (λ (t : ℕ). t % m) (omega arith)

Avoids-next :
    (w rounds uid x : ℕ) → Avoids w (suc rounds) uid x → Avoids w rounds (next_uid w uid) x
Avoids-next w rounds uid x h i lt e = h (suc i) (omega arith) (sym (shift (2 ^ w) uid i) ∙ e)

-- No value comes back in fewer rounds than there are values.
no_return : (m uid i : ℕ) → uid < m → suc i < m → (uid + suc i) % m ≢ uid
no_return m uid i lt hi e = grind (arith, mod-eq_of_lt, mod-eq-sub-mod)

Avoids-self :
    (w rounds uid : ℕ) → uid < 2 ^ w → rounds < 2 ^ w → Avoids w rounds (next_uid w uid) uid
Avoids-self w rounds uid lt hr i hi e =
    no_return (2 ^ w) uid i lt (omega arith) (sym (shift (2 ^ w) uid i) ∙ e)

next_uid-lt : (w uid : ℕ) → next_uid w uid < 2 ^ w
next_uid-lt w uid = mod-lt (uid + 1) (one-le-pow w 2 (omega arith))

Avoids-head : (w rounds uid x : ℕ) → uid < 2 ^ w → Avoids w (suc rounds) uid x → uid ≢ x
Avoids-head w rounds uid x lt h e =
    h 0 (omega arith) (ap (λ (t : ℕ). t % 2 ^ w) (omega arith) ∙ mod-eq_of_lt lt ∙ e)

find_free-erase :
    (w rounds uid x : ℕ) (ys : List ℕ)
    → uid < 2 ^ w
    → Avoids w rounds uid x
    → find_free w rounds uid (erase x ys) ≡ find_free w rounds uid ys
unfolding find_free
find_free-erase w zero uid x ys lt h = refl
find_free-erase w (suc rounds) uid x ys lt h = ground (
  arith,
  count-erase uid x ys,
  Avoids-head w rounds uid x lt h,
  find_free-erase w rounds (next_uid w uid) x ys (next_uid-lt w uid) (Avoids-next w rounds uid x h),
)

find_free_total :
    (w rounds uid : ℕ) (ys : List ℕ)
    → uid < 2 ^ w
    → length ys < rounds
    → rounds ≤ 2 ^ w
    → (v : ℕ) × (find_free w rounds uid ys ≡ some v)
unfolding find_free
find_free_total w zero uid ys lt hl hr = absurd (omega arith)
find_free_total w (suc rounds) uid ys lt hl hr = elim (Bool-cases (count uid ys)) [
  | inl used ↦
      let (v, e) =
        find_free_total w rounds (next_uid w uid) (erase uid ys) (next_uid-lt w uid)
          (omega (arith, length-erase_lt uid ys used)) (omega arith) in
      let same =
        find_free-erase w rounds (next_uid w uid) uid ys (next_uid-lt w uid)
          (Avoids-self w rounds uid lt (omega arith)) in
      (v, rw used (sym same ∙ e))
  | inr free ↦ (uid, rw free)
]

find_free_fresh :
    (w rounds uid v : ℕ) (ys : List ℕ)
    → uid < 2 ^ w
    → find_free w rounds uid ys ≡ some v
    → (count v ys ≡ false) × (v < 2 ^ w)
unfolding find_free
find_free_fresh w zero uid v ys lt e = ground arith
find_free_fresh w (suc rounds) uid v ys lt e =
    ground (arith, find_free_fresh w rounds (next_uid w uid) v ys (next_uid-lt w uid))

-- As long as some of the 2 ^ w identifiers is free, get_uid returns; the identifier is a w-bit
-- number that was not in use, it is in use afterwards, and so is exactly what was before.
pub get_uid_fresh :
    (w : ℕ) (g : UintGenerator)
    → length g.uid_generated < 2 ^ w
    → (uid : ℕ) × (g' : UintGenerator) × (get_uid w g ≡ some (uid, g'))
      × (uid < 2 ^ w)
      × (count uid g.uid_generated ≡ false)
      × ((x : ℕ) → count x g'.uid_generated ≡ (x == uid || count x g.uid_generated))
unfolding get_uid
get_uid_fresh w g h =
    let start = next_uid w g.uid_generator in
    let (v, e) =
      find_free_total w (suc (length g.uid_generated)) start g.uid_generated
        (next_uid-lt w g.uid_generator) (omega arith) (omega arith) in
    let (free, lt) =
      find_free_fresh w (suc (length g.uid_generated)) start v g.uid_generated
        (next_uid-lt w g.uid_generator) e in
    (
      v,
      record { uid_generator = v; uid_generated = insert v g.uid_generated },
      ap (finish g) e,
      lt,
      free,
      λ x. count-insert x v g.uid_generated,
    )

length-insert_le : (x : ℕ) (ys : List ℕ) → length (insert x ys) ≤ suc (length ys)
unfolding insert
length-insert_le x ys = ground arith

pub get_uid_grows :
    (w : ℕ) (g : UintGenerator)
    → length g.uid_generated < 2 ^ w
    → (uid : ℕ) × (g' : UintGenerator) × (get_uid w g ≡ some (uid, g'))
      × (length g'.uid_generated ≤ suc (length g.uid_generated))
unfolding get_uid
get_uid_grows w g h =
    let start = next_uid w g.uid_generator in
    let (v, e) =
      find_free_total w (suc (length g.uid_generated)) start g.uid_generated
        (next_uid-lt w g.uid_generator) (omega arith) (omega arith) in
    (v, _, ap (finish g) e, length-insert_le v g.uid_generated)

-- Whatever get_uid returns is as get_uid_fresh says.
pub get_uid_returned :
    (w : ℕ) (g g' : UintGenerator) (uid : ℕ)
    → get_uid w g ≡ some (uid, g')
    → (uid < 2 ^ w)
      × (count uid g.uid_generated ≡ false)
      × ((x : ℕ) → count x g'.uid_generated ≡ (x == uid || count x g.uid_generated))
unfolding get_uid
get_uid_returned w g g' uid h =
    let found =
      find_free w (suc (length g.uid_generated)) (next_uid w g.uid_generator) g.uid_generated in
    elim (Option-cases found) [
      | inl e ↦ absurd (none-ne_some _ (ap (finish g) e) h)
      | inr (v, e) ↦
          let (free, lt) =
            find_free_fresh w (suc (length g.uid_generated)) _ v g.uid_generated
              (next_uid-lt w g.uid_generator) e in
          let same = some-inj (sym (ap (finish g) e) ∙ h) in
          subst
            (λ (r : ℕ × UintGenerator).
              (r.0 < 2 ^ w)
              × (count r.0 g.uid_generated ≡ false)
              × ((x : ℕ) → count x r.1.uid_generated ≡ (x == r.0 || count x g.uid_generated)))
            same (lt, free, λ x. count-insert x v g.uid_generated)
    ]

-- free_uid takes back its identifier and no other, so a later get_uid may hand it out again.
pub free_uid_lem :
    (g : UintGenerator) (x uid : ℕ)
    → count x (free_uid uid g).uid_generated ≡ (if x == uid then false else count x g.uid_generated)
unfolding free_uid
free_uid_lem g x uid = count-erase x uid g.uid_generated
