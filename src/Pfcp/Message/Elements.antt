-- ===== src/Pfcp/Message/Elements.antt =====
-- Elements, with those inside them, after a trip over the wire (pfcp_grouped_ie::load_from).
use openair_cn_cups.Common.{
  append_assoc, ◌-◌, subst, ℕ, ◌+◌, ◌<◌, ◌≤◌, ◌^◌, ◌≡◌, refl, ap, sym, ◌∙◌, List, ◌++◌, true, false,
  some, ok, arith, length, length-append, ==_ne, suc, zero,
}
use openair_cn_cups.Pfcp.Tlv
use openair_cn_cups.Pfcp.Tlv.{Tlv, no_tlv, ie_tlv}
use openair_cn_cups.Pfcp.Message.{
  LeafCodec, Ie, Ies, leaf, grouped, no_ies, next, Answer, is_grouped, counted, of_type, new_ie,
  load_ies, dump_ie, dump_ies,
}

-- The header of an element of 3GPP that is not empty.
pub record IsHeader (t : Tlv) : Type 0 where
  pub plain : t.type < 2 ^ 15
  pub some_length : 0 < t.length
  pub fits : t.length < 2 ^ 16
  pub no_vendor : t.enterprise_id ≡ 0

-- What the other elements do on the wire: those that are good are read as `arrives` says.
pub record IsLeafCodec {Leaf : Type 0} (c : LeafCodec Leaf) : Type 1 where
  pub IsGood : Leaf → Type 0
  pub arrives : Leaf → Leaf
  pub header : (l : Leaf) → IsGood l → IsHeader (c.tlv l)
  pub known : (l : Leaf) → IsGood l → c.knows (c.tlv l).type ≡ true
  pub single : (l : Leaf) → IsGood l → is_grouped (c.tlv l).type ≡ false
  pub same : (l : Leaf) → IsGood l → c.tlv (arrives l) ≡ c.tlv l
  pub body : Leaf → List ℕ
  pub framed : (l : Leaf) → IsGood l → c.dump_to l ≡ Tlv.dump_to (c.tlv l) ++ body l
  pub reads :
      (l : Leaf) (rest : List ℕ)
      → IsGood l
      → c.load_from (c.tlv l) (body l ++ rest) ≡ ok (arrives l, rest)

pub read_header :
    (t : Tlv) (s : List ℕ) → IsHeader t → Tlv.load_from no_tlv (Tlv.dump_to t ++ s) ≡ ok (t, s)
read_header t s h =
    let e : ie_tlv t.type t.length ≡ t =
      ap (λ n. record t { enterprise_id = n }) (sym h.no_vendor) in
    subst (λ u. Tlv.load_from no_tlv (Tlv.dump_to u ++ s) ≡ ok (u, s)) e
      (Tlv.load_from-ie_tlv t.type t.length s h.plain h.fits)

module _ {Leaf : Type 0} (c : LeafCodec Leaf) (laws : IsLeafCodec c) where
  new_ie-header :
      (load : ℕ → List ℕ → Answer (Ies Leaf)) (s s' : List ℕ) (t : Tlv)
      → Tlv.load_from no_tlv s ≡ ok (t, s')
      → new_ie c load s ≡ of_type c load t s'
  unfolding new_ie Tlv.load_from
  new_ie-header load s s' t e = rw e refl

  unfoldable mutual
    -- What arrives of an element.
    pub arrives_ie : Ie Leaf → Ie Leaf
    arrives_ie (leaf l) = leaf (laws.arrives l)
    arrives_ie (grouped t ies) = grouped t (arrives_ies ies)

    pub arrives_ies : Ies Leaf → Ies Leaf
    arrives_ies no_ies = no_ies
    arrives_ies (next ie ies) = next (arrives_ie ie) (arrives_ies ies)

  unfoldable pub counted_ies : Ies Leaf → ℕ
  counted_ies no_ies = 0
  counted_ies (next ie ies) = counted c ie + counted_ies ies

  unfoldable mutual
    -- Every element in it is good, and every header counts what it holds.
    pub IsSound : Ie Leaf → Type 0
    IsSound (leaf l) = laws.IsGood l
    IsSound (grouped t ies) =
        IsHeader t × (is_grouped t.type ≡ true) × (t.length ≡ counted_ies ies) × AllSound ies

    pub AllSound : Ies Leaf → Type 0
    AllSound no_ies = Unit
    AllSound (next ie ies) = IsSound ie × AllSound ies

  -- Every element is there with its four bytes.
  pub length-dump_ie : (ie : Ie Leaf) → IsSound ie → 4 ≤ length (dump_ie c ie)
  unfolding dump_ie IsSound
  length-dump_ie (leaf l) good = omega (
    arith,
    ap length (laws.framed l good),
    length-append (Tlv.dump_to (c.tlv l)) (laws.body l),
    Tlv.length-dump_to_tlv (c.tlv l) (laws.header l good).plain,
  )
  length-dump_ie (grouped t ies) (h, _, _, _) =
      omega
        (arith, length-append (Tlv.dump_to t) (dump_ies c ies), Tlv.length-dump_to_tlv t h.plain)

  pub counted-arrives : (ie : Ie Leaf) → IsSound ie → counted c (arrives_ie ie) ≡ counted c ie
  unfolding arrives_ie IsSound
  counted-arrives (leaf l) good = ap (λ (t : Tlv). 4 + t.length) (laws.same l good)
  counted-arrives (grouped t ies) s = refl

  leaf-of_type :
      (load : ℕ → List ℕ → Answer (Ies Leaf)) (l : Leaf) (rest : List ℕ)
      → laws.IsGood l
      → of_type c load (c.tlv l) (laws.body l ++ rest)
        ≡ some (ok (some (leaf (laws.arrives l)), rest))
  leaf-of_type load l rest good =
      let some_length = (laws.header l good).some_length in
      rw
        (
          ==_ne (c.tlv l).length 0 (omega (arith, some_length)),
          laws.single l good,
          laws.known l good,
          laws.reads l rest good,
        )
        refl

  group-of_type :
      (load : ℕ → List ℕ → Answer (Ies Leaf)) (t : Tlv) (ies' : Ies Leaf) (s rest : List ℕ)
      → IsHeader t
      → is_grouped t.type ≡ true
      → load t.length s ≡ some (ok (ies', rest))
      → of_type c load t s ≡ some (ok (some (grouped t ies'), rest))
  group-of_type load t ies' s rest h group e =
      let some_length = h.some_length in
      rw (==_ne t.length 0 (omega (arith, some_length)), group, e) refl

  mutual
    unfolding dump_ie load_ies IsSound arrives_ie counted_ies

    pub new_ie-dump_ie :
        (ie : Ie Leaf) (fuel : ℕ) (rest : List ℕ)
        → IsSound ie
        → length (dump_ie c ie) ≤ fuel + 3
        → new_ie c (load_ies c fuel) (dump_ie c ie ++ rest) ≡ some (ok (some (arrives_ie ie), rest))
    new_ie-dump_ie (leaf l) fuel rest good enough =
        rw
          (
            laws.framed l good,
            append_assoc,
            new_ie-header (load_ies c fuel) _ _ (c.tlv l)
                (read_header (c.tlv l) (laws.body l ++ rest) (laws.header l good)),
          )
          (leaf-of_type (load_ies c fuel) l rest good)
    new_ie-dump_ie (grouped t ies) fuel rest (h, group, counts, sound) enough =
        let inner : length (dump_ies c ies) < fuel = omega (
          arith,
          enough,
          length-append (Tlv.dump_to t) (dump_ies c ies),
          Tlv.length-dump_to_tlv t h.plain,
        ) in
        rw
          (
            append_assoc,
            new_ie-header (load_ies c fuel) _ _ t (read_header t (dump_ies c ies ++ rest) h),
          )
          (group-of_type (load_ies c fuel) t (arrives_ies ies) (dump_ies c ies ++ rest) rest h group
            (ap (λ n. load_ies c fuel n (dump_ies c ies ++ rest)) counts
              ∙ load_ies-dump_ies ies fuel rest sound inner))

    pub load_ies-dump_ies :
        (ies : Ies Leaf) (fuel : ℕ) (rest : List ℕ)
        → AllSound ies
        → length (dump_ies c ies) < fuel
        → load_ies c fuel (counted_ies ies) (dump_ies c ies ++ rest)
          ≡ some (ok (arrives_ies ies, rest))
    load_ies-dump_ies no_ies zero rest sound enough = absurd (omega (arith, enough))
    load_ies-dump_ies no_ies (suc fuel) rest sound enough = refl
    load_ies-dump_ies (next ie ies) zero rest sound enough = absurd (omega (arith, enough))
    load_ies-dump_ies (next ie ies) (suc fuel) rest (first, others) enough =
        let long = length-dump_ie ie first in
        let both = length-append (dump_ie c ie) (dump_ies c ies) in
        let rest_counted : counted c ie + counted_ies ies - counted c (arrives_ie ie)
            ≡ counted_ies ies =
          omega (arith, counted-arrives ie first) in
        rw
          (
            append_assoc,
            ==_ne (counted c ie + counted_ies ies) 0 (omega arith),
            new_ie-dump_ie ie fuel (dump_ies c ies ++ rest) first (omega (arith, enough, both)),
            rest_counted,
            load_ies-dump_ies ies fuel rest others (omega (arith, enough, long, both)),
          )
          refl
