-- ===== src/Pfcp/BitRate/Laws.antt =====
-- A pair of bit rates after a trip over the wire.
use openair_cn_cups.Common.{
  ℕ, ◌%◌, ◌^◌, ◌<◌, ◌≡◌, refl, ap₂, List, [], ◌++◌, ok, arith, append_assoc,
}
use openair_cn_cups.Pfcp.Tlv
use openair_cn_cups.Pfcp.BitRate.{
  BitRate, BitRateIe, fill, gather, of_core, to_core_type, dump_to, receive, load_from,
}

-- Five bytes hold the rate below 2 ^ 40.
gather-fill : (n : ℕ) → gather 0 (fill 5 (n % 2 ^ 40) []) ≡ n % 2 ^ 40
unfolding gather fill
gather-fill n = omega arith

-- An element of two rates, of a type that is no vendor's, gives back both modulo 2 ^ 40, so
-- that every rate of 40 bits comes back as it was; the bytes that follow are left.
pub receive-dump_to_bit_rate :
    (type : ℕ) (b : BitRate) (rest : List ℕ)
    → type < 2 ^ 15
    → (ie : BitRateIe) × (receive (dump_to (of_core type b) ++ rest) ≡ ok (ie, rest))
      × (to_core_type ie ≡ record { ul = b.ul % 2 ^ 40; dl = b.dl % 2 ^ 40 })
unfolding receive load_from dump_to of_core to_core_type
receive-dump_to_bit_rate type b rest h = (
  of_core type b,
  simp append_assoc (rw (Tlv.load_from-ie_tlv type 10 _ h (omega arith)) refl),
  ap₂ (λ (u d : ℕ). record { ul = u; dl = d }) (gather-fill b.ul) (gather-fill b.dl),
)
