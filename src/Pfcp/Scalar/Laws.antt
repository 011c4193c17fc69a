-- ===== src/Pfcp/Scalar/Laws.antt =====
-- What a one-number information element is after a trip over the wire.
use native.Mathlib.Nat.{mod-eq_of_lt}
use openair_cn_cups.Common.{
  Among, All-Among, ℕ, ◌+◌, ◌*◌, ◌/◌, ◌%◌, ◌^◌, ◌<◌, ◌≡◌, ◌≢◌, refl, ap, List, ◌++◌, All, All-map,
  arith, ok, err, bad_length, append_assoc, ==_iff, ==_ne,
}
use openair_cn_cups.Common.Words.{write_be, write_le, read_be, read_be-write_be, read_be_from}
use openair_cn_cups.Pfcp.Tlv
use openair_cn_cups.Pfcp.Tlv.{Tlv, no_tlv, ie_tlv}
use openair_cn_cups.Pfcp.Scalar.{
  of_tlv, ScalarClass, ScalarIe, ByteOrder, network, host, write_value, of_core, to_core_type,
  dump_to, load_from, receive,
}
use openair_cn_cups.Pfcp.Scalar.Classes.{regular_classes, urr_id, qer_correlation_id}

-- Behind its header, an element is read as load_from reads it.
receive-header :
    (c : ScalarClass) (garbage length : ℕ) (s : List ℕ)
    → c.type < 2 ^ 15
    → length < 2 ^ 16
    → receive c garbage (Tlv.dump_to (ie_tlv c.type length) ++ s)
      ≡ load_from c (of_tlv c garbage (ie_tlv c.type length)) s
unfolding receive
receive-header c garbage length s h hl = rw (Tlv.load_from-ie_tlv c.type length s h hl)

abbrev RoundTrips : ScalarClass → Type 0
RoundTrips c =
    (garbage b : ℕ) (rest : List ℕ)
    → b < 256 ^ c.width
    → receive c garbage (dump_to c (of_core c b) ++ rest) ≡ ok (of_core c b, rest)

abbrev IsNetwork : ByteOrder → Type 0
IsNetwork network = Unit
IsNetwork host = ⊥

write_value_network :
    (o : ByteOrder) (width n : ℕ) → IsNetwork o → write_value o width n ≡ write_be width n
write_value_network network width n h = refl
write_value_network host width n h = absurd h

abbrev IsRegular : ScalarClass → Type 0
IsRegular c =
    (c.type < 2 ^ 15) × (c.width < 2 ^ 16) × (c.width ≡ c.checked_length) × IsNetwork c.order

RoundTrips-regular : (c : ScalarClass) → IsRegular c → RoundTrips c
unfolding dump_to of_core load_from
RoundTrips-regular c (ht, hw, hl, ho) garbage b rest hb = rw (
  mod-eq_of_lt hw,
  mod-eq_of_lt hb,
  append_assoc,
  receive-header c garbage c.width _ ht hw,
  (==_iff c.width c.checked_length).1 hl,
  write_value_network c.order c.width b ho,
  read_be-write_be c.width _ b rest hb,
)

RoundTrips-classes : All RoundTrips regular_classes
RoundTrips-classes = All-map RoundTrips-regular regular_classes (omega arith)

-- Each of the sixteen classes whose load_from checks for the width that its constructor announces
-- reads back the number that it was made from, whatever the object that reads held before, and
-- leaves the bytes that follow.
pub receive-dump_to_scalar :
    (c : ScalarClass) (garbage b : ℕ) (rest : List ℕ)
    → Among c regular_classes
    → b < 256 ^ c.width
    → receive c garbage (dump_to c (of_core c b) ++ rest) ≡ ok (of_core c b, rest)
receive-dump_to_scalar c garbage b rest regular h =
    All-Among RoundTrips c regular_classes regular RoundTrips-classes garbage b rest h

-- load_from refuses, without reading a byte, a header whose length is not the one it checks for.
pub load_from_length :
    (c : ScalarClass) (this : ScalarIe) (s : List ℕ)
    → this.tlv.length ≢ c.checked_length
    → load_from c this s ≡ err bad_length
unfolding load_from
load_from_length c this s h = rw (==_ne _ _ h)

-- No QER correlation identifier that dump_to writes is ever accepted by load_from.
pub qer_correlation_id_refused :
    (garbage b : ℕ) (rest : List ℕ)
    → receive qer_correlation_id garbage
        (dump_to qer_correlation_id (of_core qer_correlation_id b) ++ rest)
      ≡ err bad_length
unfolding dump_to of_core
qer_correlation_id_refused garbage b rest = rw (
  append_assoc,
  receive-header qer_correlation_id garbage 4 _ (omega arith) (omega arith),
  load_from_length qer_correlation_id (of_tlv qer_correlation_id garbage (ie_tlv 28 4)) _
      (omega arith),
)

-- The four bytes of a word in the opposite order.
abbrev pub swap32 : ℕ → ℕ
swap32 n = n % 256 * 2 ^ 24 + n / 256 % 256 * 2 ^ 16 + n / 2 ^ 16 % 256 * 2 ^ 8 + n / 2 ^ 24 % 256

swapped : (old b : ℕ) (rest : List ℕ) → read_be 4 old (write_le 4 b ++ rest) ≡ ok (swap32 b, rest)
unfolding read_be_from write_le
swapped old b rest = ap (λ (t : ℕ). ok (t, rest)) (omega arith)

-- A 32-bit usage reporting rule identifier comes back with its four bytes in the opposite
-- order.
pub urr_id_swapped :
    (garbage b : ℕ) (rest : List ℕ)
    → b < 2 ^ 32
    → (ie : ScalarIe) × (receive urr_id garbage (dump_to urr_id (of_core urr_id b) ++ rest)
        ≡ ok (ie, rest))
      × (to_core_type ie ≡ swap32 b)
unfolding dump_to of_core load_from to_core_type
urr_id_swapped garbage b rest h = (
  record { tlv = ie_tlv 81 4; value = swap32 b },
  rw (
    mod-eq_of_lt h,
    append_assoc,
    receive-header urr_id garbage 4 _ (omega arith) (omega arith),
    swapped garbage b rest,
  ),
  refl,
)
