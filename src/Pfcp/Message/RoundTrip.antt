-- ===== src/Pfcp/Message/RoundTrip.antt =====
-- Messages after a trip over the wire (pfcp_msg::load_from).
use openair_cn_cups.Pfcp.Tlv
use openair_cn_cups.Common.{
  append-nil, subst, ltb, ==_iff, lt→ltb, bit, ◌*◌, ℕ, ◌+◌, ◌%◌, ◌<◌, ◌^◌, ◌≡◌, refl, List, [],
  ◌++◌, false, some, ok, arith, length, length-append, append_assoc, suc, zero,
}
use openair_cn_cups.Pfcp.Header.{has_seid, Header}
use openair_cn_cups.Pfcp.Header.Laws as HeaderLaws
use openair_cn_cups.Pfcp.Header.Laws.{has_seid-sent, sent, load_from-dump_to_header}
use openair_cn_cups.Pfcp.Message
use openair_cn_cups.Pfcp.Message.{
  Message, new_ie, LeafCodec, Ie, Ies, no_ies, next, Answer, counted, load_ies, dump_ie, dump_ies,
  new_pfcp_ie_from_stream, add_ie, check_msg_length, checked, received, load_rounds,
}
use openair_cn_cups.Pfcp.Message.Elements.{
  counted-arrives, length-dump_ie, IsLeafCodec, arrives_ie, arrives_ies, counted_ies, IsSound,
  AllSound, new_ie-dump_ie,
}

module _ {Leaf : Type 0} (c : LeafCodec Leaf) (laws : IsLeafCodec c) where
  stream-dump_ie :
      (ie : Ie Leaf) (rest : List ℕ)
      → IsSound c laws ie
      → new_pfcp_ie_from_stream c (dump_ie c ie ++ rest)
        ≡ some (ok (some (arrives_ie c laws ie), rest))
  unfolding new_pfcp_ie_from_stream
  stream-dump_ie ie rest sound =
      new_ie-dump_ie c laws ie (suc (length (dump_ie c ie ++ rest))) rest sound
        (omega (arith, length-append (dump_ie c ie) rest))

  -- The rounds that read a number of elements of which there is one at least.
  rounds :
      (ies : Ies Leaf) (ie : Ie Leaf) (fuel total : ℕ) (h : Header) (rest : List ℕ)
      → IsSound c laws ie
      → AllSound c laws ies
      → total + (counted c ie + counted_ies c laws ies) ≡ check_msg_length h
      → check_msg_length h < 2 ^ 16
      → length (dump_ie c ie ++ dump_ies c ies) < fuel
      → load_rounds c fuel h total (dump_ie c ie ++ (dump_ies c ies ++ rest))
        ≡ some (ok (next (arrives_ie c laws ie) (arrives_ies c laws ies), rest))
  unfolding load_rounds dump_ies arrives_ies counted_ies AllSound
  rounds ies ie zero total h rest first others sum fits enough = absurd (omega (arith, enough))
  rounds no_ies ie (suc fuel) total h rest first others sum fits enough =
      let full : (total + counted c ie) % 2 ^ 16 ≡ check_msg_length h = omega (arith, sum, fits) in
      let ends : ltb (check_msg_length h) (check_msg_length h) ≡ false = ground arith in
      rw
        (
          stream-dump_ie ie rest first,
          counted-arrives c laws ie first,
          full,
          ends,
          (==_iff (check_msg_length h) (check_msg_length h)).1 refl,
        )
        refl
  rounds (next ie' ies) ie (suc fuel) total h rest first (second, others) sum fits enough =
      let long = length-dump_ie c laws ie first in
      let both = length-append (dump_ie c ie) (dump_ie c ie' ++ dump_ies c ies) in
      let below : total + counted c ie < check_msg_length h = omega (arith, sum) in
      let fit : (total + counted c ie) % 2 ^ 16 ≡ total + counted c ie =
        omega (arith, below, fits) in
      let inner =
        rounds ies ie' fuel (total + counted c ie) h rest second others (omega (arith, sum)) fits
          (omega (arith, enough, long, both)) in
      rw
        (
          append_assoc,
          stream-dump_ie ie (dump_ie c ie' ++ (dump_ies c ies ++ rest)) first,
          counted-arrives c laws ie first,
          fit,
          lt→ltb (total + counted c ie) (check_msg_length h) below,
          inner,
        )
        refl

  -- Every element of the message is sound, and the header counts them.
  pub record IsWhole (m : Message Leaf) : Type 0 where
    pub valid : HeaderLaws.IsValid m.header
    pub sound : AllSound c laws m.ies
    pub counts :
        m.header.message_length ≡ 4 + 8 * bit (has_seid m.header) + counted_ies c laws m.ies

  check-sent :
      (m : Message Leaf) → IsWhole m → check_msg_length (sent m.header) ≡ counted_ies c laws m.ies
  unfolding check_msg_length sent
  check-sent m w =
      let counts = w.counts in
      let fits = w.valid.length_fits in rw (has_seid-sent m.header) (omega (arith, counts, fits))

  load_rounds-dump_ies :
      (ies : Ies Leaf) (h : Header)
      → AllSound c laws ies
      → check_msg_length h ≡ counted_ies c laws ies
      → check_msg_length h < 2 ^ 16
      → load_rounds c (suc (length (dump_ies c ies))) h 0 (dump_ies c ies)
        ≡ some (ok (arrives_ies c laws ies, []))
  unfolding load_rounds dump_ies arrives_ies counted_ies AllSound new_pfcp_ie_from_stream new_ie
  load_rounds-dump_ies no_ies h sound counts fits = rw (Tlv.load_from-nil, counts) refl
  load_rounds-dump_ies (next ie ies) h (first, others) counts fits =
      let total = suc (length (dump_ie c ie ++ dump_ies c ies)) in
      subst
        (λ s.
          load_rounds c total h 0 (dump_ie c ie ++ s)
          ≡ some (ok (next (arrives_ie c laws ie) (arrives_ies c laws ies), [])))
        (append-nil (dump_ies c ies))
        (rounds ies ie total 0 h [] first others (omega (arith, counts)) fits (omega arith))

  -- A message in which the header counts the elements, every element with others in it counts
  -- those, and all others are good, is read whole: the header without what it does not announce, and
  -- the elements as each of them arrives, whatever the
  -- memory held in which they are read.
  pub load_from-dump_to_message :
      (sn : ℕ) (m : Message Leaf)
      → IsWhole m
      → Message.load_from c sn (Message.dump_to c m)
        ≡ some (ok (record { header = sent m.header; ies = arrives_ies c laws m.ies }, []))
  unfolding Message.load_from Message.dump_to
  load_from-dump_to_message sn m w =
      rw
        (
          load_from-dump_to_header sn m.header (dump_ies c m.ies) w.valid,
          load_rounds-dump_ies m.ies (sent m.header) w.sound (check-sent m w) (omega arith),
        )
        refl
