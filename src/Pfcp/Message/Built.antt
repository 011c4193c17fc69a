-- ===== src/Pfcp/Message/Built.antt =====
-- Messages as they are built (pfcp_msg::add_ie, pfcp_grouped_ie::add_ie, pfcp_msg_header::set_seid).
use openair_cn_cups.Common.{ℕ, ◌+◌, ◌^◌, ◌<◌, ◌≡◌, refl, arith}
use openair_cn_cups.Common.Flags.{flag}
use openair_cn_cups.Pfcp.Header.{has_seid}
use openair_cn_cups.Pfcp.Message.{
  LeafCodec, Ie, Ies, no_ies, next, counted, push_back, Message, new_message, add_ie,
}
use openair_cn_cups.Pfcp.Message.Elements.{IsLeafCodec, counted_ies, IsSound, AllSound}
use openair_cn_cups.Pfcp.Message.RoundTrip.{IsWhole}

module _ {Leaf : Type 0} (c : LeafCodec Leaf) (laws : IsLeafCodec c) where
  counted-push_back :
      (ies : Ies Leaf) (ie : Ie Leaf)
      → counted_ies c laws (push_back ies ie) ≡ counted_ies c laws ies + counted c ie
  unfolding counted_ies push_back
  counted-push_back no_ies ie = omega arith
  counted-push_back (next first ies) ie = omega (arith, counted-push_back ies ie)

  push_back-AllSound :
      (ies : Ies Leaf) (ie : Ie Leaf)
      → AllSound c laws ies
      → IsSound c laws ie
      → AllSound c laws (push_back ies ie)
  unfolding AllSound push_back
  push_back-AllSound no_ies ie sound one = (one, tt)
  push_back-AllSound (next first ies) ie (h, sound) one = (h, push_back-AllSound ies ie sound one)

  -- A whole message stays so with one sound element more, as long as the length fits 16 bits.
  pub add_ie-IsWhole :
      (m : Message Leaf) (ie : Ie Leaf)
      → IsWhole c laws m
      → IsSound c laws ie
      → m.header.message_length + counted c ie < 2 ^ 16
      → IsWhole c laws (add_ie c m ie)
  unfolding add_ie has_seid
  add_ie-IsWhole m ie w one fits = record {
    valid = record {
      u1_fits = w.valid.u1_fits;
      type_fits = w.valid.type_fits;
      length_fits = omega arith;
      seid_fits = w.valid.seid_fits;
      sequence_fits = w.valid.sequence_fits;
      u2_fits = w.valid.u2_fits;
    };
    sound = push_back-AllSound m.ies ie w.sound one;
    counts = let counts = w.counts in omega (arith, counts, fits, counted-push_back m.ies ie);
  }

  -- A message of a type begins whole.
  pub new_message-IsWhole : (type : ℕ) → type < 2 ^ 8 → IsWhole c laws (new_message type)
  unfolding AllSound counted_ies has_seid flag
  new_message-IsWhole type small = record {
    valid = omega (arith, small);
    sound = tt;
    counts = refl;
  }
