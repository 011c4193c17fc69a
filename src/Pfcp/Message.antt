-- ===== src/Pfcp/Message.antt =====
-- src/pfcp/3gpp_29.244.hpp and .cpp: pfcp_grouped_ie, new_pfcp_ie_from_stream and pfcp_msg. The classes
-- of elements that hold no others are a parameter, LeafCodec.
pub mod Elements
pub mod RoundTrip
pub mod Built
mod Tests
pub mod Returns
pub mod Leaves
use openair_cn_cups.Common.{
  ◌%◌, ◌^◌, ◌*◌, ltb, bit, msg_bad_length, length, ◌++◌, ℕ, ◌+◌, ◌-◌, ◌==◌, leb, if◌then◌else◌,
  Bool, true, false, List, [], ◌∷◌, Option, none, some, suc, zero, Result, ok, err, bad_length,
}
use openair_cn_cups.Pfcp.Header
use openair_cn_cups.Pfcp.Header.{Header, new_header, has_seid}
use openair_cn_cups.Pfcp.Tlv
use openair_cn_cups.Pfcp.Tlv.{Tlv, no_tlv, tlv_ie_length}

-- An element that holds no others: its header, dump_to, and load_from on the object made from a
-- header. `knows` are its cases of the switch of new_pfcp_ie_from_stream.
pub record LeafCodec (Leaf : Type 0) : Type 0 where
  pub tlv : Leaf → Tlv
  pub dump_to : Leaf → List ℕ
  pub load_from : Tlv → List ℕ → Result (Leaf × List ℕ)
  pub knows : ℕ → Bool

-- pfcp_ie: an element of a class without others in it, or a pfcp_grouped_ie.
mutual
  pub data Ie (Leaf : Type 0) : Type 0 where
    leaf : Leaf → Ie Leaf
    grouped : Tlv → Ies Leaf → Ie Leaf

  pub data Ies (Leaf : Type 0) : Type 0 where
    no_ies : Ies Leaf
    next : Ie Leaf → Ies Leaf → Ies Leaf

-- What a reader answers; `none` where its fuel is spent.
abbrev pub Answer : Type 0 → Type 0
Answer A = Option (Result (A × List ℕ))

abbrev pub and_then : {A B : Type 0} → Answer A → (A → List ℕ → Answer B) → Answer B
and_then none go_on = none
and_then (some (err fault)) go_on = some (err fault)
and_then (some (ok (a, s))) go_on = go_on a s

-- The types for which new_pfcp_ie_from_stream makes a pfcp_grouped_ie.
abbrev pub is_grouped : ℕ → Bool
is_grouped type = if type == 83 then true else if type == 0 then false else leb type 18

module _ {Leaf : Type 0} (c : LeafCodec Leaf) where
  abbrev pub ie_tlv_of : Ie Leaf → Tlv
  ie_tlv_of (leaf l) = c.tlv l
  ie_tlv_of (grouped t _) = t

  -- What an element counts in the length of what holds it.
  abbrev pub counted : Ie Leaf → ℕ
  counted ie = tlv_ie_length + (ie_tlv_of ie).length

  -- new_pfcp_ie_from_stream behind the header; `load` is pfcp_grouped_ie::load_from on a length.
  abbrev pub of_type : (ℕ → List ℕ → Answer (Ies Leaf)) → Tlv → List ℕ → Answer (Option (Ie Leaf))
  of_type load t s =
      if t.length == 0
      then some (ok (none, s))
      else if is_grouped t.type
      then and_then (load t.length s) (λ ies s. some (ok (some (grouped t ies), s)))
      else if c.knows t.type
      then and_then (some (c.load_from t s)) (λ l s. some (ok (some (leaf l), s)))
      else some (ok (none, s))

  -- new_pfcp_ie_from_stream, whose header is new: at the end of the stream it keeps its zeros.
  unfoldable pub new_ie : (ℕ → List ℕ → Answer (Ies Leaf)) → List ℕ → Answer (Option (Ie Leaf))
  unfolding Tlv.load_from
  new_ie load s = and_then (some (Tlv.load_from no_tlv s)) (of_type load)

  -- The body of the loop of pfcp_grouped_ie::load_from; `go_on` are its further rounds.
  abbrev pub loaded :
      (ℕ → List ℕ → Answer (Ies Leaf)) → ℕ → Option (Ie Leaf) → List ℕ → Answer (Ies Leaf)
  loaded go_on remaining none s = some (err bad_length)
  loaded go_on remaining (some ie) s =
      and_then (go_on (remaining - counted ie) s) (λ ies s. some (ok (next ie ies, s)))

  -- pfcp_grouped_ie::load_from. The loop asks only whether the rest is positive, which a rest that
  -- stops at 0 answers as well.
  unfoldable pub load_ies : ℕ → ℕ → List ℕ → Answer (Ies Leaf)
  unfolding new_ie
  load_ies zero remaining s = none
  load_ies (suc fuel) remaining s =
      if remaining == 0
      then some (ok (no_ies, s))
      else and_then (new_ie (load_ies fuel) s) (loaded (load_ies fuel) remaining)

  -- A round that makes an element has taken a byte of the stream at least.
  unfoldable pub new_pfcp_ie_from_stream : List ℕ → Answer (Option (Ie Leaf))
  unfolding new_ie load_ies
  new_pfcp_ie_from_stream s = new_ie (load_ies (suc (length s))) s

  unfoldable mutual
    -- The dump_to of an element, and the loop of pfcp_grouped_ie::dump_to and pfcp_msg::dump_to.
    pub dump_ie : Ie Leaf → List ℕ
    dump_ie (leaf l) = c.dump_to l
    dump_ie (grouped t ies) = Tlv.dump_to t ++ dump_ies ies

    pub dump_ies : Ies Leaf → List ℕ
    dump_ies no_ies = []
    dump_ies (next ie ies) = dump_ie ie ++ dump_ies ies

-- The elements behind one another.
unfoldable pub push_back : {Leaf : Type 0} → Ies Leaf → Ie Leaf → Ies Leaf
push_back no_ies ie = next ie no_ies
push_back (next first ies) ie = next first (push_back ies ie)

-- pfcp_msg
pub record Message (Leaf : Type 0) : Type 0 where
  pub header : Header
  pub ies : Ies Leaf

abbrev pub new_message : {Leaf : Type 0} → ℕ → Message Leaf
new_message type = record { header = record new_header { message_type = type }; ies = no_ies }

-- What the header announces for the elements.
unfoldable pub check_msg_length : Header → ℕ
unfolding has_seid
check_msg_length h = (h.message_length + 2 ^ 16 - 4 - 8 * bit (has_seid h)) % 2 ^ 16

module _ {Leaf : Type 0} (c : LeafCodec Leaf) where
  -- pfcp_grouped_ie::add_ie, on the header and the elements.
  unfoldable pub add_to_group : Tlv × Ies Leaf → Ie Leaf → Tlv × Ies Leaf
  unfolding push_back
  add_to_group (t, ies) ie = (Tlv.add_length t (counted c ie), push_back ies ie)

  -- pfcp_msg::add_ie
  unfoldable pub add_ie : Message Leaf → Ie Leaf → Message Leaf
  unfolding push_back
  add_ie m ie = record {
    header = record m.header { message_length = (m.header.message_length + counted c ie) % 2 ^ 16 };
    ies = push_back m.ies ie;
  }

  unfoldable pub dump_to : Message Leaf → List ℕ
  unfolding dump_ies
  dump_to m = Header.dump_to m.header ++ dump_ies c m.ies

  -- The end of load_from: `total` is ies_length.
  abbrev pub checked : Header → ℕ → Ies Leaf → List ℕ → Answer (Ies Leaf)
  checked h total ies s =
      if total == check_msg_length h then some (ok (ies, s)) else some (err msg_bad_length)

  -- A round of the loop of load_from with the element that it read; `go_on` are its further rounds.
  abbrev pub received :
      (ℕ → List ℕ → Answer (Ies Leaf)) → Header → ℕ → Option (Ie Leaf) → List ℕ → Answer (Ies Leaf)
  received go_on h total none s = checked h total no_ies s
  received go_on h total (some ie) s =
      let total' = (total + counted c ie) % 2 ^ 16 in
      and_then
        (if ltb total' (check_msg_length h) then go_on total' s else checked h total' no_ies s)
        (λ ies s. some (ok (next ie ies, s)))

  -- The loop of pfcp_msg::load_from, with the check behind it.
  unfoldable pub load_rounds : ℕ → Header → ℕ → List ℕ → Answer (Ies Leaf)
  unfolding new_pfcp_ie_from_stream check_msg_length
  load_rounds zero h total s = none
  load_rounds (suc fuel) h total s =
      and_then (new_pfcp_ie_from_stream c s) (received (load_rounds fuel h) h total)

  -- pfcp_msg::load_from on a new message. Every round but the last reads an element.
  unfoldable pub load_from : ℕ → List ℕ → Answer (Message Leaf)
  unfolding load_rounds Header.load_from
  load_from sn s = and_then (some (Header.load_from sn s)) (λ h s.
      and_then (load_rounds (suc (length s)) h 0 s)
        (λ ies s. some (ok (record { header = h; ies = ies }, s))))
