-- ===== src/Pfcp/Scalar.antt =====
-- src/pfcp/3gpp_29.244.hpp, the information elements that carry one number: their classes differ in
-- the type code, the width of the number, the length that load_from insists on, the order in which
-- dump_to writes the number's bytes and what the constructor from a header sets the number to.
pub mod Classes
pub mod Laws
use openair_cn_cups.Common.{
  Option, none, some, ℕ, ◌+◌, ◌%◌, ◌^◌, ◌==◌, List, ◌++◌, Bool, true, false, Result, ok, err, ◌>>=◌,
  ◌>>◌, require, bad_length,
}
use openair_cn_cups.Common.Words.{write_be, write_le, read_be}
use openair_cn_cups.Pfcp.Tlv
use openair_cn_cups.Pfcp.Tlv.{Tlv, no_tlv, set_length}

-- How dump_to passes the number to the stream: through htobeNN, or as it lies in memory.
pub data ByteOrder : Type 0 where
  network host : ByteOrder

pub record ScalarClass : Type 0 where
  pub type : ℕ
  pub width : ℕ
  pub checked_length : ℕ
  pub order : ByteOrder
  pub initial : Option ℕ

pub record ScalarIe : Type 0 where
  pub tlv : Tlv
  pub value : ℕ

-- The constructor from the core type.
unfoldable pub of_core : ScalarClass → ℕ → ScalarIe
of_core c b = record {
  tlv = set_length (record no_tlv { type = c.type }) c.width;
  value = b % 256 ^ c.width;
}

pub to_core_type : ScalarIe → ℕ
to_core_type ie = ie.value

abbrev pub write_value : ByteOrder → ℕ → ℕ → List ℕ
write_value network width value = write_be width value
write_value host width value = write_le width value

unfoldable pub dump_to : ScalarClass → ScalarIe → List ℕ
unfolding Tlv.dump_to
dump_to c ie = Tlv.dump_to ie.tlv ++ write_value c.order c.width ie.value

-- `this` is the object made from the header that new_pfcp_ie_from_stream has read.
unfoldable pub load_from : ScalarClass → ScalarIe → List ℕ → Result (ScalarIe × List ℕ)
load_from c this s = do
  require (this.tlv.length == c.checked_length) bad_length
  (value, s) ← read_be c.width this.value s
  ok (record this { value = value }, s)

-- The constructor from a header, in memory that held `garbage`, which stays in a number that the
-- constructor does not set.
abbrev pub initial_value : Option ℕ → ℕ → ℕ
initial_value none garbage = garbage
initial_value (some value) garbage = value

abbrev pub of_tlv : ScalarClass → ℕ → Tlv → ScalarIe
of_tlv c garbage t = record { tlv = t; value = initial_value c.initial garbage }

-- new_pfcp_ie_from_stream on this class: the header, the constructor from the header, load_from.
unfoldable pub receive : ScalarClass → ℕ → List ℕ → Result (ScalarIe × List ℕ)
unfolding Tlv.load_from load_from
receive c garbage s = do (tlv, s) ← Tlv.load_from no_tlv s; load_from c (of_tlv c garbage tlv) s
