-- ===== src/Pfcp/Header.antt =====
-- src/pfcp/3gpp_29.244.hpp, class pfcp_msg_header.
pub mod Laws
use openair_cn_cups.Common.{
  ℕ, ◌+◌, ◌*◌, ◌/◌, ◌%◌, ◌^◌, List, ◌++◌, Bool, Result, ok, ◌>>=◌, if◌then◌else◌,
}
use openair_cn_cups.Common.Words.{read_array, write_be, read_be}
use openair_cn_cups.Common.Flags.{flag, write_if, read_if}

-- The bytes u1 (s, mp, three spare bits, version) and u2 (four spare bits, priority) are numbers.
pub record Header : Type 0 where
  pub u1 : ℕ
  pub message_type : ℕ
  pub message_length : ℕ
  pub seid : ℕ
  pub sequence_number : ℕ
  pub u2 : ℕ

unfoldable pub has_seid : Header → Bool
has_seid h = flag 0 h.u1

abbrev pub has_priority : Header → Bool
has_priority h = flag 1 h.u1

-- pfcp_msg_header(): version 1, and a length that counts the sequence number and the last byte.
abbrev pub new_header : Header
new_header = record {
  u1 = 32;
  message_type = 0;
  message_length = 4;
  seid = 0;
  sequence_number = 0;
  u2 = 0;
}

-- Setting the bit s, which is clear, adds 1 to the byte.
unfoldable pub set_seid : ℕ → Header → Header
unfolding has_seid
set_seid s h =
    if has_seid h
    then record h { seid = s }
    else record h { seid = s; u1 = h.u1 + 1; message_length = (h.message_length + 8) % 2 ^ 16 }

pub set_message_type : ℕ → Header → Header
set_message_type t h = record h { message_type = t }

pub set_message_length : ℕ → Header → Header
set_message_length l h = record h { message_length = l % 2 ^ 16 }

-- s & 0x00FFFFFF
unfoldable pub set_sequence_number : ℕ → Header → Header
set_sequence_number s h = record h { sequence_number = s % 2 ^ 24 }

-- u1.bf.spare = 0
abbrev clear_spare_u1 : ℕ → ℕ
clear_spare_u1 b = b % 4 + b / 32 * 32

-- u2.bf.spare = 0, and u2.bf.message_priority = 0 without the bit mp.
abbrev sent_u2 : Bool → ℕ → ℕ
sent_u2 mp b = if mp then b / 16 * 16 else 0

unfoldable pub dump_to : Header → List ℕ
unfolding has_seid
dump_to h =
    write_be 1 (clear_spare_u1 h.u1)
    ++ (write_be 1 h.message_type
        ++ (write_be 2 h.message_length
            ++ (write_if (has_seid h) 8 h.seid
                ++ (write_be 3 h.sequence_number ++ write_be 1 (sent_u2 (has_priority h) h.u2)))))

-- On a new header; `sn` is what the memory of the three bytes of that name held.
unfoldable pub load_from : ℕ → List ℕ → Result (Header × List ℕ)
load_from sn s = do
  (u1, s) ← read_be 1 new_header.u1 s
  (message_type, s) ← read_be 1 new_header.message_type s
  (message_length, s) ← read_be 2 new_header.message_length s
  (seid, s) ← read_if (flag 0 u1) 8 0 s
  (sequence_number, s) ← read_array 3 sn s
  (u2, s) ← read_be 1 new_header.u2 s
  ok (
    record {
      u1 = u1;
      message_type = message_type;
      message_length = message_length;
      seid = seid;
      sequence_number = sequence_number;
      u2 = u2;
    },
    s,
  )
