-- ===== src/Pfcp/Header/Laws.antt =====
-- A message header after a trip over the wire, and the length that it announces.
use openair_cn_cups.Common.{
  ℕ, ◌+◌, ◌*◌, ◌/◌, ◌%◌, ◌^◌, ◌<◌, ◌≡◌, List, ◌++◌, Bool, bit, ok, if◌then◌else◌, arith,
  append_assoc, length, length-append, Bool-cases, inl, inr,
}
use openair_cn_cups.Common.Words.{read_array-write_be, write_be, read_be-write_be, length-write_be}
use openair_cn_cups.Common.Flags.{
  flag, write_if, read_if-write_if, flag-low, flag-low_add, length-write_if,
}
use openair_cn_cups.Pfcp.Header.{
  Header, has_seid, has_priority, set_seid, dump_to, load_from, sent_u2, clear_spare_u1,
}

pub record IsValid (h : Header) : Type 0 where
  pub u1_fits : h.u1 < 2 ^ 8
  pub type_fits : h.message_type < 2 ^ 8
  pub length_fits : h.message_length < 2 ^ 16
  pub seid_fits : h.seid < 2 ^ 64
  pub sequence_fits : h.sequence_number < 2 ^ 24
  pub u2_fits : h.u2 < 2 ^ 8

-- The header without its spare bits, without a session identifier that it does not announce, and
-- without a priority that it does not announce.
unfoldable pub sent : Header → Header
sent h = record h {
  u1 = h.u1 % 4 + h.u1 / 32 * 32;
  seid = if has_seid h then h.seid else 0;
  u2 = if has_priority h then h.u2 / 16 * 16 else 0;
}

flag_sent : (b : ℕ) → flag 0 (b % 4 + b / 32 * 32) ≡ flag 0 b
flag_sent b = flag-low _ b (omega arith)

pub has_seid-sent : (h : Header) → has_seid (sent h) ≡ has_seid h
unfolding has_seid sent
has_seid-sent h = flag_sent h.u1

u1-lt : (b : ℕ) → b < 2 ^ 8 → b % 4 + b / 32 * 32 < 256 ^ 1
u1-lt b h = omega arith

u2-lt : (mp : Bool) (b : ℕ) → b < 2 ^ 8 → sent_u2 mp b < 256 ^ 1
u2-lt mp b h = ground arith

-- A valid message header comes back without what it does not announce, and the bytes that
-- follow are left.
pub load_from-dump_to_header :
    (sn : ℕ) (h : Header) (rest : List ℕ)
    → IsValid h
    → load_from sn (dump_to h ++ rest) ≡ ok (sent h, rest)
unfolding load_from dump_to sent
load_from-dump_to_header sn h rest v = simp append_assoc (
    rw (
      read_be-write_be 1 _ (h.u1 % 4 + h.u1 / 32 * 32) _ (u1-lt h.u1 v.u1_fits),
      read_be-write_be 1 _ h.message_type _ v.type_fits,
      read_be-write_be 2 _ h.message_length _ v.length_fits,
      flag_sent h.u1,
      read_if-write_if (flag 0 h.u1) 8 0 h.seid _ v.seid_fits,
      read_array-write_be 3 _ h.sequence_number _ v.sequence_fits,
      read_be-write_be 1 _ (sent_u2 (has_priority h) h.u2) _
          (u2-lt (has_priority h) h.u2 v.u2_fits),
    ))

-- `n` bytes of information elements follow the header, and its length counts them with all of the
-- header but its first four bytes.
abbrev pub IsCounted : Header → ℕ → Type 0
IsCounted h n = h.message_length + 4 ≡ length (dump_to h) + n

length-dump_to : (h : Header) → length (dump_to h) ≡ 8 + 8 * bit (has_seid h)
unfolding dump_to
length-dump_to h =
    let mp = has_priority h in
    rw
      (
        length-append (write_be 1 (clear_spare_u1 h.u1)),
        length-append (write_be 1 h.message_type),
        length-append (write_be 2 h.message_length),
        length-append (write_if (flag 0 h.u1) 8 h.seid),
        length-append (write_be 3 h.sequence_number),
        length-write_be 1 (clear_spare_u1 h.u1),
        length-write_be 1 h.message_type,
        length-write_be 2 h.message_length,
        length-write_if (flag 0 h.u1) 8 h.seid,
        length-write_be 3 h.sequence_number,
        length-write_be 1 (sent_u2 mp h.u2),
      )
      (ground arith)

-- Where the announced length has room for 8 more bytes and counts n bytes behind the header,
-- set_seid keeps that count, on a header that has a session identifier and on one that has
-- none.
pub set_seid-IsCounted :
    (s n : ℕ) (h : Header)
    → h.message_length + 8 < 2 ^ 16
    → IsCounted h n
    → IsCounted (set_seid s h) n
unfolding set_seid
set_seid-IsCounted s n h fits c = elim (Bool-cases (flag 0 h.u1)) [
  | inl on ↦ ground (arith, length-dump_to h, length-dump_to (set_seid s h))
  | inr off ↦ ground (arith, length-dump_to h, length-dump_to (set_seid s h), flag-low_add h.u1 off)
]
