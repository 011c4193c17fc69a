-- ===== src/Pfcp/Tlv.antt =====
-- src/pfcp/3gpp_29.244.hpp, class pfcp_tlv: the type and length in front of every information
-- element.
use openair_cn_cups.Common.Streams.{Within-read_be, Within-read_be_from, Within, Within-then}
use openair_cn_cups.Common.{
  ◌≤◌, length, length-append, refl, ℕ, ◌+◌, ◌/◌, ◌%◌, ◌^◌, ◌<◌, ◌≡◌, ◌∙◌, arith, List, [], ◌++◌,
  Bool, true, false, is_set, Result, ok, ◌>>=◌, if◌then◌else◌, append_assoc, Bool-cases, inl, inr,
}
use openair_cn_cups.Common.Words.{
  write_le, length-write_le, read_be_from, length-write_be, write_be, read_be, read_be-write_be,
}

pub record Tlv : Type 0 where
  pub type : ℕ
  pub length : ℕ
  pub enterprise_id : ℕ

-- pfcp_tlv()
abbrev pub no_tlv : Tlv
no_tlv = record { type = 0; length = 0; enterprise_id = 0 }

-- pfcp_tlv::tlv_ie_length
abbrev pub tlv_ie_length : ℕ
tlv_ie_length = 4

-- type & 0x8000
abbrev pub is_vendor : ℕ → Bool
is_vendor type = is_set (type / 0x8000 % 2)

abbrev pub set_length : Tlv → ℕ → Tlv
set_length t l = record t { length = l % 2 ^ 16 }

abbrev pub add_length : Tlv → ℕ → Tlv
add_length t l = record t { length = (t.length + l) % 2 ^ 16 }

unfoldable pub dump_to : Tlv → List ℕ
dump_to t =
    write_be 2 t.type
    ++ (write_be 2 t.length ++ (if is_vendor t.type then write_be 2 t.enterprise_id else []))

load_enterprise : Bool → Tlv → List ℕ → Result (Tlv × List ℕ)
load_enterprise false t s = ok (t, s)
load_enterprise true t s = do
  (enterprise_id, s) ← read_be 2 t.enterprise_id s
  ok (record t { enterprise_id = enterprise_id }, s)

unfoldable pub load_from : Tlv → List ℕ → Result (Tlv × List ℕ)
unfolding load_enterprise
load_from this s = do
  (type, s) ← read_be 2 this.type s
  (length, s) ← read_be 2 this.length s
  load_enterprise (is_vendor type) (record this { type = type; length = length }) s

pub record IsValid (t : Tlv) : Type 0 where
  pub type_fits : t.type < 2 ^ 16
  pub length_fits : t.length < 2 ^ 16
  pub enterprise_fits : t.enterprise_id < 2 ^ 16

-- A valid header reads back as it was written, and the bytes that follow it are left. The
-- enterprise number is on the wire for a vendor type only; for any other type the object
-- that reads keeps its own.
pub load_from-dump_to_tlv :
    (this t : Tlv) (rest : List ℕ)
    → IsValid t
    → load_from this (dump_to t ++ rest)
      ≡ ok ((if is_vendor t.type then t else record t { enterprise_id = this.enterprise_id }), rest)
unfolding load_from dump_to
load_from-dump_to_tlv this t rest v = elim (Bool-cases (is_vendor t.type)) [
  | inl vendor ↦ rw (
    vendor,
    append_assoc,
    append_assoc,
    read_be-write_be 2 _ t.type _ v.type_fits,
    read_be-write_be 2 _ t.length _ v.length_fits,
    vendor,
    read_be-write_be 2 _ t.enterprise_id rest v.enterprise_fits,
  )
  | inr plain ↦ rw (
    plain,
    append_assoc,
    append_assoc,
    read_be-write_be 2 _ t.type _ v.type_fits,
    read_be-write_be 2 _ t.length _ v.length_fits,
    plain,
  )
]

is_vendor_lt : (type : ℕ) → type < 2 ^ 15 → is_vendor type ≡ false
is_vendor_lt type h = ground arith

-- The header of a 3GPP information element, as pfcp_ie makes it.
abbrev pub ie_tlv : ℕ → ℕ → Tlv
ie_tlv type length = record { type = type; length = length; enterprise_id = 0 }

pub load_from-ie_tlv :
    (type length : ℕ) (rest : List ℕ)
    → type < 2 ^ 15
    → length < 2 ^ 16
    → load_from no_tlv (dump_to (ie_tlv type length) ++ rest) ≡ ok (ie_tlv type length, rest)
load_from-ie_tlv type length rest ht hl =
    load_from-dump_to_tlv no_tlv (ie_tlv type length) rest (omega arith) ∙ rw (is_vendor_lt type ht)

-- Where nothing is read, a new header keeps its zeros.
pub load_from-nil : load_from no_tlv [] ≡ ok (no_tlv, [])
unfolding load_from read_be_from write_le
load_from-nil = refl

pub length-dump_to_tlv : (t : Tlv) → t.type < 2 ^ 15 → length (dump_to t) ≡ 4
unfolding dump_to
length-dump_to_tlv t h =
    rw
      (
        is_vendor_lt t.type h,
        length-append (write_be 2 t.type),
        length-append (write_be 2 t.length),
        length-write_be 2 t.type,
        length-write_be 2 t.length,
      )
      refl

load_enterprise-Within :
    (vendor : Bool) (t : Tlv) (n : ℕ) (s : List ℕ)
    → length s ≤ n
    → Within n (load_enterprise vendor t s)
unfolding load_enterprise
load_enterprise-Within false t n s h = h
load_enterprise-Within true t n s h =
    Within-then n n (read_be 2 t.enterprise_id s) _ (Within-read_be 2 t.enterprise_id n s h)
      (λ e s' h'. h')

-- A header takes a byte at least from a stream that is not at its end.
pub load_from-Within :
    (this : Tlv) (n : ℕ) (s : List ℕ) → length s ≤ n + 1 → Within n (load_from this s)
unfolding load_from
load_from-Within this n s h =
    Within-then n n (read_be 2 this.type s) _
      (Within-read_be_from (write_le 2 this.type) 0 n s
        (omega (arith, h, length-write_le 2 this.type)))
      (λ type s' h'.
        Within-then n n (read_be 2 this.length s') _ (Within-read_be 2 this.length n s' h')
          (λ length s'' h''.
            load_enterprise-Within (is_vendor type) (record this { type = type; length = length }) n
              s'' h''))
