-- ===== src/Pfcp/Message/Leaves/Shrinking.antt =====
-- The elements that hold no others read forward only.
use openair_cn_cups.Common.{
  ◌>>=◌, ℕ, ◌≤◌, ◌==◌, if◌then◌else◌, Bool, true, false, List, Option, none, some, Result, ◌>>◌,
  require, Fault, arith, length,
}
use openair_cn_cups.Common.Streams.{Within-read_be, Within, Within-then, Within-read_be_from}
use openair_cn_cups.Common.Words.{write_be, length-write_be, read_be}
use openair_cn_cups.Common.Flags.{read_address_if, read_if}
use openair_cn_cups.Pfcp.Tlv.{Tlv}
use openair_cn_cups.Pfcp.Scalar
use openair_cn_cups.Pfcp.Scalar.{ScalarClass, ScalarIe}
use openair_cn_cups.Pfcp.ApplyAction
use openair_cn_cups.Pfcp.ApplyAction.{ApplyActionIe}
use openair_cn_cups.Pfcp.OuterHeaderCreation
use openair_cn_cups.Pfcp.OuterHeaderCreation.{OuterHeaderCreationIe, OuterHeaderCreation}
use openair_cn_cups.Pfcp.Message.Returns.{Shrinks}
use openair_cn_cups.Pfcp.Message.Leaves.{
  scalar_classes, class_of, load_scalar, load_leaf, load_apply_action, load_outer_header,
  leaf_codec,
}

Within-read_if : (b : Bool) (k old n : ℕ) (s : List ℕ) → length s ≤ n → Within n (read_if b k old s)
Within-read_if true k old n s h = Within-read_be k old n s h
Within-read_if false k old n s h = h

reads_if :
    (b : Bool) (k old n : ℕ) (s : List ℕ) (f : ℕ × List ℕ → Result (OuterHeaderCreationIe × List ℕ))
    → length s ≤ n
    → ((v : ℕ) (s' : List ℕ) → length s' ≤ n → Within n (f (v, s')))
    → Within n (read_if b k old s >>= f)
reads_if b k old n s f h go_on =
    Within-then n n (read_if b k old s) f (Within-read_if b k old n s h) go_on

Within-read_address_if :
    (b : Bool) (k old n : ℕ) (s : List ℕ) → length s ≤ n → Within n (read_address_if b k old s)
Within-read_address_if true k old n s h =
    Within-read_be_from (write_be k old) 0 n s (omega (arith, h, length-write_be k old))
Within-read_address_if false k old n s h = h

reads_address_if :
    (b : Bool) (k old n : ℕ) (s : List ℕ) (f : ℕ × List ℕ → Result (OuterHeaderCreationIe × List ℕ))
    → length s ≤ n
    → ((v : ℕ) (s' : List ℕ) → length s' ≤ n → Within n (f (v, s')))
    → Within n (read_address_if b k old s >>= f)
reads_address_if b k old n s f h go_on =
    Within-then n n (read_address_if b k old s) f (Within-read_address_if b k old n s h) go_on

Within-require :
    {A : Type 0}
    → (b : Bool) (fault : Fault) (n : ℕ) (r : Result (A × List ℕ)) → Within n r
    → Within n (require b fault >> r)
Within-require true fault n r h = h
Within-require false fault n r h = tt

Within-if :
    {A : Type 0}
    → (b : Bool) (n : ℕ) (x y : Result (A × List ℕ)) → Within n x
    → Within n y
    → Within n (if b then x else y)
Within-if true n x y hx hy = hx
Within-if false n x y hx hy = hy

load_scalar-Within :
    (found : Option ScalarClass) (number n : ℕ) (t : Tlv) (s : List ℕ)
    → length s ≤ n
    → Within n (load_scalar found number t s)
unfolding load_scalar Scalar.load_from
load_scalar-Within none number n t s h = tt
load_scalar-Within (some cl) number n t s h =
    let old = (Scalar.of_tlv cl number t).value in
    Within-then n n (Scalar.load_from cl (Scalar.of_tlv cl number t) s) _
      (Within-require _ _ n _ (
        Within-then n n (read_be cl.width old s) _ (Within-read_be cl.width old n s h)
          (λ v s' h'. h')))
      (λ ie s' h'. h')

load_apply_action-Within :
    (n : ℕ) (t : Tlv) (s : List ℕ) → length s ≤ n → Within n (load_apply_action t s)
unfolding ApplyAction.load_from
load_apply_action-Within n t s h =
    Within-then n n (ApplyAction.load_from (record { tlv = t; u1 = 0 }) s) _
      (Within-require _ _ n _
        (Within-then n n (read_be 1 0 s) _ (Within-read_be 1 0 n s h) (λ v s' h'. h')))
      (λ ie s' h'. h')

load_outer_header-Within :
    (header : OuterHeaderCreation) (n : ℕ) (t : Tlv) (s : List ℕ)
    → length s ≤ n
    → Within n (load_outer_header header t s)
unfolding OuterHeaderCreation.load_from
load_outer_header-Within header n t s h =
    Within-then n n (OuterHeaderCreation.load_from (record { tlv = t; core = header }) s) _
      (Within-require _ _ n _ (
        let old = header.outer_header_creation_description in
        Within-then n n (read_be 2 old s) _ (Within-read_be 2 old n s h) (λ d s1 h1.
          reads_if (OuterHeaderCreation.has_teid d) 4 header.teid n s1 _ h1 (λ teid s2 h2.
            reads_address_if (OuterHeaderCreation.has_ipv4 d) 4 header.ipv4_address n s2 _ h2
              (λ v4 s3 h3.
                reads_address_if (OuterHeaderCreation.has_ipv6 d) 16 header.ipv6_address n s3 _ h3
                  (λ v6 s4 h4.
                    reads_if (OuterHeaderCreation.has_port d) 2 header.port_number n s4 _ h4
                      (λ port s5 h5. h5)))))))
      (λ ie s' h'. h')

pub leaf_codec-Shrinks :
    (number : ℕ) (header : OuterHeaderCreation) → Shrinks (leaf_codec number header)
unfolding load_leaf
leaf_codec-Shrinks number header t s =
    Within-if (t.type == 44) (length s) _ _ (load_apply_action-Within (length s) t s (omega arith))
      (Within-if (t.type == 84) (length s) _ _
        (load_outer_header-Within header (length s) t s (omega arith))
        (load_scalar-Within (class_of t.type scalar_classes) number (length s) t s (omega arith)))
