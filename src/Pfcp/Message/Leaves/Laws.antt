-- ===== src/Pfcp/Message/Leaves/Laws.antt =====
-- The classes of elements that hold no others, as elements of messages.
use openair_cn_cups.Common.Flags.{write_if}
use openair_cn_cups.Common.Words.{write_be}
use openair_cn_cups.Common.{
  ◌++◌, append_assoc, ap, sym, ◌∙◌, ℕ, ◌^◌, ◌<◌, ◌≡◌, refl, ◌==◌, true, false, List, some, ok,
  arith, All, Among, All-Among,
}
use openair_cn_cups.Pfcp.Tlv
use openair_cn_cups.Pfcp.Tlv.{ie_tlv, Tlv, no_tlv}
use openair_cn_cups.Pfcp.Scalar
use openair_cn_cups.Pfcp.Scalar.{ScalarIe, ScalarClass, write_value}
use openair_cn_cups.Pfcp.Scalar.Classes.{regular_classes}
use openair_cn_cups.Pfcp.Scalar.Laws.{receive-dump_to_scalar}
use openair_cn_cups.Pfcp.ApplyAction
use openair_cn_cups.Pfcp.ApplyAction.{ApplyActionIe, ApplyAction}
use openair_cn_cups.Pfcp.OuterHeaderCreation
use openair_cn_cups.Pfcp.OuterHeaderCreation.{OuterHeaderCreation, OuterHeaderCreationIe}
use openair_cn_cups.Pfcp.OuterHeaderCreation.Laws as Outer
use openair_cn_cups.Pfcp.Message.{is_grouped}
use openair_cn_cups.Pfcp.Message.Elements.{IsHeader, read_header}
use openair_cn_cups.Pfcp.Message.Leaves.{
  apply_action, outer_header_creation, scalar, scalar_classes, class_of, load_scalar, load_leaf,
}

-- A class that new_pfcp_ie_from_stream finds under its type.
abbrev pub IsFound : ScalarClass → Type 0
IsFound cl =
    (class_of cl.type scalar_classes ≡ some cl)
    × ((cl.type == 44) ≡ false)
    × ((cl.type == 84) ≡ false)
    × (is_grouped cl.type ≡ false)

pub IsFound-classes : All IsFound regular_classes
unfolding class_of
IsFound-classes = (
  (refl, refl, refl, refl),
  (
    (refl, refl, refl, refl),
    (
      (refl, refl, refl, refl),
      (
        (refl, refl, refl, refl),
        (
          (refl, refl, refl, refl),
          (
            (refl, refl, refl, refl),
            (
              (refl, refl, refl, refl),
              (
                (refl, refl, refl, refl),
                (
                  (refl, refl, refl, refl),
                  (
                    (refl, refl, refl, refl),
                    (
                      (refl, refl, refl, refl),
                      (
                        (refl, refl, refl, refl),
                        (
                          (refl, refl, refl, refl),
                          (
                            (refl, refl, refl, refl),
                            ((refl, refl, refl, refl), ((refl, refl, refl, refl), tt)),
                          ),
                        ),
                      ),
                    ),
                  ),
                ),
              ),
            ),
          ),
        ),
      ),
    ),
  ),
)

abbrev IsSmall : ScalarClass → Type 0
IsSmall cl = (0 < cl.width) × (cl.width < 2 ^ 16) × (cl.type < 2 ^ 15)

IsSmall-classes : All IsSmall regular_classes
IsSmall-classes = omega arith

pub scalar-IsHeader :
    (cl : ScalarClass) (b : ℕ) → Among cl regular_classes → IsHeader (Scalar.of_core cl b).tlv
unfolding Scalar.of_core
scalar-IsHeader cl b among =
    let (pos, fits, plain) = All-Among IsSmall cl regular_classes among IsSmall-classes in
    record {
      plain = plain;
      some_length = omega (arith, pos, fits);
      fits = omega arith;
      no_vendor = refl;
    }

scalar_behind :
    (cl : ScalarClass) (number : ℕ) (t : Tlv) (s : List ℕ)
    → IsHeader t
    → Scalar.receive cl number (Tlv.dump_to t ++ s)
      ≡ Scalar.load_from cl (Scalar.of_tlv cl number t) s
unfolding Scalar.receive
scalar_behind cl number t s h = rw (read_header t s h) refl

pub scalar_reads :
    (cl : ScalarClass) (number b : ℕ) (header : OuterHeaderCreation) (rest : List ℕ)
    → Among cl regular_classes
    → b < 256 ^ cl.width
    → load_leaf number header
        (Scalar.of_core cl b).tlv
        (write_value cl.order cl.width (Scalar.of_core cl b).value ++ rest)
      ≡ ok (scalar cl (Scalar.of_core cl b), rest)
unfolding load_leaf load_scalar Scalar.dump_to Scalar.of_core
scalar_reads cl number b header rest among fits =
    let (found, other, another, _) = All-Among IsFound cl regular_classes among IsFound-classes in
    let ie = Scalar.of_core cl b in
    let body = write_value cl.order cl.width ie.value in
    let read : Scalar.load_from cl (Scalar.of_tlv cl number ie.tlv) (body ++ rest) ≡ ok (ie, rest) =
      sym (scalar_behind cl number ie.tlv (body ++ rest) (scalar-IsHeader cl b among))
      ∙ ap (Scalar.receive cl number) (sym (append_assoc (Tlv.dump_to ie.tlv) body rest))
      ∙ receive-dump_to_scalar cl number b rest among fits in
    rw (other, another, found, read) refl

apply_action_behind :
    (t : Tlv) (s : List ℕ)
    → IsHeader t
    → ApplyAction.receive (Tlv.dump_to t ++ s)
      ≡ ApplyAction.load_from (record { tlv = t; u1 = 0 }) s
unfolding ApplyAction.receive
apply_action_behind t s h = rw (read_header t s h) refl

outer_behind :
    (header : OuterHeaderCreation) (t : Tlv) (s : List ℕ)
    → IsHeader t
    → OuterHeaderCreation.receive header (Tlv.dump_to t ++ s)
      ≡ OuterHeaderCreation.load_from (record { tlv = t; core = header }) s
unfolding OuterHeaderCreation.receive
outer_behind header t s h = rw (read_header t s h) refl

abbrev pub outer_body : OuterHeaderCreationIe → List ℕ
outer_body ie =
    let d = ie.outer_header_creation_description in
    write_be 2 d
    ++ (write_if (OuterHeaderCreation.has_teid d) 4 ie.teid
        ++ (write_if (OuterHeaderCreation.has_ipv4 d) 4 ie.ipv4_address
            ++ (write_if (OuterHeaderCreation.has_ipv6 d) 16 ie.ipv6_address
                ++ write_if (OuterHeaderCreation.has_port d) 2 ie.port_number)))

abbrev pub outer_length : OuterHeaderCreation → ℕ
outer_length b = OuterHeaderCreation.core_length b.outer_header_creation_description

pub ie_tlv-IsHeader :
    (type length : ℕ) → type < 2 ^ 15 → 0 < length → length < 2 ^ 16 → IsHeader (ie_tlv type length)
ie_tlv-IsHeader type length plain pos fits = record {
  plain = plain;
  some_length = pos;
  fits = fits;
  no_vendor = refl;
}

pub outer-IsHeader : (b : OuterHeaderCreation) → IsHeader (OuterHeaderCreation.of_core b).tlv
unfolding OuterHeaderCreation.of_core
outer-IsHeader b = ie_tlv-IsHeader 84 (outer_length b) (omega arith) (ground arith) (ground arith)

pub apply_action_reads :
    (number : ℕ) (header : OuterHeaderCreation) (b : ApplyAction) (rest : List ℕ)
    → load_leaf number header
        (ApplyAction.of_core b).tlv
        (write_be 1 (ApplyAction.of_core b).u1 ++ rest)
      ≡ ok (apply_action (ApplyAction.of_core b), rest)
unfolding load_leaf ApplyAction.of_core ApplyAction.dump_to
apply_action_reads number header b rest =
    let ie = ApplyAction.of_core b in
    let body = write_be 1 ie.u1 in
    let read : ApplyAction.load_from (record { tlv = ie.tlv; u1 = 0 }) (body ++ rest)
        ≡ ok (ie, rest) =
      sym (
        apply_action_behind ie.tlv (body ++ rest)
          (ie_tlv-IsHeader 44 1 (omega arith) (omega arith) (omega arith)))
      ∙ ap ApplyAction.receive (sym (append_assoc (Tlv.dump_to ie.tlv) body rest))
      ∙ ApplyAction.receive-of_core b rest in
    rw read refl

pub outer_header_reads :
    (number : ℕ) (header b : OuterHeaderCreation) (rest : List ℕ)
    → Outer.IsValid b
    → Outer.is_known b.outer_header_creation_description ≡ true
    → load_leaf number header
        (OuterHeaderCreation.of_core b).tlv
        (outer_body (OuterHeaderCreation.of_core b) ++ rest)
      ≡ ok (outer_header_creation (Outer.arrived header b), rest)
unfolding load_leaf OuterHeaderCreation.of_core OuterHeaderCreation.dump_to
outer_header_reads number header b rest v known =
    let ie = OuterHeaderCreation.of_core b in
    let body = outer_body ie in
    let read : OuterHeaderCreation.load_from (record { tlv = ie.tlv; core = header }) (body ++ rest)
        ≡ ok (Outer.arrived header b, rest) =
      sym (outer_behind header ie.tlv (body ++ rest) (outer-IsHeader b))
      ∙ ap (OuterHeaderCreation.receive header) (sym (append_assoc (Tlv.dump_to ie.tlv) body rest))
      ∙ Outer.receive-of_core header b rest v known in
    rw read refl
