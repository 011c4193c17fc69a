-- ===== src/Switch/Requests.antt =====
-- src/pfcp/msg_pfcp.hpp: the members of the session requests and responses that the switch reads and
-- writes, and the loops over the rules to create that handle_pfcp_session_establishment_request and
-- handle_pfcp_session_modification_request share.
use openair_cn_cups.Common.{
  ℕ, Bool, false, true, not, ◌&&◌, ◌||◌, List, [], ◌∷◌, ◌++◌, Option, none, some, ◌==◌,
  if◌then◌else◌,
}
use openair_cn_cups.Pfcp.Fteid.{Fteid}
use openair_cn_cups.Pfcp.Fseid.{Fseid}
use openair_cn_cups.Switch.HashMap.{HashMap}
use openair_cn_cups.Switch.Ies.{Ie, Octets, no_fteid, CreateFar, CreatePdr, UpdateFar, UpdatePdr}
use openair_cn_cups.Switch.Tables.{PfcpSession, Switch, Config}
use openair_cn_cups.Switch.Session.{
  created, refused, create_far, create_pdr, mandatory_ie_missing, conditional_ie_missing,
}

pub record EstablishmentRequest : Type 0 where
  pub node_id : Ie Octets
  pub cp_fseid : Ie Fseid
  pub create_pdrs : List CreatePdr
  pub create_fars : List CreateFar

pub record ModificationRequest : Type 0 where
  pub cp_fseid : Ie Fseid
  pub remove_pdrs : List (Ie ℕ)
  pub remove_fars : List (Ie ℕ)
  pub create_pdrs : List CreatePdr
  pub create_fars : List CreateFar
  pub update_pdrs : List UpdatePdr
  pub update_fars : List UpdateFar

abbrev pub no_fseid : Fseid
no_fseid = record { v4 = false; v6 = false; seid = 0; ipv4_address = 0; ipv6_address = 0 }

pub record CreatedPdr : Type 0 where
  pub pdr_id : ℕ
  pub local_fteid : Ie Fteid

-- The three responses in one; each leaves the members that it does not have absent. The failed
-- rule is its type, 0 for a PDR and 1 for a FAR, and its identifier.
pub record Response : Type 0 where
  pub seid : ℕ
  pub cause : ℕ
  pub offending_ie : Ie ℕ
  pub created_pdrs : List CreatedPdr
  pub up_fseid : Ie Fseid
  pub failed_rule_id : Ie (ℕ × ℕ)

-- The end of a handler: the cause, and with two of the causes the offending element.
abbrev pub respond : ℕ → ℕ → Response
respond cause offending_ie = record {
  seid = 0;
  cause = cause;
  offending_ie = (cause == mandatory_ie_missing || cause == conditional_ie_missing, offending_ie);
  created_pdrs = [];
  up_fseid = (false, no_fseid);
  failed_rule_id = (false, (0, 0));
}

-- offending_ie where a refusal did not set it: the 0 it starts with.
abbrev pub or_zero : Option ℕ → ℕ
or_zero none = 0
or_zero (some code) = code

-- get(far_id, create_far) of both requests: is there a FAR to create with the identifier?
unfoldable pub has_create_far : ℕ → List CreateFar → Bool
has_create_far far_id [] = false
has_create_far far_id (c ∷ cs) =
    let rest = has_create_far far_id cs in if c.far_id.0 && c.far_id.1 == far_id then true else rest

-- A loop that ran to its end, or that a refusal left, with the cause and the offending element.
pub data Made (folly : HashMap) : Type 0 where
  made : Switch folly → PfcpSession → List CreatedPdr → Made folly
  failed : Switch folly → PfcpSession → List CreatedPdr → ℕ → Option ℕ → Made folly

-- `if (not allocated_fteid.is_zero())`
abbrev pub is_zero : Fteid → Bool
is_zero f = not f.v4 && not f.v6

-- The response element for a created PDR: on establishment the tunnel endpoint is always set, on
-- modification unless it is zero.
abbrev pub always_set : CreatePdr → Fteid → CreatedPdr
always_set c fteid = record { pdr_id = c.pdr_id.1; local_fteid = (true, fteid) }

abbrev pub set_unless_zero : CreatePdr → Fteid → CreatedPdr
set_unless_zero c fteid = record {
  pdr_id = c.pdr_id.1;
  local_fteid = if is_zero fteid then (false, no_fteid) else (true, fteid);
}

module _ {folly : HashMap} where
  unfoldable pub create_fars : Switch folly → PfcpSession → List CreateFar → Made folly
  unfolding create_far
  create_fars sw s [] = made sw s []
  create_fars sw s (c ∷ cs) = elim (create_far sw s c) [
    | created sw' s' _ ↦ create_fars sw' s' cs
    | refused sw' cause offending ↦ failed sw' s [] cause offending
  ]

  unfoldable pub create_pdrs :
      Config
      → (CreatePdr → Fteid → CreatedPdr)
      → List CreateFar
      → Switch folly
      → PfcpSession
      → List CreatedPdr
      → List CreatePdr
      → Option (Made folly)
  unfolding create_pdr has_create_far
  create_pdrs cfg set fars sw s done [] = some (made sw s done)
  create_pdrs cfg set fars sw s done (c ∷ cs) =
      if not c.far_id.0
      then some (failed sw s done mandatory_ie_missing (some 108))
      else if not (has_create_far c.far_id.1 fars)
      then some (failed sw s done mandatory_ie_missing (some 3))
      else elim (create_pdr cfg sw s c) [
        | none ↦ none
        | some (refused sw' cause offending) ↦ some (failed sw' s done cause offending)
        | some (created sw' s' fteid) ↦
            create_pdrs cfg set fars sw' s' (done ++ (set c fteid ∷ [])) cs
      ]
