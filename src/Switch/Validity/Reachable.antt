-- ===== src/Switch/Validity/Reachable.antt =====
-- The switch as a state machine: every state that requests and packets lead to is valid.
use openair_cn_cups.Common.{ℕ, ◌≡◌, subst}
use openair_cn_cups.Switch.HashMap.{HashMap, IsHashMap}
use openair_cn_cups.Switch.Far.{Packet}
use openair_cn_cups.Switch.Tables.{Switch, Config, initial}
use openair_cn_cups.Switch.Tables.Entries.{Entries-empty}
use openair_cn_cups.Switch.Requests.{EstablishmentRequest, ModificationRequest, Response}
use openair_cn_cups.Switch.Establishment.{done, handle_pfcp_session_establishment_request}
use openair_cn_cups.Switch.Modification.{
  handle_pfcp_session_modification_request, handle_pfcp_session_deletion_request,
}
use openair_cn_cups.Switch.Forwarding.{pfcp_session_look_up_pack_in_core}
use openair_cn_cups.Switch.Validity.{IsValid}
use openair_cn_cups.Switch.Validity.Establishing.{LeavesValid, establishment-IsValid}
use openair_cn_cups.Switch.Validity.Handlers.{
  modification-IsValid, deletion-IsValid, downlink-IsValid,
}

-- One request handled, or one packet from the core; a packet from the access side changes nothing.
pub data Step {folly : HashMap} (cfg : Config) : Switch folly → Switch folly → Type 0 where
  establishes :
      (req : EstablishmentRequest) (sw sw' : Switch folly) (response : Response)
      → handle_pfcp_session_establishment_request cfg req sw ≡ done sw' response
      → Step cfg sw sw'
  modifies :
      (seid : ℕ) (req : ModificationRequest) (sw sw' : Switch folly) (response : Response)
      → handle_pfcp_session_modification_request cfg seid req sw ≡ done sw' response
      → Step cfg sw sw'
  deletes :
      (seid : ℕ) (sw : Switch folly) → Step cfg sw (handle_pfcp_session_deletion_request seid sw).0
  receives :
      (iph : Packet) (sw : Switch folly)
      → Step cfg sw (pfcp_session_look_up_pack_in_core cfg sw iph).0

-- What the constructor starts from, and the steps.
pub data IsReachable {folly : HashMap} (cfg : Config) : Switch folly → Type 0 where
  starts : IsReachable cfg initial
  steps : (sw sw' : Switch folly) → IsReachable cfg sw → Step cfg sw sw' → IsReachable cfg sw'

module _ {folly : HashMap} (laws : IsHashMap folly) where
  initial-IsValid : IsValid (initial {folly = folly})
  initial-IsValid = record {
    up = Entries-empty laws _;
    ul = Entries-empty laws _;
    dl = Entries-empty laws _;
    sessions = tt;
    cp = tt;
  }

  Step-IsValid : (cfg : Config) (sw sw' : Switch folly) → Step cfg sw sw' → IsValid sw → IsValid sw'
  Step-IsValid cfg sw sw' (establishes req _ _ _ e) v =
      subst LeavesValid e (establishment-IsValid laws cfg req sw v)
  Step-IsValid cfg sw sw' (modifies seid req _ _ _ e) v =
      subst LeavesValid e (modification-IsValid laws cfg seid req sw v)
  Step-IsValid cfg sw sw' (deletes seid _) v = deletion-IsValid laws seid sw v
  Step-IsValid cfg sw sw' (receives iph _) v = downlink-IsValid cfg sw iph v

  -- Every state of the switch that requests and packets lead to, from the one that the
  -- constructor makes, is valid: its tables hold pointers to rules and sessions that are
  -- there, every session is found under its own identifier, and every session and tunnel
  -- identifier in use is marked as handed out.
  pub reachable-IsValid : (cfg : Config) (sw : Switch folly) → IsReachable cfg sw → IsValid sw
  reachable-IsValid cfg sw starts = initial-IsValid
  reachable-IsValid cfg sw (steps before _ r s) =
      Step-IsValid cfg before sw s (reachable-IsValid cfg before r)
