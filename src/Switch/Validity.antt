-- ===== src/Switch/Validity.antt =====
-- The invariant of the switch: its tables hold pointers to rules and sessions that are there, a
-- session is found under its own identifier, and every identifier in use was handed out.
pub mod Rules
pub mod Creation
pub mod Sessions
pub mod Establishing
pub mod Modifying
pub mod Handlers
pub mod Reachable
use openair_cn_cups.Pfcp.Fseid.{Fseid}
use openair_cn_cups.Common.{ℕ, ◌<◌, ◌≡◌, true, List, All, length}
use openair_cn_cups.Uid.{count}
use openair_cn_cups.Switch.HashMap.{HashMap}
use openair_cn_cups.Switch.Pdr.{PfcpPdr}
use openair_cn_cups.Switch.Tables.{PfcpSession, Switch}
use openair_cn_cups.Switch.Tables.Entries.{Entries}
use openair_cn_cups.Switch.Modification.{session_at}

abbrev pub Within : {A : Type 0} → List A → List ℕ → Type 0
Within heap ps = All (λ p. p < length heap) ps

pub record IsValid {folly : HashMap} (sw : Switch folly) : Type 0 where
  pub up :
      Entries folly
        (λ seid p.
          (p < length sw.session_heap)
          × ((session_at sw.session_heap p).seid ≡ seid)
          × (count seid sw.seid_generator.uid_generated ≡ true))
        sw.up_seid2pfcp_sessions
  -- The table that is searched by the identifier of the control plane.
  pub cp : All (λ (e : Fseid × ℕ). e.1 < length sw.session_heap) sw.cp_fseid2pfcp_sessions
  pub ul :
      Entries folly
        (λ teid ps. (count teid sw.teid_s1u_generator.uid_generated ≡ true) × Within sw.pdr_heap ps)
        sw.ul_s1u_teid2pfcp_pdr
  pub dl : Entries folly (λ ue_ip ps. Within sw.pdr_heap ps) sw.ue_ipv4_hbo2pfcp_pdr
  pub sessions : All (λ (s : PfcpSession). Within sw.pdr_heap s.pdrs) sw.session_heap
