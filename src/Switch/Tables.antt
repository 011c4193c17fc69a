-- ===== src/Switch/Tables.antt =====
-- spgwu/simpleswitch/pfcp_switch.{hpp,cpp}: the tables of the switch and the functions that keep
-- them. Rules and sessions are shared by pointer, so that each lives in a heap, at the index that
-- stands for the pointer; a shared_ptr never dangles, so nothing is removed from a heap.
pub mod Precedence
pub mod Entries
use openair_cn_cups.Common.{
  not, ℕ, Bool, true, false, List, [], ◌∷◌, ◌++◌, Option, none, some, get_elem?, ltb, ◌==◌, ◌&&◌,
  if◌then◌else◌,
}
use openair_cn_cups.Uid.{UintGenerator, get_uid}
use openair_cn_cups.Pfcp.Fseid.{Fseid}
use openair_cn_cups.Pfcp.Fteid.{Fteid}
use openair_cn_cups.Switch.HashMap.{HashMap}
use openair_cn_cups.Switch.Ies.{Octets, no_fteid}
use openair_cn_cups.Switch.Far.{PfcpFar}
use openair_cn_cups.Switch.Pdr.{PfcpPdr, no_pdr, precedes}

-- pfcp_session: pointers to its detection rules, and its action rules, which only it points to.
pub record PfcpSession : Type 0 where
  pub cp_fseid : Fseid
  pub seid : ℕ
  pub pdrs : List ℕ
  pub fars : List PfcpFar

-- The calls that the switch makes on other components: the session manager of the eBPF programs,
-- and the PFCP associations.
pub data Call : Type 0 where
  create_session : ℕ → Call
  add_far : ℕ → PfcpFar → Call
  add_pdr : ℕ → PfcpPdr → Call
  notify_add_session : Octets → Fseid → Call
  notify_del_session : Fseid → Call

-- The members of spgwu_cfg that are read: s1_up, and the control-plane address as get_pfcp_fseid
-- gives it.
pub record Config : Type 0 where
  pub s1_up_addr4 : ℕ
  pub s1_up_addr6 : ℕ
  pub s1_up_port : ℕ
  pub sx_fseid : Fseid

abbrev pub same_flag : Bool → Bool → Bool
same_flag true b = b
same_flag false true = false
same_flag false false = true

-- The endpoint with the configured address: IPv4 where there is one, else IPv6.
abbrev pub s1u_fteid : Config → ℕ → Fteid
s1u_fteid cfg teid =
    let has_v4 = ltb 0 cfg.s1_up_addr4 in
    record no_fteid {
      teid = teid;
      v4 = has_v4;
      v6 = not has_v4;
      ipv4_address = if has_v4 then cfg.s1_up_addr4 else 0;
      ipv6_address = if has_v4 then 0 else cfg.s1_up_addr6;
    }

-- operator== of fseid_t
unfoldable pub same_fseid : Fseid → Fseid → Bool
same_fseid i j =
    i.seid == j.seid
    && same_flag i.v4 j.v4
    && i.ipv4_address == j.ipv4_address
    && same_flag i.v6 j.v6
    && i.ipv6_address == j.ipv6_address

-- std::unordered_map on fseid_t
unfoldable pub find_fseid : Fseid → List (Fseid × ℕ) → Option ℕ
unfolding same_fseid
find_fseid k [] = none
find_fseid k ((j, p) ∷ m) = let rest = find_fseid k m in if same_fseid k j then some p else rest

unfoldable pub insert_fseid : Fseid → ℕ → List (Fseid × ℕ) → List (Fseid × ℕ)
unfolding find_fseid
insert_fseid k p m = elim (find_fseid k m) [ some _ ↦ m | none ↦ (k, p) ∷ m ]

unfoldable pub erase_fseid : Fseid → List (Fseid × ℕ) → List (Fseid × ℕ)
unfolding same_fseid
erase_fseid k [] = []
erase_fseid k ((j, p) ∷ m) =
    let rest = erase_fseid k m in if same_fseid k j then rest else (j, p) ∷ rest

-- *p of a pointer to a rule.
unfoldable pub pdr_at : List PfcpPdr → ℕ → PfcpPdr
pdr_at heap p = elim (get_elem? heap p) [ some pdr ↦ pdr | none ↦ no_pdr ]

-- The loop of add_pfcp_ul_pdr_by_up_teid and of add_pfcp_dl_pdr_by_ue_ip over the rules that are
-- there: the new one goes in front of the first that compares less.
unfoldable pub insert_sorted : List PfcpPdr → ℕ → List ℕ → List ℕ
unfolding pdr_at
insert_sorted heap p [] = []
insert_sorted heap p (q ∷ qs) =
    let rest = insert_sorted heap p qs in
    if precedes (pdr_at heap q) (pdr_at heap p) then p ∷ (q ∷ qs) else q ∷ rest

pub record Switch (folly : HashMap) : Type 0 where
  pub seid_generator : UintGenerator
  pub teid_s1u_generator : UintGenerator
  pub cp_fseid2pfcp_sessions : List (Fseid × ℕ)
  pub up_seid2pfcp_sessions : folly.Map ℕ
  pub ul_s1u_teid2pfcp_pdr : folly.Map (List ℕ)
  pub ue_ipv4_hbo2pfcp_pdr : folly.Map (List ℕ)
  pub pdr_heap : List PfcpPdr
  pub session_heap : List PfcpSession
  pub calls : List Call

-- What add_pfcp_ul_pdr_by_up_teid and add_pfcp_dl_pdr_by_ue_ip do to their tables.
unfoldable pub add_pdr_to :
    (folly : HashMap) → List PfcpPdr → ℕ → ℕ → folly.Map (List ℕ) → folly.Map (List ℕ)
unfolding insert_sorted
add_pdr_to folly heap k p m = elim (folly.find k m) [
  | none ↦ folly.insert k (p ∷ []) m
  | some pdrs ↦ folly.assign k (insert_sorted heap p pdrs) m
]

module _ {folly : HashMap} where
  -- The constructor, less the sockets and the thread.
  abbrev pub initial : Switch folly
  initial = record {
    seid_generator = record { uid_generator = 0; uid_generated = [] };
    teid_s1u_generator = record { uid_generator = 0; uid_generated = [] };
    cp_fseid2pfcp_sessions = [];
    up_seid2pfcp_sessions = folly.empty;
    ul_s1u_teid2pfcp_pdr = folly.empty;
    ue_ipv4_hbo2pfcp_pdr = folly.empty;
    pdr_heap = [];
    session_heap = [];
    calls = [];
  }

  abbrev pub call : Call → Switch folly → Switch folly
  call c sw = record sw { calls = sw.calls ++ (c ∷ []) }

  -- new pfcp_pdr(...): the pointer is the old length of the heap.
  abbrev pub new_pdr : PfcpPdr → Switch folly → Switch folly
  new_pdr pdr sw = record sw { pdr_heap = sw.pdr_heap ++ (pdr ∷ []) }

  abbrev pub get_pfcp_session_by_up_seid : Switch folly → ℕ → Option ℕ
  get_pfcp_session_by_up_seid sw seid = folly.find seid sw.up_seid2pfcp_sessions

  abbrev pub get_pfcp_session_by_cp_fseid : Switch folly → Fseid → Option ℕ
  get_pfcp_session_by_cp_fseid sw fseid = find_fseid fseid sw.cp_fseid2pfcp_sessions

  unfoldable pub add_pfcp_session_by_cp_fseid : Fseid → ℕ → Switch folly → Switch folly
  unfolding insert_fseid
  add_pfcp_session_by_cp_fseid fseid s sw = record sw {
    cp_fseid2pfcp_sessions = insert_fseid fseid s sw.cp_fseid2pfcp_sessions;
  }

  unfoldable pub add_pfcp_session_by_up_seid : ℕ → ℕ → Switch folly → Switch folly
  add_pfcp_session_by_up_seid seid s sw = record sw {
    up_seid2pfcp_sessions = folly.insert seid s sw.up_seid2pfcp_sessions;
  }

  unfoldable pub add_pfcp_ul_pdr_by_up_teid : ℕ → ℕ → Switch folly → Switch folly
  unfolding add_pdr_to
  add_pfcp_ul_pdr_by_up_teid teid p sw = record sw {
    ul_s1u_teid2pfcp_pdr = add_pdr_to folly sw.pdr_heap teid p sw.ul_s1u_teid2pfcp_pdr;
  }

  unfoldable pub add_pfcp_dl_pdr_by_ue_ip : ℕ → ℕ → Switch folly → Switch folly
  unfolding add_pdr_to
  add_pfcp_dl_pdr_by_ue_ip ue_ip p sw = record sw {
    ue_ipv4_hbo2pfcp_pdr = add_pdr_to folly sw.pdr_heap ue_ip p sw.ue_ipv4_hbo2pfcp_pdr;
  }

  abbrev pub remove_pfcp_ul_pdrs_by_up_teid : ℕ → Switch folly → Switch folly
  remove_pfcp_ul_pdrs_by_up_teid teid sw = record sw {
    ul_s1u_teid2pfcp_pdr = folly.erase teid sw.ul_s1u_teid2pfcp_pdr;
  }

  abbrev pub remove_pfcp_dl_pdrs_by_ue_ip : ℕ → Switch folly → Switch folly
  remove_pfcp_dl_pdrs_by_ue_ip ue_ip sw = record sw {
    ue_ipv4_hbo2pfcp_pdr = folly.erase ue_ip sw.ue_ipv4_hbo2pfcp_pdr;
  }

  unfoldable pub issue_seid : Switch folly → Option (ℕ × UintGenerator) → Option (ℕ × Switch folly)
  issue_seid sw none = none
  issue_seid sw (some (seid, g)) = some (seid, record sw { seid_generator = g })

  -- generate_seid, on 64 bits; `none` where the loop of get_uid does not end.
  unfoldable pub generate_seid : Switch folly → Option (ℕ × Switch folly)
  unfolding get_uid issue_seid
  generate_seid sw = issue_seid sw (get_uid 64 sw.seid_generator)

  unfoldable pub issue_fteid :
      Config → Switch folly → Option (ℕ × UintGenerator) → Option (Fteid × Switch folly)
  issue_fteid cfg sw none = none
  issue_fteid cfg sw (some (teid, g)) =
      some (s1u_fteid cfg teid, record sw { teid_s1u_generator = g })

  -- generate_fteid_s1u, its generate_teid_s1u on 32 bits.
  unfoldable pub generate_fteid_s1u : Config → Switch folly → Option (Fteid × Switch folly)
  unfolding get_uid issue_fteid
  generate_fteid_s1u cfg sw = issue_fteid cfg sw (get_uid 32 sw.teid_s1u_generator)
