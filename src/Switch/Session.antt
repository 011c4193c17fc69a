-- ===== src/Switch/Session.antt =====
-- spgwu/simpleswitch/pfcp_session.{hpp,cpp}: the rules of one session. An operation that may refuse
-- writes a cause, and for a missing element the code of the element, before it returns false.
pub mod Refusals
pub mod Tunnels
use openair_cn_cups.Common.{
  ℕ, true, not, ◌&&◌, List, [], ◌∷◌, ◌++◌, Option, none, some, length, set, ◌==◌, if◌then◌else◌,
}
use openair_cn_cups.Pfcp.Fteid.{Fteid}
use openair_cn_cups.Switch.HashMap.{HashMap}
use openair_cn_cups.Switch.Ies.{no_fteid, CreateFar, CreatePdr, UpdateFar, UpdatePdr}
use openair_cn_cups.Switch.Far
use openair_cn_cups.Switch.Far.{PfcpFar, of_create_far, access, core}
use openair_cn_cups.Switch.Pdr
use openair_cn_cups.Switch.Pdr.{PfcpPdr, of_create_pdr}
use openair_cn_cups.Switch.Tables.{
  PfcpSession, Switch, Config, add_far, add_pdr, call, new_pdr, pdr_at, add_pfcp_ul_pdr_by_up_teid,
  add_pfcp_dl_pdr_by_ue_ip, remove_pfcp_ul_pdrs_by_up_teid, remove_pfcp_dl_pdrs_by_ue_ip,
  generate_fteid_s1u,
}

-- Causes and element codes of src/common/3gpp_29.244.h.
abbrev pub request_accepted : ℕ
request_accepted = 1

abbrev pub request_rejected : ℕ
request_rejected = 64

abbrev pub session_context_not_found : ℕ
session_context_not_found = 65

abbrev pub mandatory_ie_missing : ℕ
mandatory_ie_missing = 66

abbrev pub conditional_ie_missing : ℕ
conditional_ie_missing = 67

abbrev pub rule_creation_modification_failure : ℕ
rule_creation_modification_failure = 73

-- get(far_id, far): the first rule with the identifier.
unfoldable pub get_far : ℕ → List PfcpFar → Option PfcpFar
get_far far_id [] = none
get_far far_id (far ∷ fars) =
    let rest = get_far far_id fars in if far.far_id == far_id then some far else rest

-- get(pdr_id, pdr): the pointer to the first rule with the identifier.
unfoldable pub get_pdr : List PfcpPdr → ℕ → List ℕ → Option ℕ
unfolding pdr_at
get_pdr heap pdr_id [] = none
get_pdr heap pdr_id (p ∷ ps) =
    let rest = get_pdr heap pdr_id ps in if (pdr_at heap p).pdr_id == pdr_id then some p else rest

-- remove(far_id): the rules without the first that has the identifier; `none` when there is none,
-- where the code sets the cause to rule_creation_modification_failure.
unfoldable pub remove_far : ℕ → List PfcpFar → Option (List PfcpFar)
remove_far far_id [] = none
remove_far far_id (far ∷ fars) =
    let rest = remove_far far_id fars in
    if far.far_id == far_id
    then some fars
    else elim rest [ none ↦ none | some left ↦ some (far ∷ left) ]

-- remove(pdr_id), likewise.
unfoldable pub remove_pdr : List PfcpPdr → ℕ → List ℕ → Option (List ℕ)
unfolding pdr_at
remove_pdr heap pdr_id [] = none
remove_pdr heap pdr_id (p ∷ ps) =
    let rest = remove_pdr heap pdr_id ps in
    if (pdr_at heap p).pdr_id == pdr_id
    then some ps
    else elim rest [ none ↦ none | some left ↦ some (p ∷ left) ]

-- update(update_far): the first rule with the identifier is changed in place; `none` when there is
-- none.
unfoldable pub update_far : UpdateFar → List PfcpFar → Option (List PfcpFar)
unfolding Far.update
update_far u [] = none
update_far u (far ∷ fars) =
    let rest = update_far u fars in
    if far.far_id == u.far_id
    then some (Far.update u far ∷ fars)
    else elim rest [ none ↦ none | some left ↦ some (far ∷ left) ]

-- update(update_pdr): the heap with the rule changed.
unfoldable pub update_pdr : List PfcpPdr → UpdatePdr → PfcpSession → Option (List PfcpPdr)
unfolding get_pdr Pdr.update
update_pdr heap u s = elim (get_pdr heap u.pdr_id s.pdrs) [
  | none ↦ none
  | some p ↦ some (set heap p (Pdr.update u (pdr_at heap p)))
]

-- The rule that create makes for an uplink PDI, once it has its tunnel endpoint.
abbrev pub uplink_pdr : PfcpSession → CreatePdr → Fteid → PfcpPdr
uplink_pdr s c fteid = record (of_create_pdr c) {
  local_seid = s.seid;
  pdi = (c.pdi.0, record c.pdi.1 { local_fteid = (true, fteid) });
}

abbrev pub downlink_pdr : PfcpSession → CreatePdr → PfcpPdr
downlink_pdr s c = record (of_create_pdr c) { local_seid = s.seid }

-- What create returns: true with the switch, the session and the tunnel endpoint allocated; or
-- false with the cause, and the offending element where it is set.
pub data Created (folly : HashMap) : Type 0 where
  created : Switch folly → PfcpSession → Fteid → Created folly
  refused : Switch folly → ℕ → Option ℕ → Created folly

module _ {folly : HashMap} where
  -- create(create_far, cause, offending_ie)
  unfoldable pub create_far : Switch folly → PfcpSession → CreateFar → Created folly
  create_far sw s c =
      let a = c.apply_action.1 in
      if not c.far_id.0
      then refused sw mandatory_ie_missing (some 108)
      else if not c.apply_action.0
      then refused sw mandatory_ie_missing (some 44)
      else if a.forw && not c.forwarding_parameters.0
      then refused sw mandatory_ie_missing (some 4)
      else if a.dupl && not c.duplicating_parameters.0
      then refused sw mandatory_ie_missing (some 5)
      else created (call (add_far s.seid (of_create_far c)) sw)
          (record s { fars = s.fars ++ (of_create_far c ∷ []) }) no_fteid

  -- add(spdr), for the pointer `p` to `pdr`.
  abbrev add_pdr_to_session : ℕ → PfcpPdr → Fteid → Switch folly → PfcpSession → Created folly
  add_pdr_to_session p pdr fteid sw s =
      created (call (add_pdr s.seid pdr) sw) (record s { pdrs = s.pdrs ++ (p ∷ []) }) fteid

  -- Once generate_fteid_s1u has answered: the rule is put in the table of its tunnel, and added.
  unfoldable pub add_uplink :
      PfcpSession → CreatePdr → Option (Fteid × Switch folly) → Option (Created folly)
  unfolding add_pfcp_ul_pdr_by_up_teid
  add_uplink s c none = none
  add_uplink s c (some (fteid, sw)) =
      let pdr = uplink_pdr s c fteid in
      let p = length sw.pdr_heap in
      some (
        add_pdr_to_session p pdr fteid (add_pfcp_ul_pdr_by_up_teid fteid.teid p (new_pdr pdr sw)) s)

  unfoldable pub create_uplink :
      Config → Switch folly → PfcpSession → CreatePdr → Option (Created folly)
  unfolding generate_fteid_s1u add_uplink
  create_uplink cfg sw s c =
      let pdi = c.pdi.1 in
      if not pdi.local_fteid.0
      then some (refused sw mandatory_ie_missing (some 21))
      else if not pdi.local_fteid.1.ch
      then some (refused sw request_rejected none)
      else add_uplink s c (generate_fteid_s1u cfg sw)

  unfoldable pub create_downlink : Switch folly → PfcpSession → CreatePdr → Created folly
  unfolding add_pfcp_dl_pdr_by_ue_ip
  create_downlink sw s c =
      let ue = c.pdi.1.ue_ip_address in
      let p = length sw.pdr_heap in
      if ue.0 && ue.1.v4
      then add_pdr_to_session p (downlink_pdr s c) no_fteid
          (add_pfcp_dl_pdr_by_ue_ip ue.1.ipv4_address p (new_pdr (downlink_pdr s c) sw)) s
      else refused sw request_rejected none

  -- create(create_pdr, cause, offending_ie, allocated_fteid); `none` where no tunnel identifier is
  -- ever found.
  unfoldable pub create_pdr :
      Config → Switch folly → PfcpSession → CreatePdr → Option (Created folly)
  unfolding create_uplink create_downlink
  create_pdr cfg sw s c =
      let pdi = c.pdi.1 in
      if not c.pdr_id.0
      then some (refused sw mandatory_ie_missing (some 56))
      else if not c.pdi.0
      then some (refused sw mandatory_ie_missing (some 2))
      else if not c.precedence.0
      then some (refused sw mandatory_ie_missing (some 29))
      else if not pdi.source_interface.0
      then some (refused sw mandatory_ie_missing (some 20))
      else if pdi.traffic_endpoint_id.0
      then some (refused sw request_rejected none)
      else if pdi.source_interface.1 == access
      then create_uplink cfg sw s c
      else if pdi.source_interface.1 == core
      then some (create_downlink sw s c)
      else some (refused sw request_rejected none)

  -- The body of the loop of cleanup, for one rule.
  unfoldable pub clean_pdr : PfcpPdr → Switch folly → Switch folly
  clean_pdr pdr sw =
      let pdi = pdr.pdi.1 in
      if pdr.pdi.0 && pdi.source_interface.0
      then if pdi.source_interface.1 == access
        then if pdi.local_fteid.0
          then remove_pfcp_ul_pdrs_by_up_teid pdi.local_fteid.1.teid sw
          else sw
        else if pdi.source_interface.1 == core
        then if pdi.ue_ip_address.0 && pdi.ue_ip_address.1.v4
          then remove_pfcp_dl_pdrs_by_ue_ip pdi.ue_ip_address.1.ipv4_address sw
          else sw
        else sw
      else sw

  unfoldable pub clean_pdrs : List PfcpPdr → List ℕ → Switch folly → Switch folly
  unfolding clean_pdr pdr_at
  clean_pdrs heap [] sw = sw
  clean_pdrs heap (p ∷ ps) sw = clean_pdrs heap ps (clean_pdr (pdr_at heap p) sw)

  -- cleanup; the session is left with neither rules.
  abbrev pub cleanup : PfcpSession → Switch folly → PfcpSession × Switch folly
  cleanup s sw = (record s { pdrs = []; fars = [] }, clean_pdrs sw.pdr_heap s.pdrs sw)
