-- ===== src/Switch/Pdr.antt =====
-- spgwu/simpleswitch/pfcp_pdr.{hpp,cpp}: a packet detection rule.
pub mod Detection
use openair_cn_cups.Common.{ℕ, ◌==◌, Bool, true, false, not, ltb, ◌&&◌, if◌then◌else◌}
use openair_cn_cups.Switch.Ies.{Ie, Octets, absent, assign, Pdi, no_pdi, CreatePdr, UpdatePdr}
use openair_cn_cups.Switch.Far.{Packet, access}

pub record PfcpPdr : Type 0 where
  pub local_seid : ℕ
  pub pdr_id : ℕ
  pub precedence : Ie ℕ
  pub pdi : Ie Pdi
  pub outer_header_removal : Ie ℕ
  pub far_id : Ie ℕ
  pub urr_id : Ie ℕ
  pub qer_id : Ie ℕ
  pub activate_predefined_rules : Ie Octets
  pub notified_cp : Bool

-- The constructor from a create_pdr.
abbrev pub of_create_pdr : CreatePdr → PfcpPdr
of_create_pdr c = record {
  local_seid = 0;
  pdr_id = c.pdr_id.1;
  precedence = c.precedence;
  pdi = c.pdi;
  outer_header_removal = c.outer_header_removal;
  far_id = c.far_id;
  urr_id = c.urr_id;
  qer_id = c.qer_id;
  activate_predefined_rules = c.activate_predefined_rules;
  notified_cp = false;
}

-- The object a pointer never points to; see Tables.
abbrev pub no_pdr : PfcpPdr
no_pdr = record {
  local_seid = 0;
  pdr_id = 0;
  precedence = (false, 0);
  pdi = (false, no_pdi);
  outer_header_removal = (false, 0);
  far_id = (false, 0);
  urr_id = (false, 0);
  qer_id = (false, 0);
  activate_predefined_rules = absent;
  notified_cp = false;
}

-- operator<
abbrev pub precedes : PfcpPdr → PfcpPdr → Bool
precedes p q = ltb p.precedence.1 q.precedence.1

-- pfcp_pdr::update, which always returns true.
unfoldable pub update : UpdatePdr → PfcpPdr → PfcpPdr
update u pdr = record pdr {
  outer_header_removal = assign u.outer_header_removal pdr.outer_header_removal;
  precedence = assign u.precedence pdr.precedence;
  pdi = assign u.pdi pdr.pdi;
  far_id = assign u.far_id pdr.far_id;
  urr_id = assign u.urr_id pdr.urr_id;
  qer_id = assign u.qer_id pdr.qer_id;
}

-- The checks on the PDI in look_up_pack_in_access.
unfoldable pub pdi_in_access : Pdi → Packet → ℕ → Bool
pdi_in_access pdi iph tunnel_id =
    if pdi.source_interface.0 && not (pdi.source_interface.1 == access)
    then false
    else if pdi.local_fteid.0 && not (pdi.local_fteid.1.teid == tunnel_id)
    then false
    else if pdi.ue_ip_address.0 && not pdi.ue_ip_address.1.v4
    then false
    else if pdi.ue_ip_address.0 && not (pdi.ue_ip_address.1.ipv4_address == iph.saddr)
    then false
    else true

unfoldable pub look_up_pack_in_access : PfcpPdr → Packet → ℕ → Bool
unfolding pdi_in_access
look_up_pack_in_access pdr iph tunnel_id =
    if not pdr.outer_header_removal.0
    then false
    else if not (pdr.outer_header_removal.1 == 0)
    then false
    else if pdr.pdi.0
    then pdi_in_access pdr.pdi.1 iph tunnel_id
    else false

unfoldable pub look_up_pack_in_core : PfcpPdr → Packet → Bool
look_up_pack_in_core pdr iph =
    let ue = pdr.pdi.1.ue_ip_address in
    if pdr.outer_header_removal.0
    then false
    else if ue.0 && not ue.1.v4
    then false
    else if ue.0 && not (ue.1.ipv4_address == iph.daddr)
    then false
    else true
