-- ===== src/Switch/Pdr/Detection.antt =====
-- Which packets a detection rule matches (pfcp_pdr::look_up_pack_in_access and
-- look_up_pack_in_core).
use openair_cn_cups.Common.{ℕ, ◌≡◌, ◌↔◌, true, false, arith}
use openair_cn_cups.Switch.Far.{Packet, access}
use openair_cn_cups.Switch.Pdr.{
  PfcpPdr, look_up_pack_in_access, look_up_pack_in_core, pdi_in_access,
}

-- What an uplink rule asks of a packet that came through the tunnel `tunnel_id`: each element that
-- the PDI has agrees, and the source address is the one of the user equipment.
pub record IsUplinkMatch (pdr : PfcpPdr) (iph : Packet) (tunnel_id : ℕ) : Type 0 where
  pub removes : pdr.outer_header_removal.0 ≡ true
  pub gtpu_ipv4 : pdr.outer_header_removal.1 ≡ 0
  pub has_pdi : pdr.pdi.0 ≡ true
  pub from_access : pdr.pdi.1.source_interface.0 ≡ true → pdr.pdi.1.source_interface.1 ≡ access
  pub in_tunnel : pdr.pdi.1.local_fteid.0 ≡ true → pdr.pdi.1.local_fteid.1.teid ≡ tunnel_id
  pub ue_v4 : pdr.pdi.1.ue_ip_address.0 ≡ true → pdr.pdi.1.ue_ip_address.1.v4 ≡ true
  pub from_ue :
      pdr.pdi.1.ue_ip_address.0 ≡ true → pdr.pdi.1.ue_ip_address.1.ipv4_address ≡ iph.saddr

-- look_up_pack_in_access answers true exactly on an uplink match, as IsUplinkMatch describes
-- it.
pub look_up_pack_in_access_iff :
    (pdr : PfcpPdr) (iph : Packet) (tunnel_id : ℕ)
    → (look_up_pack_in_access pdr iph tunnel_id ≡ true) ↔ IsUplinkMatch pdr iph tunnel_id
unfolding look_up_pack_in_access pdi_in_access
look_up_pack_in_access_iff pdr iph tunnel_id = (
  λ h. record {
    removes = ground arith;
    gtpu_ipv4 = ground arith;
    has_pdi = ground arith;
    from_access = ground arith;
    in_tunnel = ground arith;
    ue_v4 = ground arith;
    from_ue = ground arith;
  },
  λ m. ground arith,
)

-- What a downlink rule asks: no outer header to remove, and the destination address is the one of
-- the user equipment.
pub record IsDownlinkMatch (pdr : PfcpPdr) (iph : Packet) : Type 0 where
  pub keeps : pdr.outer_header_removal.0 ≡ false
  pub ue_v4 : pdr.pdi.1.ue_ip_address.0 ≡ true → pdr.pdi.1.ue_ip_address.1.v4 ≡ true
  pub to_ue : pdr.pdi.1.ue_ip_address.0 ≡ true → pdr.pdi.1.ue_ip_address.1.ipv4_address ≡ iph.daddr

-- look_up_pack_in_core answers true exactly on a downlink match, as IsDownlinkMatch
-- describes it.
pub look_up_pack_in_core_iff :
    (pdr : PfcpPdr) (iph : Packet) → (look_up_pack_in_core pdr iph ≡ true) ↔ IsDownlinkMatch pdr iph
unfolding look_up_pack_in_core
look_up_pack_in_core_iff pdr iph = (
  λ h. record { keeps = ground arith; ue_v4 = ground arith; to_ue = ground arith },
  λ m. ground arith,
)
