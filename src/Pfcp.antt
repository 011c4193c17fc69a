-- ===== src/Pfcp.antt =====
-- src/pfcp/3gpp_29.244.hpp: the PFCP wire format.
mod Tests
pub mod Tlv
pub mod Scalar
pub mod Fteid
pub mod Fseid
pub mod BitRate
pub mod VolumeThreshold
pub mod ApplyAction
pub mod OuterHeaderCreation
pub mod Header
pub mod Message
pub mod UeIpAddress
