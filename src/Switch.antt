-- ===== src/Switch.antt =====
-- The user plane: spgwu/simpleswitch, which installs the rules that PFCP sessions ask for and
-- forwards the packets that match them.
mod Tests
mod Witnesses
mod HandlerWitnesses
pub mod Scenario
pub mod HashMap
pub mod FunctionMap
pub mod Ies
pub mod Far
pub mod Pdr
pub mod Tables
pub mod Session
pub mod Requests
pub mod Establishment
pub mod Modification
pub mod Forwarding
pub mod Validity
