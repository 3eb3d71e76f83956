-- ===== src/Protocol.antt =====
-- The wire protocol of the three processes: utils/src/protocol.
pub mod Buffer
pub mod Fields
pub mod Texts
pub mod Messages
pub mod Opcode
pub mod Package
pub mod RoundTrips
pub mod Examples
