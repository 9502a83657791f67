-- ===== src/Shared.antt =====
-- pkg/shared: the types and helpers that the client, the transport services and the central
-- server have in common.
pub mod Connection
pub mod Transport
pub mod Validator
pub mod Ids
pub mod Version
pub mod PublicIp
