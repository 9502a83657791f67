-- ===== src/Service.antt =====
-- pkg/service: the client's side of the transport services.
pub mod Manager
pub mod Enabled
pub mod Connect
pub mod Server
pub mod Protocol
pub mod Registry
pub mod Environment
