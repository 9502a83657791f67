-- ===== src/Client.antt =====
-- pkg/client: the client application.
pub mod Hosts
pub mod Config
pub mod Api
pub mod Updates
pub mod BrowserCode
pub mod Auth
pub mod Debug
