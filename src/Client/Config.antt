-- ===== src/Client/Config.antt =====
-- pkg/client/internal/config: the client's configuration.
pub mod Settings
pub mod Connections
pub mod Upgrade
pub mod Reading
