-- ===== src/Central.antt =====
-- pkg/central: the central server.
pub mod Tokens
pub mod Suggestions
pub mod Analysis
pub mod Measure
pub mod Measurements
pub mod Credentials
pub mod Api
pub mod Export
pub mod Publication
pub mod Exchange
