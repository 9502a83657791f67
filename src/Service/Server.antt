-- ===== src/Service/Server.antt =====
-- pkg/service/server/server.go: the side of the service protocol that a transport process plays. It
-- reads its settings from environment variables and prints lines of words on its output. Numbers
-- of the counters are 64-bit words.
pub mod Lines
pub mod Tracking
