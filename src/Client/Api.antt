-- ===== src/Client/Api.antt =====
-- pkg/client/api.go: the handlers of the client's own API, which the browser extension calls.
pub mod Connections
pub mod Suggestions
