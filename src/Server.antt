-- ===== src/Server.antt =====
-- server.go: the workers of the server, by session and user, and clock/clock.go.
pub mod Workers
pub mod Clock
pub mod Serving
