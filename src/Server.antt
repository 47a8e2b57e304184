-- ===== src/Server.antt =====
-- src/session_server.c and src/session_server_tls.c
pub mod Lock
pub mod Poll
pub mod Serve
pub mod Polling
pub mod Certs
pub mod Swap
pub mod Endpoints
pub mod Options
