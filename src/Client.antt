-- ===== src/Client.antt =====
-- The client's part of a session: src/session_client.c and src/messages_client.c.
pub mod Rpc
pub mod Queues
pub mod Errors
pub mod Reply
