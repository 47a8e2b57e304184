-- ===== src/Io.antt =====
-- src/io.c
pub mod Read
pub mod Frame
pub mod Write
pub mod Message
pub mod Receive
