-- ===== src/Ipc.antt =====
-- ipc/: messages between processes, a server and its clients over TCP.
pub mod Proto
pub mod Numbered
pub mod Resources
pub mod Frame
pub mod Server
pub mod Client
