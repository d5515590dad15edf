-- ===== src/Server.antt =====
-- src/server: the HTTP file server `th`.
pub mod SendBuffer
pub mod Http
pub mod Routine
pub mod Request
pub mod Handlers
pub mod Select
