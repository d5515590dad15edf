-- ===== src/Platform.antt =====
-- src/platform: what the other parts use of the platform layer.
pub mod Stream
pub mod Socket
pub mod Receive
pub mod Ports
pub mod Arguments
