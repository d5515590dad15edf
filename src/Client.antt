-- ===== src/Client.antt =====
-- src/client: the downloading client `dl`.
pub mod Io
pub mod Uri
pub mod Site
pub mod Queue
pub mod RecvBuffer
pub mod Xml
pub mod HttpSite
