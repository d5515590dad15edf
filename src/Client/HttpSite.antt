-- ===== src/Client/HttpSite.antt =====
-- src/client/site/http.c: sites over HTTP.
pub mod Response
pub mod Path
pub mod Body
pub mod Lengths
pub mod FileNames
pub mod Reads
mod Tests
