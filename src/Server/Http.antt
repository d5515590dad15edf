-- ===== src/Server/Http.antt =====
-- src/server/http.c: what the server reads from a request and writes into a response.
pub mod Writer
pub mod Write
pub mod Html
mod Tests
