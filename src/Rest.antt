-- ===== src/Rest.antt =====
-- gateway/internal/rest: the HTTP handlers, on what they read of a request and what they answer. The router,
-- the headers and the encoding of JSON are library code around them.
pub mod Orders
pub mod Checks
pub mod Venues
pub mod Accepted
pub mod Tests
