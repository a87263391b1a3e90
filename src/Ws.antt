-- ===== src/Ws.antt =====
-- gateway/internal/ws: the WebSocket hub, which sends updates to the clients of a stream.
pub mod Messages
pub mod Hub
pub mod Acts
pub mod Throttle
pub mod Tests
