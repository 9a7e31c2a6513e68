-- ===== src/Http.antt =====
-- internal/platform/server and internal/httputil: the HTTP gateway before the room service.
pub mod Errors
pub mod Setup
pub mod Health
pub mod Router
pub mod Sending
pub mod EventStream
pub mod Fixtures
pub mod Calling
pub mod RoomHandlers
pub mod MessageHandlers
