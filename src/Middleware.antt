-- ===== src/Middleware.antt =====
-- internal/platform/middleware: the limiters and checks that stand before the HTTP handlers.
pub mod RateLimiter
pub mod SseLimiter
pub mod Validation
pub mod RequestContext
pub mod Authentication
