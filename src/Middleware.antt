-- ===== src/Middleware.antt =====
-- backend-service/internal/middleware: what surrounds the handlers of a request.
pub mod Request
pub mod Idempotency
pub mod RateLimiter
pub mod Cors
pub mod Timeout
pub mod Logger
