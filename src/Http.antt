-- ===== src/Http.antt =====
-- backend-service/internal/http: the handlers of the HTTP API and their routes.
pub mod Text
pub mod Query
pub mod Server
pub mod Jobs
pub mod Progress
pub mod System
pub mod Modules
pub mod Submission
pub mod Cancel
pub mod Router
pub mod Serve
pub mod Socket
pub mod Bounds
pub mod Lifecycle
