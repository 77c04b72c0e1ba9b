-- ===== src/Http/Lifecycle.antt =====
-- backend-service/internal: one job from its submission to its result, through the handlers
-- (http/handlers.go), the progress that is followed meanwhile, and the report of the algorithm
-- service (grpcserver/result_server.go).
mod Watching
pub mod Outcome
pub mod Pending
