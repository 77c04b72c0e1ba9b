-- ===== src/Ws.antt =====
-- backend-service/internal/ws/hub.go: the hub that pushes progress to WebSocket clients.
pub mod Client
pub mod Hub
pub mod Counts
pub mod Room
pub mod Delivery
pub mod Steps
pub mod Safety
pub mod Closing
pub mod Silent
