-- ===== src/Tests.antt =====
-- Sample data, and the theorems applied to it.
mod Samples
mod Table
mod Service
mod Handlers
mod Hub
mod Routes
mod Limits
mod Startup
mod Lists
mod Lifecycle
mod Timeout
mod Backend
mod Races
mod Final
mod Serve
