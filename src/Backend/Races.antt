-- ===== src/Backend/Races.antt =====
-- backend-service: goroutines that read a job and write it later, with another one in between.
pub mod Cleanup
pub mod Reports
