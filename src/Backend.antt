-- ===== src/Backend.antt =====
-- backend-service: the goroutines of the whole service, in any order.
pub mod Threads
pub mod Steps
pub mod Writes
pub mod Table
pub mod Backing
pub mod Panics
pub mod Board
pub mod Alone
pub mod Ends
pub mod Drains
pub mod Races
pub mod Final
