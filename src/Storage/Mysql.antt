-- ===== src/Storage/Mysql.antt =====
-- backend-service/internal/storage/mysql_store.go: the rows and statements, the operations, and what
-- is proved of them.
pub mod Table
pub mod Writes
pub mod Reads
pub mod Listing
pub mod Zombies
pub mod Statements
pub mod Lifecycle
pub mod Stale
pub mod Pages
pub mod Order
pub mod History
