-- ===== src/Storage.antt =====
-- backend-service/internal/storage: the job table in MySQL and the key-value cache in Redis.
pub mod Mysql
pub mod Redis
