-- ===== src/Db.antt =====
-- src/db: the SQL statements as functions on the tables.
pub mod Downloads
pub mod Articles
pub mod Files
pub mod Passwords
pub mod Duplicates
pub mod Schema
pub mod Tables
pub mod Migrations
pub mod State
