-- ===== src/MySql.antt =====
-- src/diamond/collectors/mysqlstat/mysqlstat.py.
pub mod Keys
pub mod Innodb
pub mod Stats
pub mod Publish
mod Skips
