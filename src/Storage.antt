-- ===== src/Storage.antt =====
-- internal/repository/postgres: what the SQL of a repository does to its table, a list of rows.
pub mod Ledger
pub mod Incidents
