-- ===== src/Migrate.antt =====
-- internal/database/migrate: the schema migrations. `Load` reads them from files, `Runner` applies
-- and reverts them.
pub mod Load
pub mod Runner
