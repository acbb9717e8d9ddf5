-- ===== src/Migrate/Runner.antt =====
-- internal/database/migrate/migrate.go: Runner, under its advisory lock. The database is its table
-- schema_migrations, in the order of insertion, and a schema `S` that SQL texts change: `run_sql` is what
-- the database makes of a text, `none` an error. Which other database calls fail is an argument.
pub mod Rows
pub mod Prefix
pub mod Newest
pub mod Undo
use aegisops_ai.Base.{
  ℕ, zero, suc, ◌+◌, Bool, true, false, not, ◌&&◌, ◌||◌, ◌==◌, leb, ltb, String, str_eq, is_blank,
  List, [], ◌∷◌, ◌++◌, Option, none, some, is_some, if◌then◌else◌, any, keep, find_first, map,
  sort_stable, ℤ, pos_part,
}
use aegisops_ai.Shared.{Time}
use aegisops_ai.Migrate.Load.{Migration}

pub record AppliedMigration : Type 0 where
  pub version : ℕ
  pub name : String
  pub checksum : String
  pub applied_at : Time
  pub duration_ms : ℕ

pub record Status : Type 0 where
  pub version : ℕ
  pub name : String
  pub applied : Bool
  pub applied_at : Time
  pub checksum_mismatch : Bool

pub data MigrateError : Type 0 where
  locked_out no_table no_rows : MigrateError
  dirty_checksum : ℕ → MigrateError
  -- the migration, by its version, could not be applied, or reverted
  not_applied not_reverted : ℕ → MigrateError
  bad_steps : MigrateError
  no_down : ℕ → MigrateError

-- What goes wrong in one run, and the clock.
pub record Conditions : Type 0 where
  pub lock_fails : Bool
  pub table_fails : Bool
  pub read_fails : Bool
  -- begin, record or commit, by version
  pub write_fails : ℕ → Bool
  pub now : ℕ → Time
  pub took : ℕ → ℕ

has_version : ℕ → AppliedMigration → Bool
has_version v r = r.version == v

-- applied[v], of the map that scanApplied builds.
pub applied_row : ℕ → List AppliedMigration → Option AppliedMigration
unfolding has_version find_first
applied_row v rows = find_first (has_version v) rows

-- The first applied migration whose file has changed.
changed : List AppliedMigration → Migration → Bool
unfolding applied_row
changed rows m = elim (applied_row m.version rows) [
  | none ↦ false
  | some r ↦ not (str_eq r.checksum m.checksum)
]

unfoldable pub verify_checksums : List Migration → List AppliedMigration → Option MigrateError
unfolding changed
verify_checksums [] rows = none
verify_checksums (m ∷ ms) rows =
    if changed rows m then some (dirty_checksum m.version) else verify_checksums ms rows

pub newer : Migration → Migration → Bool
newer a b = ltb b.version a.version

module _ {S : Type 0} (run_sql : String → S → Option S) where
  pub record Database : Type 0 where
    pub rows : List AppliedMigration
    pub schema : S

  row_for : Conditions → Migration → AppliedMigration
  row_for c m = record {
    version = m.version;
    name = m.name;
    checksum = m.checksum;
    applied_at = c.now m.version;
    duration_ms = c.took m.version;
  }

  -- The primary key is the version.
  with_row : Conditions → Migration → List AppliedMigration → Option S → Option Database
  unfolding row_for has_version any
  with_row c m rows none = none
  with_row c m rows (some s) =
      if any (has_version m.version) rows
      then none
      else some (record { rows = rows ++ row_for c m ∷ []; schema = s })

  -- applyOne: one transaction, so `none` leaves the database as it was.
  pub apply_one : Conditions → Migration → Database → Option Database
  unfolding with_row
  apply_one c m db =
      if c.write_fails m.version then none else with_row c m db.rows (run_sql m.up_sql db.schema)

  -- The loop of Up; `applied` was read before it.
  pub apply_pending :
      Conditions
      → List AppliedMigration
      → List Migration
      → Database
      → Database × Option MigrateError
  unfolding apply_one applied_row
  apply_pending c applied [] db = (db, none)
  apply_pending c applied (m ∷ ms) db = elim (is_some (applied_row m.version applied)) [
    | true ↦ apply_pending c applied ms db
    | false ↦ elim (apply_one c m db) [
      | none ↦ (db, some (not_applied m.version))
      | some db' ↦ apply_pending c applied ms db'
    ]
  ]

  unfoldable pub up : Conditions → List Migration → Database → Database × Option MigrateError
  unfolding apply_pending
  up c ms db =
      if c.lock_fails
      then (db, some locked_out)
      else if c.table_fails
      then (db, some no_table)
      else if c.read_fails
      then (db, some no_rows)
      else elim (verify_checksums ms db.rows) [
        | some err ↦ (db, some err)
        | none ↦ apply_pending c db.rows ms db
      ]

  without_row : Migration → List AppliedMigration → Option S → Option Database
  unfolding has_version keep
  without_row m rows none = none
  without_row m rows (some s) =
      some (record { rows = keep (λ r. not (has_version m.version r)) rows; schema = s })

  pub revert_one : Conditions → Migration → Database → Option Database
  unfolding without_row
  revert_one c m db =
      if c.write_fails m.version then none else without_row m db.rows (run_sql m.down_sql db.schema)

  -- The loop of Down over the migrations, newest first; `left` may still be rolled back.
  pub revert_newest :
      Conditions
      → List AppliedMigration
      → ℕ
      → List Migration
      → Database
      → Database × Option MigrateError
  unfolding revert_one applied_row
  revert_newest c applied left [] db = (db, none)
  revert_newest c applied zero (m ∷ ms) db = (db, none)
  revert_newest c applied (suc left) (m ∷ ms) db = elim (is_some (applied_row m.version applied)) [
    | false ↦ revert_newest c applied (suc left) ms db
    | true ↦ elim (is_blank m.down_sql) [
      | true ↦ (db, some (no_down m.version))
      | false ↦ elim (revert_one c m db) [
        | none ↦ (db, some (not_reverted m.version))
        | some db' ↦ revert_newest c applied left ms db'
      ]
    ]
  ]

  unfoldable pub down : Conditions → ℤ → List Migration → Database → Database × Option MigrateError
  unfolding revert_newest newer
  down c steps ms db =
      if pos_part steps == 0
      then (db, some bad_steps)
      else if c.lock_fails
      then (db, some locked_out)
      else if c.read_fails
      then (db, some no_rows)
      else revert_newest c db.rows (pos_part steps) (sort_stable newer ms) db

-- One line of Status.
status_of : List AppliedMigration → Migration → Status
unfolding applied_row
status_of rows m = elim (applied_row m.version rows) [
  | none ↦ record {
    version = m.version;
    name = m.name;
    applied = false;
    applied_at = 0;
    checksum_mismatch = false;
  }
  | some r ↦ record {
    version = m.version;
    name = m.name;
    applied = true;
    applied_at = r.applied_at;
    checksum_mismatch = not (str_eq r.checksum m.checksum);
  }
]

-- Status, where the database answers.
unfoldable pub status : List Migration → List AppliedMigration → List Status
unfolding status_of
status ms rows = map (status_of rows) ms

unfoldable pub latest_version : List Migration → ℕ
latest_version [] = 0
latest_version (m ∷ []) = m.version
latest_version (m ∷ m' ∷ ms) = latest_version (m' ∷ ms)
