-- ===== src/App/Database.antt =====
-- backend/internal/database/database.go: opening the database and its migrations. The packages sql,
-- migrate and filepath are the parameter `Driver`.
use Prim.Native.String.{◌++◌}
use pihole_cluster_admin.Prelude.{String, Option, none, some}
use pihole_cluster_admin.Httpx.{GoError, other, Result, ok, err, error_text}
use pihole_cluster_admin.Config.{DatabaseConfig, Files}

-- What `m.Up` returns: no error, migrate.ErrNoChange, or another error.
pub data Upgrade : Type 0 where
  upgraded no_change : Upgrade
  upgrade_failed : GoError → Upgrade

-- `M` are the migrators; `up` may have changed the database also if it fails.
pub record Driver (Disk Db M : Type 0) : Type 0 where
  pub open_file : String → Disk → Result Db × Disk
  pub ping : Db → Option GoError
  pub abs : String → Result String
  pub with_instance : Db → Option GoError
  pub migrator : String → Db → Result M
  pub up : M → Db → Upgrade × Db

-- `fmt.Errorf("<what>: %w", err)`
abbrev pub wrapped : String → GoError → GoError
wrapped what e = other (what ++ (": " ++ error_text e))

abbrev pub then_or : {A B : Type 0} → String → Result A → (A → Result B) → Result B
then_or what (err e) next = err (wrapped what e)
then_or what (ok a) next = next a

abbrev pub unless_error : {B : Type 0} → String → Option GoError → Result B → Result B
unless_error what (some e) next = err (wrapped what e)
unless_error what none next = next

module _ {Disk Db M : Type 0} (files : Files Disk) (driver : Driver Disk Db M) where
  abbrev pub migrated : Upgrade × Db → Result Db
  migrated (upgraded, db) = ok db
  migrated (no_change, db) = ok db
  migrated (upgrade_failed e, db) = err (wrapped "apply migrations" e)

  -- runMigrations
  unfoldable pub run_migrations : String → Db → Result Db
  unfolding error_text
  run_migrations migrations_path db =
      then_or "resolve migration path" (driver.abs migrations_path) (λ abs_path.
        unless_error "create migration driver" (driver.with_instance db) (
          then_or "create migrator" (driver.migrator ("file://" ++ abs_path) db)
            (λ m. migrated (driver.up m db))))

  -- NewDatabase once the database is open
  unfoldable pub opened : DatabaseConfig → Result Db → Result Db
  unfolding run_migrations error_text
  opened cfg r = then_or "open database" r (λ db.
      unless_error "ping database" (driver.ping db)
        (then_or "run migrations" (run_migrations cfg.migrations_path db) ok))

  abbrev pub open_at : DatabaseConfig → Option GoError × Disk → Result Db × Disk
  open_at cfg (some e, disk) = (err (wrapped "create database directory" e), disk)
  open_at cfg (none, disk) =
      let (r, disk') = driver.open_file cfg.path disk in (opened cfg r, disk')

  -- NewDatabase
  unfoldable pub new_database : DatabaseConfig → Disk → Result Db × Disk
  unfolding opened error_text
  new_database cfg disk = open_at cfg (files.mkdir_all (files.dir cfg.path) disk)
