-- ===== src/Startup.antt =====
-- cmd/gophermart/main.go and internal/db/factory.go: how the process starts.
pub mod Migrator
pub mod Ready
pub mod Process
pub mod Orderly
pub mod Run
pub mod Awaited
pub mod Early
pub mod Shutdown
use sufirmart.Base.{
  inl, inr, ◌⊎◌, Bool, true, false, not, ◌&&◌, Option, none, some, List, [], ◌∷◌, ◌++◌, Str,
  if◌then◌else◌,
}
use sufirmart.Config.{AppConfig, ConfigError, Viper, load_config, is_unset}
use sufirmart.Accrual.{Reader}
use sufirmart.Accrual.Http.{HttpClient, http_reader}
use sufirmart.Tools.WorkerPool.{Pool, new_pool}
use sufirmart.Processor.Queue.{Queued}
use Migrator.{Migrate, MigrateError, up}

-- What ends the start; an error of zap or of database/sql stands as its text.
pub data StartError : Type 0 where
  not_configured : ConfigError → StartError
  not_migrated : MigrateError → StartError
  failed : Str → StartError

-- What is done with the connection to the database.
pub data DatabaseCall : Type 0 where
  opens migrates : Str → DatabaseCall
  closes pings : DatabaseCall

-- The database, of type `M`, and the calls so far.
pub record Start (M : Type 0) : Type 0 where
  pub database : M
  pub calls : List DatabaseCall

-- What surrounds the process: whether the logger can be built, the flags and the environment, the
-- driver, golang-migrate, and the client of the accrual service. An error stands as its text.
pub record Host (M : Type 0) : Type 0 where
  pub logger : Option Str
  pub viper : Viper
  pub open_database : Str → Option Str
  pub migrate : Migrate M
  pub ping : M → Option Str
  pub client : HttpClient

-- What NewContainer is given.
pub record Dependencies : Type 0 where
  pub config : AppConfig
  pub accrual_reader : Reader
  pub worker_pool : Pool Queued

module _ {M : Type 0} (host : Host M) where
  called : DatabaseCall → Start M → Start M
  called c s = record s { calls = s.calls ++ c ∷ [] }

  -- What DBFactory does with the end of the migration.
  migrated : Option MigrateError × M → Start M → Option StartError × Start M
  unfolding called
  migrated (none, m) s = (none, record s { database = m })
  migrated (some e, m) s = (some (not_migrated e), called closes (record s { database = m }))

  -- DBFactory
  unfoldable pub db_factory : AppConfig → Start M → Option StartError × Start M
  unfolding migrated called
  db_factory cfg s = elim (host.open_database cfg.database_uri) [
    | some e ↦ (some (failed e), called (opens cfg.database_uri) s)
    | none ↦
        let s' = called (opens cfg.database_uri) s in
        if cfg.auto_migrate && not (is_unset cfg.migration_dir)
        then migrated (up host.migrate cfg.migration_dir s'.database)
            (called (migrates cfg.migration_dir) s')
        else (none, s')
  ]

  dependencies : AppConfig → Dependencies
  dependencies cfg = record {
    config = cfg;
    accrual_reader = http_reader host.client cfg.accrual_address;
    worker_pool = new_pool 5 100;
  }

  -- InitContainer from the ping on.
  pinged : AppConfig → Start M → (StartError ⊎ Dependencies) × Start M
  unfolding called dependencies
  pinged cfg s = elim (host.ping s.database) [
    | some e ↦ (inl (failed e), called pings s)
    | none ↦ (inr (dependencies cfg), called pings s)
  ]

  connected : AppConfig → Option StartError × Start M → (StartError ⊎ Dependencies) × Start M
  unfolding pinged
  connected cfg (some e, s) = (inl e, s)
  connected cfg (none, s) = pinged cfg s

  configured : ConfigError ⊎ AppConfig → Start M → (StartError ⊎ Dependencies) × Start M
  unfolding connected
  configured (inl e) s = (inl (not_configured e), s)
  configured (inr cfg) s = connected cfg (db_factory cfg s)

  -- InitContainer; an error is one of the calls of log.Fatal.
  unfoldable pub init_container : Start M → (StartError ⊎ Dependencies) × Start M
  unfolding configured
  init_container s = elim host.logger [
    | some e ↦ (inl (failed e), s)
    | none ↦ configured (load_config host.viper none) s
  ]
