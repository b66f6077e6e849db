-- ===== src/Tests/Starts.antt =====
-- The start of the process: InitContainer of cmd/gophermart/main.go and internal/db.
use sufirmart.Base.{
  inl, inr, ◌⊎◌, ◌≡◌, refl, ℕ, Bool, true, false, Option, none, some, [], bytes, ◌==◌,
  if◌then◌else◌, arith,
}
use sufirmart.Config.{load_config}
use sufirmart.Startup.Migrator.{
  Migrate, MigrateError, no_change, nil_version, migrate_failed, up, IsMigrate, up_dirty,
}
use sufirmart.Startup.{Start, Host, Dependencies, init_container, db_factory}
use sufirmart.Startup.Ready.{IsReady, init_container-IsReady}
use sufirmart.Accrual.Http.{http_reader}
use sufirmart.Tools.WorkerPool.{new_pool}
use sufirmart.Tests.Readers.{client}

-- A database by its version; there are six migrations.
abbrev Tables : Type 0
Tables = Option (ℕ × Bool)

read_version : Tables → MigrateError ⊎ (ℕ × Bool)
read_version none = inl nil_version
read_version (some v) = inr v

migrate_up : Tables → Option MigrateError × Tables
migrate_up none = (none, some (6, false))
migrate_up (some (v, true)) = (some (migrate_failed (bytes "Dirty database")), some (v, true))
migrate_up (some (v, false)) =
    if v == 6 then (some no_change, some (v, false)) else (none, some (6, false))

abbrev migrations : Migrate Tables
migrations = record {
  with_instance = λ m. (none, m);
  source = λ dir m. (none, m);
  version = read_version;
  force = λ v m. (none, some (v, false));
  up = migrate_up;
}

reads-version : (m : Tables) → read_version m ≡ elim m [ none ↦ inl nil_version | some v ↦ inr v ]
unfolding read_version
reads-version none = refl
reads-version (some v) = refl

climbs-latest : (m : Tables) → (migrate_up m).0 ≡ none → (migrate_up m).1 ≡ some (6, false)
unfolding migrate_up
climbs-latest none e = refl
climbs-latest (some (v, true)) e = cc
climbs-latest (some (v, false)) e = ground arith

rests-latest :
    (m : Tables)
    → (migrate_up m).0 ≡ some no_change
    → ((migrate_up m).1 ≡ m) × (m ≡ some (6, false))
unfolding migrate_up
rests-latest none e = cc
rests-latest (some (v, true)) e = cc
rests-latest (some (v, false)) e = ground arith

idles-latest : (m : Tables) → m ≡ some (6, false) → (migrate_up m).0 ≡ some no_change
unfolding migrate_up
idles-latest m e = rw e refl

migrations-IsMigrate : IsMigrate migrations 6 (λ m. m)
migrations-IsMigrate = record {
  joins = λ m. refl;
  opens = λ dir m. refl;
  reads = reads-version;
  forces = λ v m e. refl;
  climbs = climbs-latest;
  rests = rests-latest;
  idles = idles-latest;
}

up_dirty_example :
    ((migrations.force 6 (some (6, true))).1 ≡ some (6, false))
    × ((migrations.up (some (6, false))).0 ≡ some no_change)
    × (up migrations (bytes "./migrations") (some (6, true))
        ≡ (none, (migrations.up (some (6, false))).1))
    × ((up migrations (bytes "./migrations") (some (6, true))).1 ≡ some (6, false))
up_dirty_example =
    up_dirty migrations migrations-IsMigrate (bytes "./migrations") (some (6, true)) refl
      (λ n. refl) (λ n. refl) (λ n. refl)

abbrev host : Host Tables
host = record {
  logger = none;
  viper = record { get_string = λ ss key. bytes "set"; get_bool = λ ss key. true };
  open_database = λ uri. none;
  migrate = migrations;
  ping = λ m. none;
  client = client;
}

abbrev nothing_yet : Start Tables
nothing_yet = record { database = none; calls = [] }

abbrev given : Dependencies
given = record {
  config = record {
    server_address = bytes "set";
    database_uri = bytes "set";
    accrual_address = bytes "set";
    migration_dir = bytes "set";
    auto_migrate = true;
  };
  accrual_reader = http_reader client (bytes "set");
  worker_pool = new_pool 5 100;
}

container-built : (init_container host nothing_yet).0 ≡ inr given
unfolding init_container load_config db_factory up migrate_up read_version
container-built = refl

init_container-IsReady_example :
    IsReady host migrations-IsMigrate nothing_yet given (init_container host nothing_yet).1
init_container-IsReady_example =
    init_container-IsReady host migrations-IsMigrate nothing_yet given container-built
