-- ===== src/Startup/Ready.antt =====
-- What holds once InitContainer of cmd/gophermart/main.go has returned.
use mathlib.Core.List.{append_assoc}
use sufirmart.Base.{
  inl, inr, ◌⊎◌, ◌≡◌, refl, ◌∙◌, ℕ, Bool, false, not, ◌&&◌, Bool-cases, Option-cases, Option, none,
  some, List, [], ◌∷◌, ◌++◌, bytes, if◌then◌else◌,
}
use sufirmart.Config.{config_error, AppConfig, ConfigError, load_config, is_unset, checked}
use sufirmart.Startup.Migrator.{MigrateError, IsMigrate, up, up-latest}
use sufirmart.Startup.{
  StartError, failed, not_configured, DatabaseCall, opens, migrates, pings, Start, Host,
  Dependencies, called, migrated, db_factory, pinged, connected, configured, init_container,
  dependencies,
}

-- Whether the tables are to be migrated.
abbrev pub migrating : AppConfig → Bool
migrating cfg = cfg.auto_migrate && not (is_unset cfg.migration_dir)

-- The calls of a start that ends well.
abbrev pub calls_of : AppConfig → List DatabaseCall
calls_of cfg =
    opens cfg.database_uri
    ∷ (if migrating cfg then migrates cfg.migration_dir ∷ pings ∷ [] else pings ∷ [])

checked-set :
    (cfg done : AppConfig)
    → checked cfg ≡ inr done
    → (is_unset done.database_uri ≡ false) × (is_unset done.accrual_address ≡ false)
unfolding checked
checked-set cfg done e = elim (Bool-cases (is_unset cfg.database_uri)) [
  | inl unset ↦
      let no : inl (config_error (bytes "DATABASE_URI is not set")) ≡ inr done =
        rw (unset, checked) at e in
      cc
  | inr first ↦ elim (Bool-cases (is_unset cfg.accrual_address)) [
    | inl unset ↦
        let no : inl (config_error (bytes "ACCRUAL_SYSTEM_ADDRESS is not set")) ≡ inr done =
          rw (first, checked, unset) at e in
        cc
    | inr second ↦
        let same : inr cfg ≡ inr done = rw (first, checked, second) at e in
        let eq : cfg ≡ done = cc in (rw eq at first, rw eq at second)
  ]
]

module _ {M : Type 0} (host : Host M) {latest : ℕ} {view : M → Option (ℕ × Bool)}
    (law : IsMigrate host.migrate latest view) where
  -- What DBFactory leaves where it returns no error.
  abbrev IsOpened : AppConfig → Start M → Start M → Type 0
  IsOpened cfg s s' =
      (view s'.database ≡ (if migrating cfg then some (latest, false) else view s.database))
      × (s'.calls ++ pings ∷ [] ≡ s.calls ++ calls_of cfg)

  migrated-none :
      (r : Option MigrateError × M) (s : Start M)
      → (migrated host r s).0 ≡ none
      → (r.0 ≡ none) × ((migrated host r s).1 ≡ record s { database = r.1 })
  unfolding migrated
  migrated-none (none, m) s e = (refl, refl)
  migrated-none (some x, m) s e = cc

  db_factory-IsOpened :
      (cfg : AppConfig) (s : Start M)
      → (db_factory host cfg s).0 ≡ none
      → IsOpened cfg s (db_factory host cfg s).1
  unfolding db_factory called
  db_factory-IsOpened cfg s e = elim (Option-cases (host.open_database cfg.database_uri)) [
    | inr (x, refused) ↦ let no : some (failed x) ≡ none = rw (refused, db_factory) at e in cc
    | inl opened ↦ elim (Bool-cases (migrating cfg)) [
      | inr plain ↦
          rw (opened, db_factory, plain)
            (refl, append_assoc s.calls (opens cfg.database_uri ∷ []) (pings ∷ []))
      | inl wanted ↦
          let uri = opens cfg.database_uri in
          let dir = migrates cfg.migration_dir in
          let r = up host.migrate cfg.migration_dir s.database in
          let (fine, same) =
            migrated-none r (record s { calls = (s.calls ++ uri ∷ []) ++ dir ∷ [] })
              (rw (opened, db_factory, wanted) at e) in
          rw (opened, db_factory, wanted, same)
            (
              up-latest host.migrate law cfg.migration_dir s.database fine,
              append_assoc (s.calls ++ uri ∷ []) (dir ∷ []) (pings ∷ [])
                  ∙ append_assoc s.calls (uri ∷ []) (dir ∷ pings ∷ []),
            )
    ]
  ]

  pinged-ready :
      (cfg : AppConfig) (s : Start M) (deps : Dependencies)
      → (pinged host cfg s).0 ≡ inr deps
      → (deps.config ≡ cfg)
        × (host.ping s.database ≡ none)
        × ((pinged host cfg s).1 ≡ record s { calls = s.calls ++ pings ∷ [] })
  unfolding pinged called dependencies
  pinged-ready cfg s deps e = elim (Option-cases (host.ping s.database)) [
    | inr (x, down) ↦ let no : inl (failed x) ≡ inr deps = rw (down, pinged) at e in cc
    | inl alive ↦
        let same : inr (dependencies host cfg) ≡ inr deps = rw (alive, pinged) at e in
        let eq : dependencies host cfg ≡ deps = cc in
        rw (alive, pinged) (rw (← eq) refl, refl, refl)
  ]

  connected-ready :
      (cfg : AppConfig) (s : Start M) (r : Option StartError × Start M) (deps : Dependencies)
      → (r.0 ≡ none → IsOpened cfg s r.1)
      → (connected host cfg r).0 ≡ inr deps
      → (deps.config ≡ cfg)
        × (host.ping (connected host cfg r).1.database ≡ none)
        × (view (connected host cfg r).1.database
            ≡ (if migrating cfg then some (latest, false) else view s.database))
        × ((connected host cfg r).1.calls ≡ s.calls ++ calls_of cfg)
  unfolding connected
  connected-ready cfg s (some x, s') deps h e = let no : inl x ≡ inr deps = e in cc
  connected-ready cfg s (none, s') deps h e =
      let (same, alive, left) = pinged-ready cfg s' deps e in
      rw left (same, alive, (h refl).0, (h refl).1)

  -- What is known of the dependencies and of the database.
  abbrev pub IsReady : Start M → Dependencies → Start M → Type 0
  IsReady s deps s' =
      (is_unset deps.config.database_uri ≡ false)
      × (is_unset deps.config.accrual_address ≡ false)
      × (host.ping s'.database ≡ none)
      × (view s'.database
          ≡ (if migrating deps.config then some (latest, false) else view s.database))
      × (s'.calls ≡ s.calls ++ calls_of deps.config)

  configured-IsReady :
      (loaded : ConfigError ⊎ AppConfig) (s : Start M) (deps : Dependencies)
      → ((cfg : AppConfig)
          → loaded ≡ inr cfg
          → (is_unset cfg.database_uri ≡ false) × (is_unset cfg.accrual_address ≡ false))
      → (configured host loaded s).0 ≡ inr deps
      → IsReady s deps (configured host loaded s).1
  unfolding configured
  configured-IsReady (inl x) s deps h e = let no : inl (not_configured x) ≡ inr deps = e in cc
  configured-IsReady (inr cfg) s deps h e =
      let (same, alive, settled, calls) =
        connected-ready cfg s (db_factory host cfg s) deps (db_factory-IsOpened cfg s) e in
      rw same ((h cfg refl).0, (h cfg refl).1, alive, settled, calls)

  -- If InitContainer returns, the addresses of the database and of the accrual service are set, the
  -- database has answered the ping and, where a migration is asked for, is at the last version and
  -- clean; one connection was opened and none closed. The condition: golang-migrate does what it
  -- documents.
  pub init_container-IsReady :
      (s : Start M) (deps : Dependencies)
      → (init_container host s).0 ≡ inr deps
      → IsReady s deps (init_container host s).1
  unfolding init_container load_config
  init_container-IsReady s deps e = elim (Option-cases host.logger) [
    | inr (x, broken) ↦ let no : inl (failed x) ≡ inr deps = rw (broken, init_container) at e in cc
    | inl built ↦
        rw (built, init_container)
          (configured-IsReady (load_config host.viper none) s deps (λ cfg l. checked-set _ cfg l)
            (rw (built, init_container) at e))
  ]
