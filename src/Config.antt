-- ===== src/Config.antt =====
-- internal/config/app_config.go: the configuration from flags, the environment, defaults and local
-- arguments.
pub mod Precedence
pub mod Messages
use sufirmart.Base.{
  inl, inr, ◌⊎◌, ℕ, zero, suc, Bool, true, false, not, Option, none, some, List, [], ◌∷◌, ◌++◌, Str,
  str_eq, bytes, lookup, if◌then◌else◌,
}

pub record AppConfig : Type 0 where
  pub server_address : Str
  pub database_uri : Str
  pub accrual_address : Str
  pub migration_dir : Str
  pub auto_migrate : Bool

-- What an `any` among the local arguments holds.
pub data Any : Type 0 where
  text : Str → Any
  flag : Bool → Any
  other : Any

-- The previous error stands as its text.
pub record ConfigError : Type 0 where
  pub msg : Str
  pub err : Option Str

-- Error, which sets no previous error
abbrev pub config_error : Str → ConfigError
config_error msg = record { msg = msg; err = none }

-- What the method Error builds, once it knows whether the previous text is its own.
text_with : Str → Str → Bool → Str
text_with msg previous true = bytes "[CONFIG] " ++ msg
text_with msg previous false =
    bytes "[CONFIG] " ++ (msg ++ (bytes " (previous: " ++ (previous ++ bytes ")")))

-- The method Error of ConfigError calls itself to compare the two texts: the fuel bounds how often.
unfoldable pub error_text : ℕ → ConfigError → Option Str
unfolding text_with
error_text zero e = none
error_text (suc fuel) e =
    let own = error_text fuel e in
    elim e.err [
      | none ↦ some (bytes "[CONFIG] " ++ e.msg)
      | some previous ↦ elim own [
        | none ↦ none
        | some whole ↦ some (text_with e.msg previous (str_eq previous whole))
      ]
    ]

-- The calls that set a viper up.
pub data Setting : Type 0 where
  set_default : Str → Str → Setting
  set_default_bool : Str → Bool → Setting
  bind_env : Str → Setting
  automatic_env : Setting
  bind_pflag : Str → Str → Setting

-- The library viper: what it answers for a key after the calls that set it up.
pub record Viper : Type 0 where
  pub get_string : List Setting → Str → Str
  pub get_bool : List Setting → Str → Bool

-- The calls of LoadConfig, in their order; the flags are those that it declares.
abbrev pub settings : List Setting
settings =
    set_default (bytes "RUN_ADDRESS") (bytes "0.0.0.0:8080")
    ∷ set_default (bytes "MIGRATIONS_DIR") (bytes "./migrations")
    ∷ set_default_bool (bytes "AUTO_MIGRATE") true
    ∷ bind_env (bytes "RUN_ADDRESS")
    ∷ bind_env (bytes "DATABASE_URI")
    ∷ bind_env (bytes "ACCRUAL_SYSTEM_ADDRESS")
    ∷ bind_env (bytes "MIGRATIONS_DIR")
    ∷ bind_env (bytes "AUTO_MIGRATE")
    ∷ automatic_env
    ∷ bind_pflag (bytes "RUN_ADDRESS") (bytes "address")
    ∷ bind_pflag (bytes "DATABASE_URI") (bytes "database")
    ∷ bind_pflag (bytes "ACCRUAL_SYSTEM_ADDRESS") (bytes "accrual")
    ∷ bind_pflag (bytes "MIGRATIONS_DIR") (bytes "migrations")
    ∷ []

-- val.(string) and val.(bool), with what stands where they fail
unfoldable pub string_or : Str → Option Any → Str
string_or old (some (text s)) = s
string_or old _ = old

unfoldable pub bool_or : Bool → Option Any → Bool
bool_or old (some (flag b)) = b
bool_or old _ = old

-- redefineLocal
unfoldable pub redefine_local : List (Str × Any) → AppConfig → AppConfig
unfolding string_or bool_or
redefine_local args cfg = record {
  server_address = string_or cfg.server_address (lookup (bytes "ServerAddress") args);
  database_uri = string_or cfg.database_uri (lookup (bytes "DatabaseUri") args);
  accrual_address = string_or cfg.accrual_address (lookup (bytes "AccuralAddress") args);
  migration_dir = string_or cfg.migration_dir (lookup (bytes "MigrationDir") args);
  auto_migrate = bool_or cfg.auto_migrate (lookup (bytes "AutoMigrate") args);
}

unfoldable pub redefine : Option (List (Str × Any)) → AppConfig → AppConfig
unfolding redefine_local
redefine none cfg = cfg
redefine (some args) cfg = redefine_local args cfg

abbrev pub is_unset : Str → Bool
is_unset [] = true
is_unset (c ∷ s) = false

-- The tests at the end of LoadConfig
unfoldable pub checked : AppConfig → ConfigError ⊎ AppConfig
checked cfg =
    if is_unset cfg.database_uri
    then inl (config_error (bytes "DATABASE_URI is not set"))
    else if is_unset cfg.accrual_address
    then inl (config_error (bytes "ACCRUAL_SYSTEM_ADDRESS is not set"))
    else inr cfg

-- LoadConfig
unfoldable pub load_config : Viper → Option (List (Str × Any)) → ConfigError ⊎ AppConfig
unfolding checked redefine
load_config v args = checked (
    redefine args (record {
      server_address = v.get_string settings (bytes "RUN_ADDRESS");
      database_uri = v.get_string settings (bytes "DATABASE_URI");
      accrual_address = v.get_string settings (bytes "ACCRUAL_SYSTEM_ADDRESS");
      migration_dir = v.get_string settings (bytes "MIGRATIONS_DIR");
      auto_migrate = v.get_bool settings (bytes "AUTO_MIGRATE");
    }))
