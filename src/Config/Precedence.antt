-- ===== src/Config/Precedence.antt =====
-- Which source decides a value of internal/config/app_config.go.
use sufirmart.Base.{
  inl, inr, ◌≡◌, refl, ap, ◌∙◌, Bool, Option, none, some, List, [], ◌∷◌, Str, str_eq, bytes, lookup,
  if◌then◌else◌,
}
use sufirmart.Config.{
  AppConfig, Any, text, flag, other, config_error, Setting, set_default, bind_env, automatic_env,
  bind_pflag, Viper, settings, string_or, bool_or, redefine_local, redefine, checked, load_config,
  is_unset,
}

-- The flags that were given and the variables that are set and not empty.
pub record Sources : Type 0 where
  pub given : Str → Option Str
  pub env : Str → Option Str

unfoldable pub or_else : Option Str → Option Str → Option Str
or_else none second = second
or_else (some s) second = some s

-- The documented order of viper: a bound flag that was given, a variable, a default.
module _ (src : Sources) where
  unfoldable pub from_flag : List Setting → Str → Option Str
  from_flag [] key = none
  from_flag (bind_pflag k name ∷ rest) key =
      if str_eq k key then src.given name else from_flag rest key
  from_flag (_ ∷ rest) key = from_flag rest key

  unfoldable pub from_env : List Setting → Str → Option Str
  from_env [] key = none
  from_env (bind_env k ∷ rest) key = if str_eq k key then src.env key else from_env rest key
  from_env (automatic_env ∷ rest) key = src.env key
  from_env (_ ∷ rest) key = from_env rest key

unfoldable pub from_default : List Setting → Str → Option Str
from_default [] key = none
from_default (set_default k s ∷ rest) key = if str_eq k key then some s else from_default rest key
from_default (_ ∷ rest) key = from_default rest key

abbrev pub text_or_empty : Option Str → Str
text_or_empty none = []
text_or_empty (some s) = s

-- The keys of LoadConfig that hold texts.
pub data TextKey : Type 0 where
  run_address database_uri accrual_system_address migrations_dir : TextKey

abbrev pub key_name : TextKey → Str
key_name TextKey.run_address = bytes "RUN_ADDRESS"
key_name TextKey.database_uri = bytes "DATABASE_URI"
key_name TextKey.accrual_system_address = bytes "ACCRUAL_SYSTEM_ADDRESS"
key_name TextKey.migrations_dir = bytes "MIGRATIONS_DIR"

-- What the settings of LoadConfig give for a key.
abbrev pub set_up : Sources → Str → Option Str
set_up src key =
    or_else (from_flag src settings key)
      (or_else (from_env src settings key) (from_default settings key))

-- A viper with the settings of LoadConfig answers for these four keys by that order, and with the
-- empty text where no source has one.
unfoldable pub IsViper : Sources → Viper → Type 0
IsViper src v =
    (k : TextKey) → v.get_string settings (key_name k) ≡ text_or_empty (set_up src (key_name k))

-- A text among the local arguments.
abbrev pub text_of : Option Any → Option Str
text_of (some (text s)) = some s
text_of _ = none

abbrev pub from_args : Option (List (Str × Any)) → Str → Option Str
from_args none name = none
from_args (some args) name = text_of (lookup name args)

-- The first of the four sources that has a text: a local argument, a flag, a variable, a default.
unfoldable pub decided : Option (List (Str × Any)) → Sources → Str → Str → Str → Option Str → Str
unfolding or_else
decided args src name flag_name key default =
    text_or_empty (
      or_else (from_args args name) (or_else (src.given flag_name) (or_else (src.env key) default)))

string_or-text_of :
    (found : Option Any) (rest : Option Str)
    → string_or (text_or_empty rest) found ≡ text_or_empty (or_else (text_of found) rest)
unfolding string_or or_else
string_or-text_of none rest = refl
string_or-text_of (some (text s)) rest = refl
string_or-text_of (some (flag b)) rest = refl
string_or-text_of (some other) rest = refl

-- A value after redefineLocal.
overridden : Option (List (Str × Any)) → Str → Str → Str
overridden none name old = old
overridden (some args) name old = string_or old (lookup name args)

overridden-decided :
    (args : Option (List (Str × Any))) (name old : Str) (rest : Option Str)
    → old ≡ text_or_empty rest
    → overridden args name old ≡ text_or_empty (or_else (from_args args name) rest)
unfolding overridden or_else
overridden-decided none name old rest e = e
overridden-decided (some args) name old rest e =
    ap (λ s. string_or s (lookup name args)) e ∙ string_or-text_of (lookup name args) rest

-- The Boolean value after redefineLocal.
abbrev pub flag_or : Bool → Option Any → Bool
flag_or old (some (flag b)) = b
flag_or old _ = old

abbrev pub migrating : Option (List (Str × Any)) → Bool → Bool
migrating none old = old
migrating (some args) old = flag_or old (lookup (bytes "AutoMigrate") args)

bool_or-flag_or : (old : Bool) (found : Option Any) → bool_or old found ≡ flag_or old found
unfolding bool_or
bool_or-flag_or old none = refl
bool_or-flag_or old (some (text s)) = refl
bool_or-flag_or old (some (flag b)) = refl
bool_or-flag_or old (some other) = refl

-- The configuration by the four sources.
abbrev pub by_sources : Sources → Bool → Option (List (Str × Any)) → AppConfig
by_sources src auto args = record {
  server_address =
      decided args src (bytes "ServerAddress") (bytes "address") (bytes "RUN_ADDRESS")
        (some (bytes "0.0.0.0:8080"));
  database_uri =
      decided args src (bytes "DatabaseUri") (bytes "database") (bytes "DATABASE_URI") none;
  accrual_address =
      decided args src (bytes "AccuralAddress") (bytes "accrual") (bytes "ACCRUAL_SYSTEM_ADDRESS")
        none;
  migration_dir =
      decided args src (bytes "MigrationDir") (bytes "migrations") (bytes "MIGRATIONS_DIR")
        (some (bytes "./migrations"));
  auto_migrate = migrating args auto;
}

redefine-overridden :
    (args : Option (List (Str × Any))) (cfg : AppConfig)
    → redefine args cfg ≡ record {
      server_address = overridden args (bytes "ServerAddress") cfg.server_address;
      database_uri = overridden args (bytes "DatabaseUri") cfg.database_uri;
      accrual_address = overridden args (bytes "AccuralAddress") cfg.accrual_address;
      migration_dir = overridden args (bytes "MigrationDir") cfg.migration_dir;
      auto_migrate = migrating args cfg.auto_migrate;
    }
unfolding redefine redefine_local overridden
redefine-overridden none cfg = refl
redefine-overridden (some args) cfg = λ i. record {
  server_address = string_or cfg.server_address (lookup (bytes "ServerAddress") args);
  database_uri = string_or cfg.database_uri (lookup (bytes "DatabaseUri") args);
  accrual_address = string_or cfg.accrual_address (lookup (bytes "AccuralAddress") args);
  migration_dir = string_or cfg.migration_dir (lookup (bytes "MigrationDir") args);
  auto_migrate = bool_or-flag_or cfg.auto_migrate (lookup (bytes "AutoMigrate") args) i;
}

module _ (src : Sources) (v : Viper) (documented : IsViper src v) where
  answers :
      (k : TextKey) → v.get_string settings (key_name k) ≡ text_or_empty (set_up src (key_name k))
  unfolding IsViper
  answers k = documented k

  -- What LoadConfig returns. Each of the four texts is that of the first source that has one: the
  -- local argument, the flag, the environment variable, the default; and it is an error if this
  -- leaves the address of the database or of the accrual service empty. The condition is that the
  -- library answers for the keys of the four texts in its documented order.
  pub load_config_outcome :
      (args : Option (List (Str × Any)))
      → load_config v args ≡ (
          let cfg = by_sources src (v.get_bool settings (bytes "AUTO_MIGRATE")) args in
          if is_unset cfg.database_uri
          then inl (config_error (bytes "DATABASE_URI is not set"))
          else if is_unset cfg.accrual_address
          then inl (config_error (bytes "ACCRUAL_SYSTEM_ADDRESS is not set"))
          else inr cfg)
  unfolding load_config checked decided from_flag from_env from_default str_eq
  load_config_outcome args = ap checked (
      redefine-overridden args _ ∙ λ i. record {
        server_address =
            overridden-decided args (bytes "ServerAddress") _ (set_up src (bytes "RUN_ADDRESS"))
              (answers TextKey.run_address) i;
        database_uri =
            overridden-decided args (bytes "DatabaseUri") _ (set_up src (bytes "DATABASE_URI"))
              (answers TextKey.database_uri) i;
        accrual_address =
            overridden-decided args (bytes "AccuralAddress") _
              (set_up src (bytes "ACCRUAL_SYSTEM_ADDRESS")) (answers TextKey.accrual_system_address)
              i;
        migration_dir =
            overridden-decided args (bytes "MigrationDir") _ (set_up src (bytes "MIGRATIONS_DIR"))
              (answers TextKey.migrations_dir) i;
        auto_migrate = migrating args (v.get_bool settings (bytes "AUTO_MIGRATE"));
      })
