-- ===== src/Tests/Configs.antt =====
-- The configuration: internal/config/app_config.go.
use sufirmart.Base.{inl, inr, ◌≡◌, refl, true, none, some, [], ◌∷◌, bytes, if◌then◌else◌}
use sufirmart.Config.{Any, config_error, error_text, Viper, load_config, is_unset}
use sufirmart.Config.Precedence.{
  Sources, or_else, from_flag, from_env, from_default, text_or_empty, IsViper, by_sources,
  load_config_outcome,
}
use sufirmart.Config.Messages.{error_text_outcome}

-- The address of the accrual service in the environment, and nothing else.
abbrev sources : Sources
sources = record { given = λ name. none; env = λ key. some (bytes "http://accrual") }

abbrev viper : Viper
viper = record {
  get_string = λ ss key. text_or_empty (
      or_else (from_flag sources ss key) (or_else (from_env sources ss key) (from_default ss key)));
  get_bool = λ ss key. true;
}

viper-IsViper : IsViper sources viper
unfolding IsViper
viper-IsViper k = refl

load_config_outcome_example : load_config viper (some ((bytes "DatabaseUri", Any.text []) ∷ [])) ≡ (
    let cfg = by_sources sources true (some ((bytes "DatabaseUri", Any.text []) ∷ [])) in
    if is_unset cfg.database_uri
    then inl (config_error (bytes "DATABASE_URI is not set"))
    else if is_unset cfg.accrual_address
    then inl (config_error (bytes "ACCRUAL_SYSTEM_ADDRESS is not set"))
    else inr cfg)
load_config_outcome_example =
    load_config_outcome sources viper viper-IsViper (some ((bytes "DatabaseUri", Any.text []) ∷ []))

error_text_outcome_example :
    (error_text 8 (config_error (bytes "no file")) ≡ some (bytes "[CONFIG] no file"))
    × (error_text 7 (record { msg = bytes "no file"; err = some (bytes "EOF") }) ≡ none)
error_text_outcome_example = error_text_outcome 7 (bytes "no file") (bytes "EOF")
