-- ===== src/Config/Messages.antt =====
-- When the method Error of ConfigError in internal/config/app_config.go returns.
use sufirmart.Base.{◌≡◌, refl, ℕ, zero, suc, none, some, ◌++◌, Str, bytes}
use sufirmart.Config.{config_error, error_text}

error_text-none :
    (fuel : ℕ) (msg previous : Str)
    → error_text fuel (record { msg = msg; err = some previous }) ≡ none
unfolding error_text
error_text-none zero msg previous = refl
error_text-none (suc fuel) msg previous = rw (error_text, error_text-none fuel msg previous) refl

-- The text of a ConfigError that the function Error makes is there after one call, and it is the
-- message with a prefix. Of one with a previous error no number of calls is enough: the method
-- calls itself without end.
pub error_text_outcome :
    (fuel : ℕ) (msg previous : Str)
    → (error_text (suc fuel) (config_error msg) ≡ some (bytes "[CONFIG] " ++ msg))
      × (error_text fuel (record { msg = msg; err = some previous }) ≡ none)
unfolding error_text
error_text_outcome fuel msg previous = (refl, error_text-none fuel msg previous)
