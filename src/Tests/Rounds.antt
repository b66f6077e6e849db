-- ===== src/Tests/Rounds.antt =====
-- internal/tools/repeater/repeater.go.
use sufirmart.Base.{
  ◌≡◌, refl, ℕ, zero, suc, ◌≤◌, true, false, some, [], ◌∷◌, ok, err, sql_error, Exec, pos, arith,
}
use sufirmart.Tools.Repeater.{Strategy, Outcome, repeat, fixed_delays}
use sufirmart.Tools.Repeater.Bounds.{count_errors, Explained, repeat_limited}

-- Fails until it was called twice.
abbrev flaky : Exec ℕ ℕ
flaky zero = (err sql_error, 1)
flaky (suc zero) = (err sql_error, 2)
flaky (suc (suc n)) = (ok n, suc (suc n))

abbrev delays : Strategy (Unit {0})
delays = fixed_delays (λ _. true) (pos 1 ∷ pos 1 ∷ pos 3 ∷ [])

three : delays.attempts tt ≡ 3
unfolding fixed_delays
three = refl

flaky-repeat :
    repeat delays (λ _. false) flaky 3 tt 0
    ≡ some (record { result = ok 0; strategy = tt; state = 2; errors = sql_error ∷ sql_error ∷ [] })
unfolding repeat fixed_delays
flaky-repeat = refl

repeat_limited_example :
    (o : Outcome (Unit {0}) ℕ ℕ) × (repeat delays (λ _. false) flaky 3 tt 0 ≡ some o)
    × (count_errors o.errors ≤ 3)
    × Explained o.result o.errors
repeat_limited_example = repeat_limited delays (λ _. false) flaky 2 3 tt 0 three (omega arith)
