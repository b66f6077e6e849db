-- ===== src/Store/Statement.antt =====
-- How a statement runs, and what decides its outcome from outside the program.
use sufirmart.Base.{false, ◌≡◌, ℕ, suc, Bool, Str, Result, ok, err, sql_error, Exec, if◌then◌else◌}
use sufirmart.Store.{Db}

-- What the surroundings decide, as functions of the number of outside calls made so far: whether
-- such a call fails, the database's clock, and the random identifiers.
pub record Env : Type 0 where
  pub fails : ℕ → Bool
  pub now : ℕ → ℕ
  pub uuid : ℕ → Str

-- The database, and the number of outside calls made so far.
pub record World : Type 0 where
  pub db : Db
  pub open db use *
  pub calls : ℕ

abbrev pub finish : {A : Type 0} → Result (A × Db) → World → Result A × World
finish (ok (a, d)) w = (ok a, record w { db = d })
finish (err e) w = (err e, w)

module _ (env : Env) where
  -- One statement outside a transaction: it fails and changes nothing, or its changes stay. The
  -- body has NOW() as its argument.
  unfoldable pub statement : {A : Type 0} → (ℕ → Db → Result (A × Db)) → Exec World A
  statement body w =
      let w' = record w { calls = suc w.calls } in
      if env.fails w.calls then (err sql_error, w') else finish (body (env.now w.calls) w.db) w'

  -- uuid.NewString
  unfoldable pub new_uuid : Exec World Str
  new_uuid w = (ok (env.uuid w.calls), record w { calls = suc w.calls })

  abbrev pub conclude : {A : Type 0} → Db → Result (Result A) × World → Result A × World
  conclude before (ok r, w) =
      let w' = record w { calls = suc w.calls } in
      if env.fails w.calls then (err sql_error, record w' { db = before }) else (r, w')
  conclude before (err e, w) = (err e, record w { db = before })

  -- BeginTx, a body with NOW() as its argument, and Commit. Where the body returns an error, and
  -- where Commit fails, the deferred Rollback restores what stood before. Where the body returns a
  -- result `r`, the code commits and then returns `r`, which may be an error too.
  unfoldable pub transaction : {A : Type 0} → (ℕ → Exec World (Result A)) → Exec World A
  transaction body w =
      let w' = record w { calls = suc w.calls } in
      if env.fails w.calls then (err sql_error, w') else conclude w.db (body (env.now w.calls) w')

-- A database that does not fail.
abbrev pub IsUp : Env → Type 0
IsUp env = (n : ℕ) → env.fails n ≡ false

pub statement_up :
    {A : Type 0} (env : Env)
    → IsUp env
    → (body : ℕ → Db → Result (A × Db)) (w : World)
    → statement env body w ≡ finish (body (env.now w.calls) w.db) (record w { calls = suc w.calls })
unfolding statement
statement_up env up body w = rw (up w.calls)

pub transaction_up :
    {A : Type 0} (env : Env)
    → IsUp env
    → (body : ℕ → Exec World (Result A)) (w : World)
    → transaction env body w
      ≡ conclude env w.db (body (env.now w.calls) (record w { calls = suc w.calls }))
unfolding transaction
transaction_up env up body w = rw (up w.calls)
