-- ===== src/Tools/Transaction.antt =====
-- internal/tools/db/transaction.go. The function gets the context and not the transaction, so the
-- statements that it runs through a repository are outside the transaction: Rollback undoes nothing
-- of them.
use sufirmart.Base.{Exec, pure, ◌>>=◌, ◌>>◌, ok}
use sufirmart.Store.Statement.{Env, World, statement}

-- BeginTx or Commit: a call of the database that may fail and changes no row.
unfoldable pub tx_call : Env → Exec World (Unit {0})
tx_call env = statement env λ _ db. ok (tt, db)

-- WrapTransaction, over the state of the function. The deferred Rollback of a transaction with no
-- statement in it changes nothing.
unfoldable pub wrap_transaction : {S A : Type 0} → Exec S (Unit {0}) → Exec S A → Exec S A
wrap_transaction call fn = do call; result ← fn; call; pure result
