-- ===== src/Account/Calls.antt =====
-- The ledger invariant over any sequence of calls of the repository in
-- internal/repository/account.go.
use sufirmart.Base.{
  inl, inr, Bool-cases, Option-cases, Result-cases, ◌≡◌, refl, sym, ◌∙◌, false, [], ◌∷◌, ◌++◌, Str,
  str_eq, pos, ◌+ℤ◌, ◌≤ℤ◌, ltb_ℤ, int_laws, if◌then◌else◌, arith, ℕ, Result, ok, err, Exec,
}
use sufirmart.Domain.Amount.{Float64, abs, to_numeric, to_numeric-abs_nonneg, to_numeric-zero}
use sufirmart.Store.{Db, UserRow, TransactionRow}
use sufirmart.Store.Table.{find, All-snoc}
use sufirmart.Store.Statement.{Env, World}
use sufirmart.Store.Triple.{
  Triple, Post, BodyPost, Triple-bind, Triple-statement, Triple-pure, Triple-new_uuid,
}
use sufirmart.Account.Rows.{find_transaction, is_processed, insert_transaction, cancel_row}
use sufirmart.Account.Sums.{net, net-snoc, contribution, update_missing}
use sufirmart.Account.Ledger.{
  IsRow, IsLedger, IsOpen-find, NotProcessed, cancel-IsLedger, cancel_where-IsLedger,
}
use sufirmart.Account.Approve.{approve_transaction-IsLedger}
use sufirmart.Account.{
  register_transaction, cancel_transaction, cancel_planned_transactions_by_order,
  approve_transaction,
}

-- `m` keeps the ledger, with a result and with an error.
abbrev Keeps : {A : Type 0} → Exec World A → Type 0
Keeps m = Triple IsLedger m (λ _ d. IsLedger d) IsLedger

pub Post-IsLedger :
    {A : Type 0} (r : Result A) (d : Db) → Post (λ _ e. IsLedger e) IsLedger r d → IsLedger d
Post-IsLedger (ok _) d h = h
Post-IsLedger (err _) d h = h

insert-IsLedger :
    (t : TransactionRow) (db : Db)
    → IsRow t
    → is_processed t.status ≡ false
    → IsLedger db
    → IsLedger (record db { transactions = db.transactions ++ t ∷ [] })
insert-IsLedger t db r e h = record {
  rows = All-snoc IsRow db.transactions t h.rows r;
  balanced = λ v. h.balanced v ∙ sym (net-snoc v db.transactions t ∙ nothing v);
  solvent = h.solvent;
}
  where
    nothing : (v : Str) → net v db.transactions +ℤ contribution v t ≡ net v db.transactions
    nothing v = elim (Bool-cases (str_eq t.user_id v)) [
      | inl same ↦ rw (same, e) (omega int_laws)
      | inr other ↦ rw other (omega int_laws)
    ]

-- A planned transaction with no accrual is inserted, or nothing is.
insert_transaction-IsLedger :
    (id user order_num : Str) (x : Float64) (comment : Str) (now : ℕ) (db : Db)
    → IsLedger db
    → BodyPost
        (λ (_ : Unit {0}) d. IsLedger d)
        IsLedger
        db
        (insert_transaction id user order_num (pos 0) (abs x) comment now db)
unfolding insert_transaction
insert_transaction-IsLedger id user order_num x comment now db h =
    elim (Option-cases (find_transaction id db.transactions)) [
      | inr (t, e) ↦ rw (e, insert_transaction) h
      | inl e ↦ elim (Option-cases (find (λ (u : UserRow). u.id) user db.users)) [
        | inl no_user ↦ rw (e, insert_transaction, no_user) h
        | inr (u, known) ↦ elim (Result-cases (to_numeric (abs x))) [
          | inr (bad, wide) ↦ rw (e, insert_transaction, known, to_numeric-zero, wide) h
          | inl (w, stored) ↦
              rw (e, insert_transaction, known, to_numeric-zero, stored)
                (insert-IsLedger _ db (to_numeric-abs_nonneg x w stored, λ _. refl) refl h)
        ]
      ]
    ]

registered_accrual :
    (sum : Float64) → sum ≤ℤ pos 0 → (if ltb_ℤ sum (pos 0) then pos 0 else abs sum) ≡ pos 0
registered_accrual sum h = ground arith

registered_withdraw :
    (sum : Float64) → sum ≤ℤ pos 0 → (if ltb_ℤ sum (pos 0) then abs sum else pos 0) ≡ abs sum
registered_withdraw sum h = ground arith

module _ (env : Env) where
  -- A transaction registered for a sum that is not positive keeps the ledger.
  pub register_transaction-Keeps :
      (user order_num : Str) (sum : Float64) (comment : Str)
      → sum ≤ℤ pos 0
      → Keeps (register_transaction env user order_num sum comment)
  unfolding register_transaction
  register_transaction-Keeps user order_num sum comment h =
      Triple-bind (λ _. IsLedger) _ _ (Triple-new_uuid IsLedger IsLedger env)
        λ id.
          Triple-bind (λ _. IsLedger) _ _
            (Triple-statement env _ (λ _ p. p)
              λ now d p.
                rw (registered_accrual sum h, registered_withdraw sum h)
                  (insert_transaction-IsLedger id user order_num sum comment now d p))
            λ _. Triple-pure id (λ d q. q)

  pub cancel_transaction-Keeps :
      (id reason : Str)
      → Triple
          (λ d. IsLedger d × NotProcessed id d)
          (cancel_transaction env id reason)
          (λ _ d. IsLedger d)
          IsLedger
  unfolding cancel_transaction
  cancel_transaction-Keeps id reason =
      Triple-statement env _ (λ _ p. p.0)
        λ now d p. elim (Option-cases (find_transaction id d.transactions)) [
          | inl e ↦ rw (update_missing id (cancel_row now reason) d.transactions e) p.0
          | inr (t, e) ↦ cancel-IsLedger id now reason d t (IsOpen-find id t d p.0 p.1 e) p.0
        ]

  pub cancel_planned-Keeps :
      (user order_num reason : Str)
      → Keeps (cancel_planned_transactions_by_order env user order_num reason)
  unfolding cancel_planned_transactions_by_order
  cancel_planned-Keeps user order_num reason =
      Triple-statement env _ (λ _ p. p)
        λ now d p. cancel_where-IsLedger _ now reason d (λ t e. ground arith) p

-- The calls that write.
pub data Call : Type 0 where
  register : Str → Str → Float64 → Str → Call
  approve : Str → Float64 → Call
  cancel : Str → Str → Call
  cancel_planned : Str → Str → Str → Call

-- What the processor and the withdrawal handler see to: a registered sum is not positive, and what
-- they approve or cancel is not processed.
abbrev pub Allowed : Call → Db → Type 0
Allowed (register user order_num sum comment) d = sum ≤ℤ pos 0
Allowed (approve id accrual) d = NotProcessed id d
Allowed (cancel id reason) d = NotProcessed id d
Allowed (cancel_planned user order_num reason) d = Unit {0}

-- The state after a call, whatever it returns.
unfoldable pub after : Env → Call → World → World
after env (register user order_num sum comment) w =
    (register_transaction env user order_num sum comment w).1
after env (approve id accrual) w = (approve_transaction env id accrual w).1
after env (cancel id reason) w = (cancel_transaction env id reason w).1
after env (cancel_planned user order_num reason) w =
    (cancel_planned_transactions_by_order env user order_num reason w).1

after-IsLedger :
    (env : Env) (c : Call) (w : World)
    → Allowed c w.db
    → IsLedger w.db
    → IsLedger (after env c w).db
unfolding after
after-IsLedger env (register user order_num sum comment) w a h =
    Post-IsLedger (register_transaction env user order_num sum comment w).0 _
      ((register_transaction-Keeps env user order_num sum comment a).at w h)
after-IsLedger env (approve id accrual) w a h = approve_transaction-IsLedger env id accrual w h a
after-IsLedger env (cancel id reason) w a h =
    Post-IsLedger (cancel_transaction env id reason w).0 _
      ((cancel_transaction-Keeps env id reason).at w (h, a))
after-IsLedger env (cancel_planned user order_num reason) w a h =
    Post-IsLedger (cancel_planned_transactions_by_order env user order_num reason w).0 _
      ((cancel_planned-Keeps env user order_num reason).at w h)

-- A sequence of allowed calls.
pub data Run (env : Env) (w : World) : World → Type 0 where
  here : Run env w w
  next : {v : World} → Run env w v → (c : Call) → Allowed c v.db → Run env w (after env c v)

-- The ledger holds after every sequence of calls that register sums that are not positive and
-- approve or cancel what is not processed, whichever statements fail on the way.
pub Run-IsLedger : (env : Env) {w v : World} → Run env w v → IsLedger w.db → IsLedger v.db
Run-IsLedger env here h = h
Run-IsLedger env (next {v} r c a) h = after-IsLedger env c v a (Run-IsLedger env r h)
