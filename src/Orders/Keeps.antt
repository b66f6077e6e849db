-- ===== src/Orders/Keeps.antt =====
-- What internal/repository/order.go keeps of a condition on the database.
use sufirmart.Base.{inl, inr, ℕ, Bool, Bool-cases, Option-cases, none, List, Str, str_eq}
use sufirmart.Domain.Order.{Order, OrderStatus}
use sufirmart.Store.{Db, UserRow, OrderRow}
use sufirmart.Store.Sort.{newest, oldest}
use sufirmart.Store.Table.{find, select}
use sufirmart.Store.Statement.{Env}
use sufirmart.Store.Triple.{
  Triple, BodyPost, Triple-statement, Triple-bind, Triple-lift, Triple-attempt,
}
use sufirmart.Account.Ledger.{IsLedger}
use sufirmart.Account.Rows.{one_row}
use sufirmart.Account.Reads.{Triple-read}
use sufirmart.Orders.{
  get_by_number, save, save_order, find_order, found_row, build_order, build_orders, order_accrual,
  list_by_user, list_by_statuses, has_status, build_orders,
}

-- What only speaks of the transactions and the accounts.
abbrev pub Ignores : (Db → Type 0) → Type 0
Ignores P = (d : Db) (rows : List OrderRow) → P d → P (record d { orders = rows })

pub IsLedger-Ignores : Ignores IsLedger
IsLedger-Ignores d rows h = record { rows = h.rows; balanced = h.balanced; solvent = h.solvent }

pub save_order-Keeps :
    (P : Db → Type 0) (user number : Str) (status : OrderStatus) (now : ℕ) (d : Db)
    → Ignores P
    → P d
    → BodyPost (λ (_ : Unit {0}). P) P d (save_order user number status now d)
unfolding save_order
save_order-Keeps P user number status now d i h = elim (Option-cases (find_order number d.orders)) [
  | inr (row, e) ↦ elim (Bool-cases (str_eq row.user_id user)) [
    | inl same ↦ rw (e, save_order, same) (i d _ h)
    | inr other ↦ rw (e, save_order, other) h
  ]
  | inl e ↦ elim (Option-cases (find (λ (u : UserRow). u.id) user d.users)) [
    | inl no_user ↦ rw (e, save_order, no_user) h
    | inr (u, known) ↦ rw (e, save_order, known) (i d _ h)
  ]
]

module _ (env : Env) (P : Db → Type 0) where
  pub get_by_number-Keeps :
      (number : Str) (lock : Bool) → Triple P (get_by_number env number lock) (λ _. P) P
  unfolding get_by_number
  get_by_number-Keeps number lock =
      Triple-bind (λ _. P) _ _
        (Triple-attempt (Triple-read P env (λ _ db. one_row (find_order number db.orders))))
        λ row.
          Triple-bind (λ _. P) _ _ (Triple-lift (found_row env row))
            λ o. Triple-lift (build_order o.user_id o.order_num o.status o.uploaded_at none)

  pub save-Keeps : Ignores P → (o : Order) → Triple P (save env o) (λ _. P) P
  unfolding save
  save-Keeps ignores o =
      Triple-statement env _ (λ _ p. p)
        λ now d p. save_order-Keeps P o.user_id o.number o.status now d ignores p

  pub list_by_user-Keeps : (user : Str) → Triple P (list_by_user env user) (λ _. P) P
  unfolding list_by_user
  list_by_user-Keeps user = Triple-read P env λ _ db.
      build_orders (order_accrual db)
        (newest (λ o. o.uploaded_at) (select (λ (o : OrderRow). str_eq o.user_id user) db.orders))

  pub list_by_statuses-Keeps :
      (statuses : List OrderStatus) → Triple P (list_by_statuses env statuses) (λ _. P) P
  unfolding list_by_statuses
  list_by_statuses-Keeps statuses = Triple-read P env λ _ db.
      build_orders (λ _. none)
        (oldest (λ o. o.uploaded_at) (select (has_status statuses) db.orders))
