-- ===== src/Orders.antt =====
-- internal/repository/order.go and internal/repository/order_builder.go.
pub mod Lookup
pub mod Keeps
pub mod Accruals
pub mod Listing
pub mod Once
pub mod Progress
use sufirmart.Base.{
  ℕ, Bool, false, ◌&&◌, ◌||◌, Option, none, some, List, [], ◌∷◌, ◌++◌, Str, str_eq, Result, ok, err,
  no_rows, sql_error, order_not_found, accrual_not_set, Exec, lift, attempt, ◌>>=◌, pos, ltb_ℤ,
  leb_ℤ, if◌then◌else◌,
}
use sufirmart.Domain.Amount.{Float64, of_numeric}
use sufirmart.Domain.Order.{Order, OrderStatus, is_processed, int16}
use sufirmart.Domain.UserId.{new_user_id}
use sufirmart.Store.{Db, UserRow, OrderRow, TransactionRow}
use sufirmart.Store.Table.{find, update, select}
use sufirmart.Store.Sort.{newest, oldest}
use sufirmart.Store.Statement.{Env, World, statement}
use sufirmart.Account.Rows.{one_row, read, settled_of}

-- buildOrder, behind NewUserID.
build_for : Str → OrderStatus → ℕ → Option Float64 → Str → Result Order
build_for number status uploaded_at none uid =
    if is_processed status
    then err accrual_not_set
    else ok (record {
      user_id = uid;
      number = number;
      status = status;
      uploaded_at = uploaded_at;
      accrual = none;
    })
build_for number status uploaded_at (some a) uid = ok (record {
  user_id = uid;
  number = number;
  status = status;
  uploaded_at = uploaded_at;
  accrual = some a;
})

-- buildOrder
unfoldable pub build_order : Str → Str → OrderStatus → ℕ → Option Float64 → Result Order
unfolding build_for
build_order user number status uploaded_at accrual = elim (new_user_id user) [
  | err e ↦ err e
  | ok uid ↦ build_for number status uploaded_at accrual uid
]

abbrev pub find_order : Str → List OrderRow → Option OrderRow
find_order = find (λ o. o.order_num)

-- INSERT INTO "order" … ON CONFLICT (user_id, order_num) DO UPDATE SET status = EXCLUDED.status. A
-- row with the number and another user violates order_num_unique.
unfoldable pub save_order : Str → Str → OrderStatus → ℕ → Db → Result (Unit {0} × Db)
save_order user number status now db = elim (find_order number db.orders) [
  | some row ↦
      if str_eq row.user_id user
      then ok (
        tt,
        record db {
          orders =
              update (λ (o : OrderRow). o.order_num) number (λ o. record o { status = status })
                db.orders;
        },
      )
      else err sql_error
  | none ↦ elim (find (λ (u : UserRow). u.id) user db.users) [
    | none ↦ err sql_error
    | some _ ↦ ok (
      tt,
      record db {
        orders =
            db.orders
            ++ record { user_id = user; order_num = number; status = status; uploaded_at = now }
              ∷ [];
      },
    )
  ]
]

-- The subquery of ListByUser: the accrual of the newest processed transaction of the order that has
-- a positive one.
abbrev pub accrual_row : OrderRow → TransactionRow → Bool
accrual_row o t =
    settled_of o.user_id t && (str_eq t.order_num o.order_num && ltb_ℤ (pos 0) t.accrual)

unfoldable pub first_accrual : List TransactionRow → Option Float64
first_accrual [] = none
first_accrual (t ∷ ts) = some (of_numeric t.accrual)

unfoldable pub order_accrual : Db → OrderRow → Option Float64
unfolding first_accrual
order_accrual db o =
    first_accrual (newest (λ t. t.processed_at) (select (accrual_row o) db.transactions))

-- The loop over the rows: the first row that gives no order ends it.
unfoldable pub build_orders : (OrderRow → Option Float64) → List OrderRow → Result (List Order)
build_orders accrual [] = ok []
build_orders accrual (o ∷ rows) =
    elim (build_order o.user_id o.order_num o.status o.uploaded_at (accrual o)) [
      | err e ↦ err e
      | ok order ↦ elim (build_orders accrual rows) [
        | err e ↦ err e
        | ok orders ↦ ok (order ∷ orders)
      ]
    ]

-- status IN (…), on the codes of the column.
unfoldable pub has_status : List OrderStatus → OrderRow → Bool
has_status [] o = false
has_status (s ∷ ss) o =
    (leb_ℤ (int16 o.status) (int16 s) && leb_ℤ (int16 s) (int16 o.status)) || has_status ss o

module _ (env : Env) where
  -- `Scan` without a row is ErrOrderNotFound.
  abbrev pub found_row : Result OrderRow → Result OrderRow
  found_row (ok row) = ok row
  found_row (err no_rows) = err order_not_found
  found_row (err e) = err e

  -- GetByNumber. With `lock` the query is FOR UPDATE; it runs outside a transaction, so the lock ends
  -- with the query.
  unfoldable pub get_by_number : Str → Bool → Exec World Order
  get_by_number number lock = do
    row ← attempt (statement env λ _ db. read (one_row (find_order number db.orders)) db)
    o ← lift (found_row row)
    lift (build_order o.user_id o.order_num o.status o.uploaded_at none)

  -- Save
  unfoldable pub save : Order → Exec World (Unit {0})
  save o = statement env (save_order o.user_id o.number o.status)

  -- ListByUser
  unfoldable pub list_by_user : Str → Exec World (List Order)
  list_by_user user = statement env λ _ db.
      read
        (build_orders (order_accrual db) (
          newest (λ o. o.uploaded_at) (select (λ (o : OrderRow). str_eq o.user_id user) db.orders)))
        db

  -- ListByStatuses
  unfoldable pub list_by_statuses : List OrderStatus → Exec World (List Order)
  list_by_statuses statuses = statement env λ _ db.
      read
        (build_orders (λ _. none)
          (oldest (λ o. o.uploaded_at) (select (has_status statuses) db.orders)))
        db
