-- ===== src/Orders/Listing.antt =====
-- ListByUser of internal/repository/order.go.
use mathlib.Core.List.{Perm}
use sufirmart.Base.{
  inl, inr, ◌≡◌, refl, ◌∙◌, suc, Bool, true, false, not, ◌&&◌, ◌||◌, Bool-cases, Option, none, some,
  List, [], ◌∷◌, map, Str, str_eq, str_eq_iff, Result, ok, err, accrual_not_set, if◌then◌else◌,
}
use sufirmart.Domain.Amount.{Float64}
use sufirmart.Domain.Order.{Order, is_processed}
use sufirmart.Domain.UserId.{new_user_id}
use sufirmart.Store.{OrderRow}
use sufirmart.Store.Table.{All, select, All-select}
use sufirmart.Store.Sort.{newest, sort-perm, newest-Falls, Falls, All-sort}
use sufirmart.Store.Statement.{Env, World, IsUp, statement_up, finish}
use sufirmart.Account.Rows.{read}
use sufirmart.Orders.Accruals.{IsLastAccrual, last_accruals}
use sufirmart.Orders.{list_by_user, build_orders, build_order, build_for, order_accrual}

abbrev pub has_value : Option Float64 → Bool
has_value none = false
has_value (some v) = true

-- An order that is processed and has no positive accrual in the ledger is not listed.
abbrev pub listed : (OrderRow → Option Float64) → OrderRow → Bool
listed accrual o = not (is_processed o.status) || has_value (accrual o)

abbrev pub all_listed : (OrderRow → Option Float64) → List OrderRow → Bool
all_listed accrual [] = true
all_listed accrual (o ∷ rows) = listed accrual o && all_listed accrual rows

abbrev pub order_of : (OrderRow → Option Float64) → OrderRow → Order
order_of accrual o = record {
  user_id = o.user_id;
  number = o.order_num;
  status = o.status;
  uploaded_at = o.uploaded_at;
  accrual = accrual o;
}

build_for-listed :
    (o : OrderRow) (a : Option Float64)
    → build_for o.order_num o.status o.uploaded_at a o.user_id ≡ (
        if not (is_processed o.status) || has_value a
        then ok (record {
          user_id = o.user_id;
          number = o.order_num;
          status = o.status;
          uploaded_at = o.uploaded_at;
          accrual = a;
        })
        else err accrual_not_set)
unfolding build_for
build_for-listed o none = elim (Bool-cases (is_processed o.status)) [
  | inl settled ↦ rw (settled, build_for) refl
  | inr open_yet ↦ rw (open_yet, build_for) refl
]
build_for-listed o (some v) = elim (Bool-cases (is_processed o.status)) [
  | inl settled ↦ rw settled refl
  | inr open_yet ↦ rw open_yet refl
]

module _ (accrual : OrderRow → Option Float64) where
  build_one :
      (o : OrderRow)
      → new_user_id o.user_id ≡ ok o.user_id
      → build_order o.user_id o.order_num o.status o.uploaded_at (accrual o)
        ≡ (if listed accrual o then ok (order_of accrual o) else err accrual_not_set)
  unfolding build_order
  build_one o valid = rw (valid, build_order) (build_for-listed o (accrual o))

  pub build_orders-listed :
      (rows : List OrderRow)
      → All (λ o. new_user_id o.user_id ≡ ok o.user_id) rows
      → build_orders accrual rows ≡ (
          if all_listed accrual rows then ok (map (order_of accrual) rows) else err accrual_not_set)
  unfolding build_orders
  build_orders-listed [] h = refl
  build_orders-listed (o ∷ rows) h = elim (Bool-cases (listed accrual o)) [
    | inr first ↦ rw (build_orders, build_one o h.0, first) refl
    | inl fine ↦ elim (Bool-cases (all_listed accrual rows)) [
      | inl rest ↦ rw (build_orders, build_one o h.0, fine, build_orders-listed rows h.1, rest) refl
      | inr later ↦
          rw (build_orders, build_one o h.0, fine, build_orders-listed rows h.1, later) refl
    ]
  ]

  owners_valid :
      (user : Str) (rows : List OrderRow)
      → new_user_id user ≡ ok user
      → All (λ o. str_eq o.user_id user ≡ true) rows
      → All (λ o. new_user_id o.user_id ≡ ok o.user_id) rows
  owners_valid user [] valid h = tt
  owners_valid user (o ∷ rows) valid h =
      let same = (str_eq_iff o.user_id user).0 h.0 in
      (rw same valid, owners_valid user rows valid h.1)

read-ok : {A : Type 0} (r : Result A) (w : World) → (finish (read r w.db) w).0 ≡ r
read-ok (ok a) w = refl
read-ok (err e) w = refl

-- What ListByUser answers of a user with a valid id, with a database that does not fail: every order
-- of the user once, the latest first, each with the accrual of the latest processed transaction of the
-- user and the order that accrues more than nothing, where there is one.
-- But if one of them is processed and has no positive accrual, the answer for all of them is the
-- error ErrAccrualNotSet.
pub list_by_user_outcome :
    (env : Env) (user : Str) (w : World)
    → IsUp env
    → new_user_id user ≡ ok user
    → (rows : List OrderRow) × ((list_by_user env user w).0 ≡ (
        if all_listed (order_accrual w.db) rows
        then ok (map (order_of (order_accrual w.db)) rows)
        else err accrual_not_set))
      × Perm rows (select (λ (o : OrderRow). str_eq o.user_id user) w.orders)
      × Falls (map (λ (o : OrderRow). o.uploaded_at) rows)
      × All (λ o. IsLastAccrual w.transactions o (order_accrual w.db o)) rows
unfolding list_by_user
list_by_user_outcome env user w up valid =
    let own = select (λ (o : OrderRow). str_eq o.user_id user) w.orders in
    let rows = newest (λ (o : OrderRow). o.uploaded_at) own in
    let owned =
      All-sort _ (λ (o : OrderRow). str_eq o.user_id user ≡ true) own
        (All-select (λ (o : OrderRow). str_eq o.user_id user) w.orders) in
    (
      rows,
      rw (statement_up env up) (
          read-ok (build_orders (order_accrual w.db) rows) (record w { calls = suc w.calls })
          ∙ build_orders-listed (order_accrual w.db) rows
              (owners_valid (order_accrual w.db) user rows valid owned)),
      sort-perm _ own,
      newest-Falls (λ (o : OrderRow). o.uploaded_at) own,
      last_accruals w.db rows,
    )
