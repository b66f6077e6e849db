-- ===== src/Orders/Once/Tells.antt =====
-- What GetByNumber of internal/repository/order.go tells of an order that may be taken.
use sufirmart.Base.{
  inl, inr, Bool-cases, Option-cases, Result-cases, ◌≡◌, ap, Bool, none, some, Str, Result, ok, err,
  order_not_found, attempt, arith,
}
use sufirmart.Domain.Order.{Order, is_processed}
use sufirmart.Store.{Db, OrderRow}
use sufirmart.Orders.Keeps.{get_by_number-Keeps}
use sufirmart.Store.Triple.{Post, Triple-attempt}
use sufirmart.Store.Table.{key-find}
use sufirmart.Store.Statement.{Env, World, statement}
use sufirmart.Store.Triple.{Triple}
use sufirmart.Domain.UserId.{new_user_id}
use sufirmart.Orders.{build_order, build_for, find_order, get_by_number}
use sufirmart.Orders.Once.{may_begin, is_pending}

-- What the answer of GetByNumber tells of the orders.
abbrev pub Tells : Str → Db → Result Order → Type 0
Tells number d (ok o) =
    (o.number ≡ number) × (may_begin (find_order number d.orders) ≡ is_pending o.status)
Tells number d (err e) = e ≡ order_not_found → find_order number d.orders ≡ none

built-Tells :
    (row : OrderRow) (number : Str) (d : Db)
    → find_order number d.orders ≡ some row
    → Tells number d (build_order row.user_id row.order_num row.status row.uploaded_at none)
unfolding build_order new_user_id build_for
built-Tells row number d e = elim (Result-cases (new_user_id row.user_id)) [
  | inl (uid, valid) ↦ elim (Bool-cases (is_processed row.status)) [
    | inl settled ↦ rw (build_order, valid, build_for, settled) (λ x. cc)
    | inr going ↦
        rw (build_order, valid, build_for, going)
          (key-find (λ (o : OrderRow). o.order_num) number d.orders row e, ap may_begin e)
  ]
  | inr (x, invalid) ↦ rw (build_order, invalid) (λ y. ground arith)
]

module _ (env : Env) (P : Db → Type 0) (number : Str) (lock : Bool) where
  get_by_number-Tells :
      (w : World)
      → Tells number (get_by_number env number lock w).1.db (get_by_number env number lock w).0
  unfolding get_by_number statement
  get_by_number-Tells w = elim (Bool-cases (env.fails w.calls)) [
    | inl fault ↦ rw (get_by_number, fault) (λ x. cc)
    | inr fine ↦ elim (Option-cases (find_order number w.orders)) [
      | inl e ↦ rw (get_by_number, fine, e) (λ x. e)
      | inr (row, e) ↦ rw (get_by_number, fine, e) (built-Tells row number w.db e)
    ]
  ]

  pub get_by_number-told :
      Triple P (attempt (get_by_number env number lock)) (λ r d. P d × Tells number d r) (λ _. ⊥)
  get_by_number-told = record {
    at = λ w h. (
      (Triple-attempt {E = λ _. ⊥} (get_by_number-Keeps env P number lock)).at w h,
      get_by_number-Tells w,
    );
  }

  pub get_by_number-pending :
      Triple P
        (get_by_number env number lock)
        (λ o d. P d × (may_begin (find_order o.number d.orders) ≡ is_pending o.status))
        P
  get_by_number-pending = record {
    at = λ w h.
        either (get_by_number env number lock w).0 (get_by_number env number lock w).1.db
          (get_by_number-told.at w h);
  }
    where
      either :
          (r : Result Order) (d : Db)
          → P d × Tells number d r
          → Post
              (λ o e. P e × (may_begin (find_order o.number e.orders) ≡ is_pending o.status))
              P
              r
              d
      either (ok o) d h = (h.0, rw h.1.0 h.1.1)
      either (err e) d h = h.0
