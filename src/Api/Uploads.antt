-- ===== src/Api/Uploads.antt =====
-- What uploading an order number is answered with: internal/api/handler/post_user_orders.go.
use sufirmart.Base.{
  inl, inr, ◌≡◌, refl, ℕ, suc, true, false, Bool-cases, Option, none, some, [], ◌∷◌, ◌++◌, Str,
  str_eq, bytes, has_prefix, ok, if◌then◌else◌,
}
use sufirmart.Luhn.{order_num_validation, new_order_number}
use sufirmart.Domain.Order.{Order, OrderStatus, is_processed}
use sufirmart.Domain.UserId.{new_user_id}
use sufirmart.Store.{UserRow, OrderRow}
use sufirmart.Store.Table.{find}
use sufirmart.Store.Statement.{Env, World, IsUp, statement_up}
use sufirmart.Orders.{find_order, save, save_order}
use sufirmart.Orders.Lookup.{
  plain_order, get_by_number-processed, get_by_number-open, get_by_number-missing,
}
use sufirmart.Api.Space.{trim_space}
use sufirmart.Api.Reply.{respond, http_error, empty_body}
use sufirmart.Api.{is_empty, user_of, post_orders, save_new, existing_reply}

valid_nonempty : (s : Str) → order_num_validation s ≡ true → is_empty s ≡ false
unfolding order_num_validation
valid_nonempty [] h = cc
valid_nonempty (c ∷ s) h = refl

new_order_number-valid : (s : Str) → order_num_validation s ≡ true → new_order_number s ≡ ok s
unfolding new_order_number
new_order_number-valid s h = rw h refl

existing_reply-found :
    (env : Env) (id : Str) (o : Order)
    → existing_reply env id (ok o)
      ≡ some (if str_eq o.user_id id then respond 200 empty_body else http_error 409)
unfolding existing_reply
existing_reply-found env id o = elim (Bool-cases (str_eq o.user_id id)) [
  | inl same ↦ rw same refl
  | inr other ↦ rw other refl
]

module _ (env : Env) (up : IsUp env) (content_type raw : Str) (user : Option Str) (id : Str)
    (now : ℕ) (w : World) (plain : has_prefix content_type (bytes "text/plain") ≡ true)
    (valid : order_num_validation (trim_space raw) ≡ true) (known : user_of user ≡ some id) where
  accepted :
      post_orders env content_type (some raw) user now w ≡ save_new env id (trim_space raw) now w
  unfolding post_orders
  accepted =
      rw
        (
          plain,
          post_orders,
          valid_nonempty (trim_space raw) valid,
          valid,
          known,
          new_order_number-valid (trim_space raw) valid,
        )
        refl

  module _ (o : OrderRow) (found : find_order (trim_space raw) w.orders ≡ some o)
      (owned : new_user_id o.user_id ≡ ok o.user_id) where
    again_open :
        is_processed o.status ≡ false
        → save_new env id (trim_space raw) now w ≡ (
          ok ((if str_eq o.user_id id then respond 200 empty_body else http_error 409), none),
          record w { calls = suc w.calls },
        )
    unfolding save_new
    again_open unsettled =
        rw
          (
            get_by_number-open env up (trim_space raw) false w o found owned unsettled,
            existing_reply-found env id (plain_order o.user_id o),
          )
          refl

    again_processed :
        is_processed o.status ≡ true
        → save_new env id (trim_space raw) now w
          ≡ (ok (http_error 500, none), record w { calls = suc w.calls })
    unfolding save_new
    again_processed settled =
        rw (get_by_number-processed env up (trim_space raw) false w o found owned settled) refl

    -- A known order, uploaded again by any user with a database that does not fail: nothing is
    -- written and nothing is handed to the processor. While the order is not processed, its own user
    -- is answered with 200 and every other with 409. Once it is processed, everybody is answered with
    -- 500.
    pub upload_again :
        ((post_orders env content_type (some raw) user now w).0
          ≡ ok (
            (if is_processed o.status
                then http_error 500
                else if str_eq o.user_id id
                then respond 200 empty_body
                else http_error 409),
            none,
          ))
        × ((post_orders env content_type (some raw) user now w).1.db ≡ w.db)
    upload_again = elim (Bool-cases (is_processed o.status)) [
      | inl settled ↦ rw (accepted, again_processed settled, settled) (refl, refl)
      | inr unsettled ↦ rw (accepted, again_open unsettled, unsettled) (refl, refl)
    ]

  -- The row of a new order.
  abbrev pub new_row : OrderRow
  new_row = record {
    user_id = id;
    order_num = trim_space raw;
    status = OrderStatus.new;
    uploaded_at = env.now (suc w.calls);
  }

  -- The first upload of a number by a registered user, with a database that does not fail: the order
  -- is stored for that user as new, with the time of the statement, the answer is 202, and the
  -- trimmed number is handed to the processor.
  pub upload_first :
      (u : UserRow)
      → find_order (trim_space raw) w.orders ≡ none
      → find (λ (v : UserRow). v.id) id w.users ≡ some u
      → ((post_orders env content_type (some raw) user now w).0
          ≡ ok (respond 202 empty_body, some (trim_space raw)))
        × ((post_orders env content_type (some raw) user now w).1.db
            ≡ record w.db { orders = w.orders ++ new_row ∷ [] })
  unfolding save_new save save_order
  upload_first u missing registered =
      rw
        (
          accepted,
          save_new,
          get_by_number-missing env up (trim_space raw) false w missing,
          statement_up env up,
          missing,
          save_order,
          registered,
        )
        (refl, refl)
