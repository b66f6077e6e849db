-- ===== src/Tests/Uploads.antt =====
-- Orders: internal/repository/order.go and internal/api/handler/post_user_orders.go.
use mathlib.Core.List.{Perm}
use sufirmart.Base.{
  List, map, accrual_not_set, ◌≡◌, refl, ◌++◌, true, some, none, [], ◌∷◌, Str, str_eq, bytes,
  has_prefix, ok, err, if◌then◌else◌,
}
use sufirmart.Luhn.{order_num_validation}
use sufirmart.Domain.Order.{is_processed}
use sufirmart.Domain.UserId.{new_user_id}
use sufirmart.Store.{UserRow, OrderRow}
use sufirmart.Store.Table.{All, find, select}
use sufirmart.Store.Sort.{Falls}
use sufirmart.Orders.{find_order, list_by_user, order_accrual}
use sufirmart.Orders.Accruals.{IsLastAccrual}
use sufirmart.Orders.Listing.{all_listed, order_of, list_by_user_outcome}
use sufirmart.Api.Reply.{respond, http_error, empty_body}
use sufirmart.Api.Space.{trim_space}
use sufirmart.Api.Uploads.{upload_again, upload_first, new_row}
use sufirmart.Api.{post_orders, user_of}
use sufirmart.Tests.Sample.{calm, calm-IsUp, ann, bob, bob_row, order_row, number, world}

abbrev plain : Str
plain = bytes "text/plain; charset=utf-8"

abbrev padded : Str
padded = bytes " 79927398713 "

abbrev other : Str
other = bytes " 18 "

padded-trim_space : trim_space padded ≡ number
unfolding trim_space
padded-trim_space = refl

plain-accepted : has_prefix plain (bytes "text/plain") ≡ true
unfolding has_prefix
plain-accepted = refl

padded-passes : order_num_validation (trim_space padded) ≡ true
unfolding order_num_validation trim_space
padded-passes = refl

other-passes : order_num_validation (trim_space other) ≡ true
unfolding order_num_validation trim_space
other-passes = refl

bob-known : user_of (some bob) ≡ some bob
unfolding user_of
bob-known = refl

padded-found : find_order (trim_space padded) world.orders ≡ some order_row
unfolding find str_eq trim_space
padded-found = refl

other-missing : find_order (trim_space other) world.orders ≡ none
unfolding find str_eq trim_space
other-missing = refl

ann-owned : new_user_id ann ≡ ok ann
unfolding new_user_id
ann-owned = refl

bob-registered : find (λ (v : UserRow). v.id) bob world.users ≡ some bob_row
unfolding find str_eq
bob-registered = refl

upload_again_example :
    ((post_orders calm plain (some padded) (some bob) 7 world).0
      ≡ ok (
        (if is_processed order_row.status
            then http_error 500
            else if str_eq ann bob
            then respond 200 empty_body
            else http_error 409),
        none,
      ))
    × ((post_orders calm plain (some padded) (some bob) 7 world).1.db ≡ world.db)
upload_again_example =
    upload_again calm calm-IsUp plain padded (some bob) bob 7 world plain-accepted padded-passes
      bob-known order_row padded-found ann-owned

upload_first_example :
    ((post_orders calm plain (some other) (some bob) 7 world).0
      ≡ ok (respond 202 empty_body, some (trim_space other)))
    × ((post_orders calm plain (some other) (some bob) 7 world).1.db ≡ record world.db {
      orders =
          world.orders
          ++ new_row calm calm-IsUp plain other
              (some bob)
              bob
              7
              world
              plain-accepted
              other-passes
              bob-known
            ∷ [];
    })
upload_first_example =
    upload_first calm calm-IsUp plain other (some bob) bob 7 world plain-accepted other-passes
      bob-known bob_row other-missing bob-registered

list_by_user_outcome_example :
    (rows : List OrderRow) × ((list_by_user calm ann world).0 ≡ (
      if all_listed (order_accrual world.db) rows
      then ok (map (order_of (order_accrual world.db)) rows)
      else err accrual_not_set))
    × Perm rows (select (λ (o : OrderRow). str_eq o.user_id ann) world.orders)
    × Falls (map (λ (o : OrderRow). o.uploaded_at) rows)
    × All (λ o. IsLastAccrual world.transactions o (order_accrual world.db o)) rows
list_by_user_outcome_example = list_by_user_outcome calm ann world calm-IsUp ann-owned
