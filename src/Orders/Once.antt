-- ===== src/Orders/Once.antt =====
-- What internal/repository/order.go has to do with the credits of an order: an order that may still be
-- taken was not credited.
pub mod Saved
pub mod Tells
pub mod Credited
use sufirmart.Base.{
  inl, inr, ◌⊎◌, Bool-cases, Option-cases, Result-cases, ◌≡◌, refl, sym, ◌∙◌, ap, ℕ, suc, ◌≤◌, Bool,
  true, false, ◌||◌, Option, none, some, List, [], ◌∷◌, ◌++◌, Str, str_eq, str_eq_iff, str_eq_refl,
  Result, ok, err, order_not_found, attempt, if◌then◌else◌, arith,
}
use mathlib.Core.Option
use sufirmart.Domain.Order.{Order, OrderStatus, is_new, is_processing, is_processed}
use sufirmart.Store.{Db, UserRow, OrderRow, TransactionRow}
use mathlib.Core.Path.{subst}
use sufirmart.Orders.Keeps.{get_by_number-Keeps}
use sufirmart.Store.Triple.{Post, Triple-attempt}
use sufirmart.Store.Table.{find, update, find-update, find-snoc, key-find}
use sufirmart.Store.Statement.{Env, World, statement}
use sufirmart.Store.Triple.{Triple, BodyPost, Triple-statement}
use sufirmart.Domain.UserId.{new_user_id}
use sufirmart.Account.Credits.{credits}
use sufirmart.Orders.{build_order, build_for, find_order, save, save_order, get_by_number}

abbrev pub is_pending : OrderStatus → Bool
is_pending status = is_new status || is_processing status

-- An order that processing may begin with, or that is not there yet.
abbrev pub may_begin : Option OrderRow → Bool
may_begin none = true
may_begin (some o) = is_pending o.status

-- Each order is credited at most once, and not before it is settled.
pub record IsOnce (d : Db) : Type 0 where
  pub bound :
      (number : Str)
      → credits number d.transactions ≤ (if may_begin (find_order number d.orders) then 0 else 1)

abbrev pub Uncredited : Str → Db → Type 0
Uncredited number d = credits number d.transactions ≡ 0

pub Uncredited-pending :
    (number : Str) (d : Db)
    → IsOnce d
    → may_begin (find_order number d.orders) ≡ true
    → Uncredited number d
Uncredited-pending number d h e = let b = rw e at (h.bound number) in omega (arith, b)

pub credits-le_one : (number : Str) (d : Db) → IsOnce d → credits number d.transactions ≤ 1
credits-le_one number d h = elim (Bool-cases (may_begin (find_order number d.orders))) [
  | inl pending ↦ let b = rw pending at (h.bound number) in omega (arith, b)
  | inr settled ↦ let b = rw settled at (h.bound number) in b
]
