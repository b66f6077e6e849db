-- ===== src/Api/Keeps.antt =====
-- What the handlers of internal/api/handler keep, the ledger among it; each ends with a response.
use sufirmart.Base.{
  inl, inr, Bool-cases, order_not_found, str_eq, ◌≡◌, refl, arith, ℕ, false, not, Option, none,
  some, Str, bytes, has_prefix, Result, ok, err, Exec, pure, attempt, ◌>>=◌, pos, ◌-ℤ◌, ◌≤ℤ◌,
  int_laws,
}
use sufirmart.Domain.Amount.{Float64}
use sufirmart.Luhn.{order_num_validation, new_order_number}
use sufirmart.Store.Statement.{Env, World}
use sufirmart.Store.Triple.{
  Triple-both, Triple-weaken, Triple, Post, Triple-bind, Triple-attempt, Triple-attempt-Post,
  Triple-pure, Triple-if, Triple-option, Triple-result, Triple-after, Triple-also,
}
use sufirmart.Account.Ledger.{IsLedger, NotProcessed}
use sufirmart.Account.Approve.{approve_transaction-IsLedger}
use sufirmart.Account.Calls.{register_transaction-Keeps}
use sufirmart.Account.Reads.{get_balance-Keeps, list_withdrawals-Keeps}
use sufirmart.Account.{approve_transaction, register_transaction}
use sufirmart.Store.{Db}
use sufirmart.Domain.Order.{Order, OrderStatus}
use sufirmart.Orders.{get_by_number, save}
use sufirmart.Orders.Keeps.{IsLedger-Ignores}
use sufirmart.Api.Reply.{respond, http_error, empty_body}
use sufirmart.Orders.Keeps.{get_by_number-Keeps, save-Keeps, list_by_user-Keeps}
use sufirmart.Processor.Start.{register_transaction-NotProcessed}
use sufirmart.Api.Space.{trim_space}
use sufirmart.Api.Reply.{Response}
use sufirmart.Api.{
  WithdrawRequest, user_of, is_empty, withdraw_reply, withdraw_refusal, approve_registered,
  withdraw_unless, withdraw_as, post_withdraw, existing_reply, store_new, saved_reply, save_new,
  post_orders, get_user_balance, balance_reply, get_user_orders, orders_reply, get_user_withdrawals,
  withdrawals_reply,
}

-- A handler that is run where `P` holds keeps it, and returns no error.
abbrev pub Answers : (Db → Type 0) → {A : Type 0} → Exec World A → Type 0
Answers P m = Triple P m (λ _. P) (λ _. ⊥)

-- A call whose result is answered whatever it is.
pub Answers-attempt :
    {A B : Type 0} (P : Db → Type 0) (m : Exec World A) (f : Result A → Exec World B)
    → Triple P m (λ _. P) P
    → ((r : Result A) → Answers P (f r))
    → Answers P (attempt m >>= f)
Answers-attempt P m f h k = Triple-bind (λ _. P) _ _ (Triple-attempt h) k

pub Answers-pure : {A : Type 0} (P : Db → Type 0) (a : A) → Answers P (pure a)
Answers-pure P a = Triple-pure a (λ d p. p)

refusal-positive : (req : WithdrawRequest) → withdraw_refusal req ≡ none → pos 0 -ℤ req.sum ≤ℤ pos 0
unfolding withdraw_refusal
refusal-positive req e =
    let positive : pos 0 ≤ℤ req.sum = ground arith in omega (int_laws, positive)

-- What the handlers call of the repositories keeps `P`: `Ready` is known of a transaction that was
-- just registered, and `Free` of a number for which no order was found.
pub record IsHandled (env : Env) (P : Db → Type 0) (Ready Free : Str → Db → Type 0) : Type 0 where
  pub registers :
      (user order_num : Str) (sum : Float64) (comment : Str)
      → sum ≤ℤ pos 0
      → Triple P (register_transaction env user order_num sum comment) Ready P
  pub approves : (id : Str) → Triple (Ready id) (approve_transaction env id (pos 0)) (λ _. P) P
  pub looks_up :
      (number : Str)
      → Triple P
          (attempt (get_by_number env number false))
          (λ r d. P d × (r ≡ err order_not_found → Free number d))
          (λ _. ⊥)
  pub saves :
      (o : Order)
      → o.status ≡ OrderStatus.new
      → Triple (λ d. P d × Free o.number d) (save env o) (λ _. P) P

pub IsHandled-both :
    {env : Env} {P P' : Db → Type 0} {Ready Ready' Free Free' : Str → Db → Type 0}
    → IsHandled env P Ready Free
    → IsHandled env P' Ready' Free'
    → IsHandled env
        (λ d. P d × P' d)
        (λ id d. Ready id d × Ready' id d)
        (λ number d. Free number d × Free' number d)
IsHandled-both h k = record {
  registers = λ user order_num sum comment low.
      Triple-both _ (h.registers user order_num sum comment low)
        (k.registers user order_num sum comment low);
  approves = λ id. Triple-both _ (h.approves id) (k.approves id);
  looks_up = λ number.
      Triple-weaken _ (λ d p. p)
        (λ r d q. ((q.0.0, q.1.0), λ missing. (q.0.1 missing, q.1.1 missing))) (λ d q. q.0)
        (Triple-both _ (h.looks_up number) (k.looks_up number));
  saves = λ o e.
      Triple-weaken _ (λ d p. ((p.0.0, p.1.0), (p.0.1, p.1.1))) (λ a d q. q) (λ d q. q)
        (Triple-both _ (h.saves o e) (k.saves o e));
}

existing_reply-none :
    (env : Env) (user : Str) (r : Result Order)
    → existing_reply env user r ≡ none
    → r ≡ err order_not_found
unfolding existing_reply
existing_reply-none env user (ok o) e = elim (Bool-cases (str_eq o.user_id user)) [
  | inl own ↦ let no : some (respond 200 empty_body) ≡ none = rw own at e in cc
  | inr other ↦ let no : some (http_error 409) ≡ none = rw other at e in cc
]
existing_reply-none env user (err x) e = ground arith

module _ (env : Env) {P : Db → Type 0} {Ready Free : Str → Db → Type 0}
    (h : IsHandled env P Ready Free) where
  approve_registered-Answers :
      (r : Result Str) → Triple (Post Ready P r) (approve_registered env r) (λ _. P) (λ _. ⊥)
  unfolding approve_registered
  approve_registered-Answers (err e) = Triple-pure _ (λ d p. p)
  approve_registered-Answers (ok id) =
      Triple-bind (λ _. P) _ _ (Triple-attempt (h.approves id))
        λ approved. Triple-pure (withdraw_reply approved) (λ d p. p)

  withdraw_unless-Answers :
      (user : Str) (req : WithdrawRequest) (refused : Option Response)
      → withdraw_refusal req ≡ refused
      → Answers P (withdraw_unless env user req refused)
  unfolding withdraw_unless
  withdraw_unless-Answers user req (some reply) e = Answers-pure P reply
  withdraw_unless-Answers user req none e =
      Triple-bind (Post Ready P) _ _
        (Triple-attempt-Post _ (h.registers _ _ _ _ (refusal-positive req e)))
        approve_registered-Answers

  withdraw_as-Answers :
      (user : Option Str) (decoded : Option WithdrawRequest)
      → Answers P (withdraw_as env user decoded)
  unfolding withdraw_as
  withdraw_as-Answers none decoded = Answers-pure P _
  withdraw_as-Answers (some user) none = Answers-pure P _
  withdraw_as-Answers (some user) (some req) = withdraw_unless-Answers user req _ refl

  pub post_withdraw-Answers :
      (user : Option Str) (decoded : Option WithdrawRequest)
      → Answers P (post_withdraw env user decoded)
  unfolding post_withdraw
  post_withdraw-Answers user decoded = withdraw_as-Answers (user_of user) decoded

  store_new-Keeps :
      (user number : Str) (now : ℕ) (existing : Result Order) (reply : Option Response)
      → existing_reply env user existing ≡ reply
      → Triple
          (λ d. P d × (existing ≡ err order_not_found → Free number d))
          (store_new env user number now reply)
          (λ _. P)
          (λ _. ⊥)
  unfolding store_new
  store_new-Keeps user number now existing (some reply) e = Triple-pure _ (λ d p. p.0)
  store_new-Keeps user number now existing none e =
      Triple-bind (λ _. P) _ _
        (Triple-attempt (record {
          at = λ w p. (h.saves _ refl).at w (p.0, p.1 (existing_reply-none env user existing e));
        }))
        λ saved. Answers-pure P (saved_reply env number saved)

  save_new-Answers : (user number : Str) (now : ℕ) → Answers P (save_new env user number now)
  unfolding save_new
  save_new-Answers user number now =
      Triple-bind (λ r d. P d × (r ≡ err order_not_found → Free number d)) _ _ (h.looks_up number)
        λ existing. store_new-Keeps user number now existing _ refl

  pub post_orders-Answers :
      (content_type : Str) (body user : Option Str) (now : ℕ)
      → Answers P (post_orders env content_type body user now)
  unfolding post_orders
  post_orders-Answers content_type body user now =
      Triple-if (not (has_prefix content_type (bytes "text/plain"))) (Answers-pure P _) (
        Triple-option body (Answers-pure P _) λ raw.
          Triple-if (is_empty (trim_space raw)) (Answers-pure P _) (
            Triple-if (not (order_num_validation (trim_space raw))) (Answers-pure P _) (
              Triple-option (user_of user) (Answers-pure P _) λ id.
                Triple-result (new_order_number (trim_space raw)) (λ e. Answers-pure P _)
                  λ number. save_new-Answers id number now)))

-- The handlers that only read keep every condition.
module _ (env : Env) (P : Db → Type 0) where
  pub get_user_balance-Answers : (user : Option Str) → Answers P (get_user_balance env user)
  unfolding get_user_balance
  get_user_balance-Answers user = Triple-option (user_of user) (Answers-pure P _) λ id.
      Answers-attempt P _ _ (get_balance-Keeps P env id) λ b. Answers-pure P (balance_reply env b)

  pub get_user_orders-Answers : (user : Option Str) → Answers P (get_user_orders env user)
  unfolding get_user_orders
  get_user_orders-Answers user = Triple-option (user_of user) (Answers-pure P _) λ id.
      Answers-attempt P _ _ (list_by_user-Keeps env P id)
        λ list. Answers-pure P (orders_reply env list)

  pub get_user_withdrawals-Answers : (user : Option Str) → Answers P (get_user_withdrawals env user)
  unfolding get_user_withdrawals
  get_user_withdrawals-Answers user = Triple-option (user_of user) (Answers-pure P _) λ id.
      Answers-attempt P _ _ (list_withdrawals-Keeps P env id)
        λ items. Answers-pure P (withdrawals_reply env items)

-- The ledger is such a condition.
pub IsLedger-IsHandled :
    (env : Env) → IsHandled env IsLedger (λ id d. IsLedger d × NotProcessed id d) (λ _ _. Unit {0})
IsLedger-IsHandled env = record {
  registers = λ user order_num sum comment low.
      Triple-also _ (register_transaction-Keeps env user order_num sum comment low)
        (register_transaction-NotProcessed env user order_num sum comment);
  approves = λ id.
      Triple-after _ IsLedger (approve_transaction env id (pos 0))
        λ w p. approve_transaction-IsLedger env id (pos 0) w p.0 p.1;
  looks_up = λ number. record {
    at = λ w p. (
      (Triple-attempt {E = λ _. ⊥} (get_by_number-Keeps env IsLedger number false)).at w p,
      λ _. tt,
    );
  };
  saves = λ o e. record { at = λ w p. (save-Keeps env IsLedger IsLedger-Ignores o).at w p.0 };
}
