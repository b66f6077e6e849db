-- ===== src/Orders/Once/Credited.antt =====
-- What the writing methods of internal/repository/account.go do to the credits of the orders.
use sufirmart.Base.{
  inl, inr, Bool-cases, ◌≡◌, ◌∙◌, refl, sym, ℕ, ◌≤ℤ◌, false, some, none, List, [], ◌∷◌, ◌++◌, Str,
  str_eq, str_eq_iff, pos, arith,
}
use sufirmart.Domain.Amount.{Float64, Numeric}
use sufirmart.Store.{Db, TransactionRow}
use sufirmart.Store.Statement.{Env}
use sufirmart.Store.Triple.{Triple, Triple-statement}
use sufirmart.Account.Rows.{find_transaction, settle_row, cancel_row, accrue_row}
use sufirmart.Account.Credits.{
  credits, IsAside, credits-update, credits-update_where, credits-snoc, credits-accrue,
}
use sufirmart.Account.Register.{find-planned_row}
use sufirmart.Account.Writes.{changed, approve_transaction-Triple}
use sufirmart.Account.Additions.{register_transaction-Triple}
use sufirmart.Account.{
  register_transaction, approve_transaction, cancel_transaction,
  cancel_planned_transactions_by_order,
}
use sufirmart.Orders.{find_order}
use sufirmart.Orders.Once.{IsOnce, Uncredited, may_begin}

pub IsOnce-same :
    (d : Db) (ts : List TransactionRow)
    → ((number : Str) → credits number ts ≡ credits number d.transactions)
    → IsOnce d
    → IsOnce (record d { transactions = ts })
IsOnce-same d ts same h = record { bound = λ number. rw (same number) (h.bound number) }

settle-IsAside : (now : ℕ) → IsAside (settle_row now)
settle-IsAside now t = (refl, refl)

cancel-IsAside : (now : ℕ) (reason : Str) → IsAside (cancel_row now reason)
cancel-IsAside now reason t = (refl, refl)

-- The transaction, where it is there, is one of the order.
abbrev pub IsOf : Str → Str → List TransactionRow → Type 0
IsOf id number ts = (t : TransactionRow) → find_transaction id ts ≡ some t → t.order_num ≡ number

-- Before the approval: the order is not credited, and the transaction is its own.
abbrev pub Before : Str → Str → List TransactionRow → Type 0
Before id number ts = (credits number ts ≡ 0) × IsOf id number ts

-- The order is settled, and not credited yet.
abbrev pub Saved : Str → Str → Db → Type 0
Saved id number d =
    IsOnce d × Before id number d.transactions × (may_begin (find_order number d.orders) ≡ false)

accrued-IsOnce :
    (id number : Str) (now : ℕ) (a : Numeric) (d : Db)
    → Saved id number d
    → IsOnce (changed id (accrue_row now a) d)
accrued-IsOnce id number now a d h = record {
  bound = λ m.
      let more = credits-accrue m id number now a d.transactions h.1.1 in
      elim (Bool-cases (str_eq number m)) [
        | inr differs ↦ let b = h.0.bound m in omega (arith, b, rw differs at more)
        | inl equal ↦
            let named : number ≡ m = (str_eq_iff number m).0 equal in
            let none_yet : credits m d.transactions ≡ 0 = rw named at h.1.0 in
            let settled : may_begin (find_order m d.orders) ≡ false = rw named at h.2 in
            rw settled (omega (arith, none_yet, rw equal at more))
      ];
}

module _ (env : Env) where
  pub approve-Saved :
      (id number : Str) (accrual : Float64)
      → Triple (Saved id number) (approve_transaction env id accrual) (λ _. IsOnce) IsOnce
  approve-Saved id number accrual =
      approve_transaction-Triple (Saved id number)
        (λ d rows h. (record { bound = h.0.bound }, h.1, h.2)) IsOnce env id accrual (λ d h. h.0)
        (λ now d h.
          IsOnce-same d _
            (λ m. credits-update m id (settle_row now) d.transactions (settle-IsAside now)) h.0)
        (λ now reason d h.
          IsOnce-same d _
            (λ m.
              credits-update m id (cancel_row now reason) d.transactions
                (cancel-IsAside now reason))
            h.0)
        (λ positive now a d h. accrued-IsOnce id number now a d h)

  -- Without an accrual no order is credited.
  pub approve-IsOnce :
      (id : Str) → Triple IsOnce (approve_transaction env id (pos 0)) (λ _. IsOnce) IsOnce
  approve-IsOnce id =
      approve_transaction-Triple IsOnce (λ d rows h. record { bound = h.bound }) IsOnce env id
        (pos 0) (λ d h. h)
        (λ now d h.
          IsOnce-same d _
            (λ m. credits-update m id (settle_row now) d.transactions (settle-IsAside now)) h)
        (λ now reason d h.
          IsOnce-same d _
            (λ m.
              credits-update m id (cancel_row now reason) d.transactions
                (cancel-IsAside now reason))
            h)
        (λ positive now a d h. ground arith)

  pub cancel-IsOnce :
      (id reason : Str) → Triple IsOnce (cancel_transaction env id reason) (λ _. IsOnce) IsOnce
  unfolding cancel_transaction
  cancel-IsOnce id reason =
      Triple-statement env _ (λ _ p. p)
        λ now d h.
          IsOnce-same d _
            (λ m.
              credits-update m id (cancel_row now reason) d.transactions
                (cancel-IsAside now reason))
            h

  pub cancel_planned-Uncredited :
      (user order_num reason n : Str)
      → Triple
          (λ d. IsOnce d × Uncredited n d)
          (cancel_planned_transactions_by_order env user order_num reason)
          (λ _ d. IsOnce d × Uncredited n d)
          IsOnce
  unfolding cancel_planned_transactions_by_order
  cancel_planned-Uncredited user order_num reason n =
      Triple-statement env _ (λ _ p. p.0)
        λ now d h.
          let same = λ (m : Str).
            credits-update_where m _ (cancel_row now reason) d.transactions
              (cancel-IsAside now reason) in
          (IsOnce-same d _ same h.0, same n ∙ h.1)

  pub register-IsOnce :
      (user order_num : Str) (sum : Float64) (comment : Str)
      → sum ≤ℤ pos 0
      → Triple IsOnce (register_transaction env user order_num sum comment) (λ _. IsOnce) IsOnce
  register-IsOnce user order_num sum comment low =
      register_transaction-Triple IsOnce (λ _. IsOnce) user order_num
        (λ t d e named zero unsettled h.
          IsOnce-same d _ (λ m. credits-snoc m t d.transactions zero) h)
        env sum comment low

  pub register-Before :
      (user order_num : Str) (sum : Float64) (comment : Str)
      → sum ≤ℤ pos 0
      → Triple
          (λ d. IsOnce d × Uncredited order_num d)
          (register_transaction env user order_num sum comment)
          (λ id d. IsOnce d × Before id order_num d.transactions)
          (λ d. IsOnce d × Uncredited order_num d)
  register-Before user order_num sum comment low =
      register_transaction-Triple (λ d. IsOnce d × Uncredited order_num d)
        (λ id d. IsOnce d × Before id order_num d.transactions) user order_num
        (λ t d e named zero unsettled h. (
          IsOnce-same d _ (λ m. credits-snoc m t d.transactions zero) h.0,
          (credits-snoc order_num t d.transactions zero ∙ h.1, own t d e named),
        ))
        env sum comment low
    where
      own :
          (t : TransactionRow) (d : Db)
          → find_transaction t.id d.transactions ≡ none
          → t.order_num ≡ order_num
          → IsOf t.id order_num (d.transactions ++ t ∷ [])
      own t d e named s f =
          let same : some t ≡ some s = sym (find-planned_row t d.transactions e) ∙ f in
          ground (arith, same, named)
