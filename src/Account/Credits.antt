-- ===== src/Account/Credits.antt =====
-- How often an order is credited in the ledger of internal/repository/account.go.
use sufirmart.Base.{
  inl, inr, true, false, Bool-cases, ◌≡◌, refl, ℕ, suc, ◌≤◌, Bool, ◌&&◌, some, List, [], ◌∷◌, ◌++◌,
  Str, str_eq, pos, ltb_ℤ, if◌then◌else◌, arith,
}
use sufirmart.Domain.Amount.{Numeric}
use sufirmart.Store.{TransactionRow}
use sufirmart.Store.Table.{find, update, update_where}
use sufirmart.Account.Rows.{find_transaction, update_transaction, accrue_row}

-- A transaction that credits the order.
abbrev pub is_credit : Str → TransactionRow → Bool
is_credit number t = str_eq t.order_num number && ltb_ℤ (pos 0) t.accrual

-- How many transactions credit the order.
unfoldable pub credits : Str → List TransactionRow → ℕ
credits number [] = 0
credits number (t ∷ ts) =
    let rest = credits number ts in if is_credit number t then suc rest else rest

-- A change that leaves the order and the accrual of a row.
abbrev pub IsAside : (TransactionRow → TransactionRow) → Type 0
IsAside f = (t : TransactionRow) → ((f t).order_num ≡ t.order_num) × ((f t).accrual ≡ t.accrual)

module _ (number : Str) where
  pub credits-update :
      (id : Str) (f : TransactionRow → TransactionRow) (ts : List TransactionRow)
      → IsAside f
      → credits number (update_transaction id f ts) ≡ credits number ts
  unfolding credits update
  credits-update id f [] h = refl
  credits-update id f (t ∷ ts) h = elim (Bool-cases (str_eq t.id id)) [
    | inl hit ↦ rw (hit, update, (h t).0, (h t).1) refl
    | inr miss ↦ rw (miss, update, credits-update id f ts h) refl
  ]

  pub credits-update_where :
      (p : TransactionRow → Bool) (f : TransactionRow → TransactionRow) (ts : List TransactionRow)
      → IsAside f
      → credits number (update_where p f ts) ≡ credits number ts
  unfolding credits update_where
  credits-update_where p f [] h = refl
  credits-update_where p f (t ∷ ts) h = elim (Bool-cases (p t)) [
    | inl hit ↦ rw (hit, update_where, credits-update_where p f ts h, (h t).0, (h t).1) refl
    | inr miss ↦ rw (miss, update_where, credits-update_where p f ts h) refl
  ]

  pub credits-snoc :
      (t : TransactionRow) (ts : List TransactionRow)
      → t.accrual ≡ pos 0
      → credits number (ts ++ t ∷ []) ≡ credits number ts
  unfolding credits
  credits-snoc t [] zero = rw zero (ground arith)
  credits-snoc t (s ∷ ts) zero = rw (credits-snoc t ts zero) refl

  -- An accrual adds at most one credit, and none to an order that is not the transaction's.
  pub credits-accrue :
      (id own : Str) (now : ℕ) (a : Numeric) (ts : List TransactionRow)
      → ((t : TransactionRow) → find_transaction id ts ≡ some t → t.order_num ≡ own)
      → credits number (update_transaction id (accrue_row now a) ts)
        ≤ (if str_eq own number then suc (credits number ts) else credits number ts)
  unfolding credits update find
  credits-accrue id own now a [] h = ground arith
  credits-accrue id own now a (t ∷ ts) h = elim (Bool-cases (str_eq t.id id)) [
    | inl hit ↦
        let same : t.order_num ≡ own = h t (rw hit refl) in rw (hit, update, same) (ground arith)
    | inr miss ↦
        let rest = credits-accrue id own now a ts (λ s e. h s (rw miss e)) in
        rw (miss, update) (ground (arith, rest))
  ]

  -- An accrual to a transaction of the order that was none so far adds a credit.
  pub credits-accrue_new :
      (id : Str) (now : ℕ) (a : Numeric) (ts : List TransactionRow) (t : TransactionRow)
      → find_transaction id ts ≡ some t
      → str_eq t.order_num number ≡ true
      → ltb_ℤ (pos 0) t.accrual ≡ false
      → ltb_ℤ (pos 0) a ≡ true
      → credits number (update_transaction id (accrue_row now a) ts) ≡ suc (credits number ts)
  unfolding credits update find
  credits-accrue_new id now a [] t found own empty worth = absurd cc
  credits-accrue_new id now a (r ∷ rs) t found own empty worth =
      elim (Bool-cases (str_eq r.id id)) [
        | inl hit ↦
            let same : r ≡ t = cc (rw hit at found) in
            rw (hit, update, same, own, empty, worth) refl
        | inr miss ↦
            let rest = credits-accrue_new id now a rs t (rw miss at found) own empty worth in
            rw (miss, update, rest) (ground arith)
      ]
