-- ===== src/Account/Sums.antt =====
-- The sums over the transactions of a user that GetBalance reads, under each way to change a
-- transaction.
use sufirmart.Base.{
  parts_of_eq, inl, inr, Bool-cases, ◌≡◌, refl, Bool, true, some, none, Option, List, [], ◌∷◌, ◌++◌,
  Str, str_eq, str_eq_iff, pos, ◌+ℤ◌, ◌-ℤ◌, int_laws, if◌then◌else◌, arith,
}
use sufirmart.Domain.Amount.{Numeric}
use sufirmart.Store.{TransactionRow, AccountRow}
use sufirmart.Store.Table.{find, update, update_where, select, find-update, find-snoc}
use sufirmart.Account.Rows.{find_transaction, update_transaction, find_account, settled_of, sum_net}

-- What a transaction counts for a user.
abbrev pub contribution : Str → TransactionRow → Numeric
contribution v t = if settled_of v t then t.accrual -ℤ t.withdraw else pos 0

-- The accruals less the withdrawals among the processed transactions of a user.
abbrev pub net : Str → List TransactionRow → Numeric
net v ts = sum_net (select (settled_of v) ts)

pub net-cons :
    (v : Str) (t : TransactionRow) (ts : List TransactionRow)
    → net v (t ∷ ts) ≡ contribution v t +ℤ net v ts
unfolding sum_net select
net-cons v t ts = elim (Bool-cases (settled_of v t)) [
  | inl hit ↦ rw (hit, select) refl
  | inr miss ↦ rw (miss, select) (omega int_laws)
]

pub net-update :
    (v id : Str) (f : TransactionRow → TransactionRow) (ts : List TransactionRow)
    (t : TransactionRow)
    → find_transaction id ts ≡ some t
    → net v (update_transaction id f ts) +ℤ contribution v t ≡ net v ts +ℤ contribution v (f t)
unfolding find update
net-update v id f [] t e = cc
net-update v id f (s ∷ ts) t e = elim (Bool-cases (str_eq s.id id)) [
  | inl hit ↦
      let same : s ≡ t = ground arith in
      rw (hit, update, net-cons v (f s) ts, net-cons v s ts, same) (omega int_laws)
  | inr miss ↦
      rw (miss, update, net-cons v s (update_transaction id f ts), net-cons v s ts)
        (omega (int_laws, parts_of_eq _ _ (net-update v id f ts t (ground arith))))
]

-- Without the transaction nothing changes.
pub update_missing :
    (id : Str) (f : TransactionRow → TransactionRow) (ts : List TransactionRow)
    → find_transaction id ts ≡ none
    → update_transaction id f ts ≡ ts
unfolding find update
update_missing id f [] e = refl
update_missing id f (s ∷ ts) e = ground (arith, update_missing id f ts)

pub net-snoc :
    (v : Str) (ts : List TransactionRow) (t : TransactionRow)
    → net v (ts ++ t ∷ []) ≡ net v ts +ℤ contribution v t
unfolding sum_net select
net-snoc v [] t = rw (net-cons v t []) (omega int_laws)
net-snoc v (s ∷ ts) t =
    rw (net-cons v s (ts ++ t ∷ []), net-cons v s ts, net-snoc v ts t) (omega int_laws)

-- A change that leaves every contribution alone leaves the sum alone.
pub net-update_where :
    (v : Str) (p : TransactionRow → Bool) (f : TransactionRow → TransactionRow)
    (ts : List TransactionRow)
    → ((t : TransactionRow) → p t ≡ true → contribution v (f t) ≡ contribution v t)
    → net v (update_where p f ts) ≡ net v ts
unfolding update_where
net-update_where v p f [] keep = refl
net-update_where v p f (t ∷ ts) keep = elim (Bool-cases (p t)) [
  | inl hit ↦ rw (
    hit,
    update_where,
    net-cons v (f t) (update_where p f ts),
    net-cons v t ts,
    keep t hit,
    net-update_where v p f ts keep,
  )
  | inr miss ↦ rw (
    miss,
    update_where,
    net-cons v t (update_where p f ts),
    net-cons v t ts,
    net-update_where v p f ts keep,
  )
]

-- The balance column of a user, zero without an account.
abbrev pub amount_in : Option AccountRow → Numeric
amount_in none = pos 0
amount_in (some a) = a.current_balance

abbrev pub balance_of : Str → List AccountRow → Numeric
balance_of v accs = amount_in (find_account v accs)

pub balance_of-update :
    (u v : Str) (b : Numeric) (accs : List AccountRow) (a : AccountRow)
    → find_account u accs ≡ some a
    → balance_of v
        (update (λ (r : AccountRow). r.user_id) u (λ r. record r { current_balance = b }) accs)
      ≡ (if str_eq u v then b else balance_of v accs)
balance_of-update u v b accs a e =
    rw
      (
        find-update (λ (r : AccountRow). r.user_id) u v (λ r. record r { current_balance = b }) accs
            (λ r. refl),
        e,
      )
      (ground arith)

pub balance_of-snoc :
    (u v : Str) (b : Numeric) (accs : List AccountRow)
    → find_account u accs ≡ none
    → balance_of v (accs ++ record { user_id = u; current_balance = b } ∷ [])
      ≡ (if str_eq u v then b else balance_of v accs)
balance_of-snoc u v b accs e =
    rw
      (find-snoc (λ (r : AccountRow). r.user_id) v accs
        (record { user_id = u; current_balance = b }))
      (ground (arith, str_eq_iff u v))
