-- ===== src/Account/Awaits.antt =====
-- Transactions that tasks wait for: what the methods of internal/repository/account.go leave of them.
use sufirmart.Base.{
  inl, inr, Bool-cases, ◌≡◌, ◌∙◌, refl, sym, ℕ, ◌≤ℤ◌, Bool, false, some, none, List, [], ◌∷◌, ◌++◌,
  Str, str_eq, str_eq_iff, pos,
}
use sufirmart.Domain.Amount.{Float64}
use sufirmart.Store.{Db, TransactionRow}
use sufirmart.Store.Table.{find, update_where, find-update, find-snoc}
use sufirmart.Store.Statement.{Env}
use sufirmart.Store.Triple.{Triple, Triple-statement}
use sufirmart.Account.Rows.{
  find_transaction, update_transaction, is_processed, settle_row, cancel_row, accrue_row,
}
use sufirmart.Account.Register.{find-planned_row}
use sufirmart.Account.Writes.{approve_transaction-Triple}
use sufirmart.Account.Additions.{register_transaction-Triple}
use sufirmart.Account.{
  register_transaction, approve_transaction, cancel_transaction,
  cancel_planned_transactions_by_order,
}

-- The transaction is there, and not processed.
abbrev pub IsPending : Str → List TransactionRow → Type 0
IsPending id ts =
    (t : TransactionRow) × (find_transaction id ts ≡ some t) × (is_processed t.status ≡ false)

IsPending-update :
    (own id : Str) (f : TransactionRow → TransactionRow) (ts : List TransactionRow)
    → ((t : TransactionRow) → (f t).id ≡ t.id)
    → (id ≡ own → (t : TransactionRow) → is_processed (f t).status ≡ false)
    → IsPending own ts
    → IsPending own (update_transaction id f ts)
IsPending-update own id f ts named ends (t, found, unsettled) =
    let after = find-update (λ (r : TransactionRow). r.id) id own f ts named in
    elim (Bool-cases (str_eq id own)) [
      | inl equal ↦
          let same : id ≡ own = (str_eq_iff id own).0 equal in
          (f t, after ∙ rw (equal, same, found) refl, ends same t)
      | inr differs ↦ (t, after ∙ rw (differs, found) refl, unsettled)
    ]

IsPending-cancel_where :
    (own : Str) (p : TransactionRow → Bool) (now : ℕ) (reason : Str) (ts : List TransactionRow)
    → IsPending own ts
    → IsPending own (update_where p (cancel_row now reason) ts)
unfolding find update_where
IsPending-cancel_where own p now reason [] (t, found, unsettled) = absurd cc
IsPending-cancel_where own p now reason (r ∷ rs) (t, found, unsettled) =
    elim (Bool-cases (str_eq r.id own)) [
      | inl hit ↦
          let same : some r ≡ some t = rw hit at found in
          let alike : r ≡ t = cc in
          elim (Bool-cases (p r)) [
            | inl chosen ↦ (cancel_row now reason r, rw (chosen, hit) refl, refl)
            | inr kept ↦ (r, rw (kept, hit) refl, rw alike unsettled)
          ]
      | inr miss ↦
          let (s, there, shut) =
            IsPending-cancel_where own p now reason rs (t, rw miss at found, unsettled) in
          elim (Bool-cases (p r)) [
            | inl chosen ↦ (s, rw (chosen, miss) there, shut)
            | inr kept ↦ (s, rw (kept, miss) there, shut)
          ]
    ]

IsPending-snoc :
    (own : Str) (ts : List TransactionRow) (r : TransactionRow)
    → IsPending own ts
    → IsPending own (ts ++ r ∷ [])
IsPending-snoc own ts r (t, found, unsettled) =
    (t, find-snoc (λ (r : TransactionRow). r.id) own ts r ∙ rw found refl, unsettled)

-- Which transactions are waited for.
module _ (S : Str → Type 0) where
  abbrev pub AllPending : Db → Type 0
  AllPending d = (id : Str) → S id → IsPending id d.transactions

  -- A transaction that is known here, and that nobody else waits for.
  abbrev pub IsOwn : Str → Db → Type 0
  IsOwn id d = IsPending id d.transactions × ¬ S id

  module _ (env : Env) where
    pub approve-AllPending :
        (id : Str) (accrual : Float64)
        → ¬ S id
        → Triple AllPending (approve_transaction env id accrual) (λ _. AllPending) AllPending
    approve-AllPending id accrual apart =
        approve_transaction-Triple AllPending (λ d rows h. h) AllPending env id accrual (λ d h. h)
          (λ now d h. others (settle_row now) d (λ t. refl) h)
          (λ now reason d h. others (cancel_row now reason) d (λ t. refl) h)
          (λ positive now a d h. others (accrue_row now a) d (λ t. refl) h)
      where
        others :
            (f : TransactionRow → TransactionRow) (d : Db)
            → ((t : TransactionRow) → (f t).id ≡ t.id)
            → AllPending d
            → (own : Str) → S own
            → IsPending own (update_transaction id f d.transactions)
        others f d named h own s =
            IsPending-update own id f d.transactions named (λ same t. absurd (apart (rw (same) s)))
              (h own s)

    pub cancel-AllPending :
        (id reason : Str)
        → Triple AllPending (cancel_transaction env id reason) (λ _. AllPending) AllPending
    unfolding cancel_transaction
    cancel-AllPending id reason =
        Triple-statement env _ (λ _ p. p)
          λ now d h own s.
            IsPending-update own id (cancel_row now reason) d.transactions (λ t. refl)
              (λ same t. refl) (h own s)

    pub cancel_planned-AllPending :
        (user order_num reason : Str)
        → Triple AllPending
            (cancel_planned_transactions_by_order env user order_num reason)
            (λ _. AllPending)
            AllPending
    unfolding cancel_planned_transactions_by_order
    cancel_planned-AllPending user order_num reason =
        Triple-statement env _ (λ _ p. p)
          λ now d h own s. IsPending-cancel_where own _ now reason d.transactions (h own s)

    pub register-AllPending :
        (user order_num : Str) (sum : Float64) (comment : Str)
        → sum ≤ℤ pos 0
        → Triple AllPending
            (register_transaction env user order_num sum comment)
            (λ id d. AllPending d × IsOwn id d)
            AllPending
    register-AllPending user order_num sum comment low =
        register_transaction-Triple AllPending (λ id d. AllPending d × IsOwn id d) user order_num
          (λ t d missing named zero unsettled h. (
            (λ own s. IsPending-snoc own d.transactions t (h own s)),
            (
              (t, find-planned_row t d.transactions missing, unsettled),
              λ s. apart t.id d missing (h t.id s),
            ),
          ))
          env sum comment low
      where
        apart :
            (id : Str) (d : Db)
            → find_transaction id d.transactions ≡ none
            → IsPending id d.transactions
            → ⊥
        apart id d missing (t, found, unsettled) = absurd (some-none (sym found ∙ missing))
          where
            some-none : some t ≡ none → ⊥
            some-none e = cc
