-- ===== src/Orders/Once/Saved.antt =====
-- What Save of internal/repository/order.go has to do with the credits of an order.
use sufirmart.Base.{
  inl, inr, ◌⊎◌, Bool-cases, Option-cases, ◌≡◌, refl, sym, ◌∙◌, ap, ℕ, ◌≤◌, false, List, [], ◌∷◌,
  ◌++◌, Str, str_eq, str_eq_iff, str_eq_refl, Result, ok, err, if◌then◌else◌, arith,
}
use sufirmart.Domain.Order.{Order, OrderStatus}
use sufirmart.Store.{Db, UserRow, OrderRow, TransactionRow}
use mathlib.Core.Path.{subst}
use sufirmart.Store.Table.{find, find-update, find-snoc}
use sufirmart.Store.Statement.{Env}
use sufirmart.Store.Triple.{Triple, BodyPost, Triple-statement}
use sufirmart.Account.Credits.{credits}
use sufirmart.Orders.{find_order, save, save_order}
use sufirmart.Orders.Once.{IsOnce, Uncredited, credits-le_one, may_begin, is_pending}

-- The orders after a save: the saved one has the new status, the others stay.
record IsSaved (number : Str) (status : OrderStatus) (d d' : Db) : Type 0 where
  same : d'.transactions ≡ d.transactions
  saved : may_begin (find_order number d'.orders) ≡ is_pending status
  others : (m : Str) → str_eq number m ≡ false → find_order m d'.orders ≡ find_order m d.orders

find_order-snoc :
    (row : OrderRow) (m : Str) (rows : List OrderRow)
    → str_eq row.order_num m ≡ false
    → find_order m (rows ++ row ∷ []) ≡ find_order m rows
unfolding find
find_order-snoc row m [] differs = rw differs refl
find_order-snoc row m (r ∷ rows) differs = rw (find_order-snoc row m rows differs) refl

save_order-IsSaved :
    (user number : Str) (status : OrderStatus) (now : ℕ) (d : Db)
    → BodyPost
        (λ (_ : Unit {0}). IsSaved number status d)
        (λ e. e ≡ d)
        d
        (save_order user number status now d)
unfolding save_order
save_order-IsSaved user number status now d = elim (Option-cases (find_order number d.orders)) [
  | inr (row, e) ↦ elim (Bool-cases (str_eq row.user_id user)) [
    | inr other ↦ rw (e, save_order, other) refl
    | inl own ↦
        let f = λ (o : OrderRow). record o { status = status } in
        let after = λ (m : Str).
          find-update (λ (o : OrderRow). o.order_num) number m f d.orders (λ r. refl) in
        rw (e, save_order, own)
          (record {
            same = refl;
            saved = ap may_begin (after number) ∙ rw (str_eq_refl number, e) refl;
            others = λ m differs. after m ∙ rw differs refl;
          })
  ]
  | inl e ↦ elim (Option-cases (find (λ (u : UserRow). u.id) user d.users)) [
    | inl no_user ↦ rw (e, save_order, no_user) refl
    | inr (u, known) ↦
        let row : OrderRow = record {
          user_id = user;
          order_num = number;
          status = status;
          uploaded_at = now;
        } in
        let after = λ (m : Str). find-snoc (λ (o : OrderRow). o.order_num) m d.orders row in
        rw (e, save_order, known)
          (record {
            same = refl;
            saved = ap may_begin (after number) ∙ rw (e, str_eq_refl number) refl;
            others = λ m differs. find_order-snoc row m d.orders differs;
          })
  ]
]

-- Saving keeps the bound, if the order is settled by it or is not credited.
IsSaved-IsOnce :
    (number : Str) (status : OrderStatus) (d d' : Db)
    → (is_pending status ≡ false) ⊎ Uncredited number d
    → IsOnce d
    → IsSaved number status d d'
    → IsOnce d'
IsSaved-IsOnce number status d d' may h s = record {
  bound = λ m. elim (Bool-cases (str_eq number m)) [
    | inr differs ↦ rw (s.same, s.others m differs) (h.bound m)
    | inl equal ↦
        let named : number ≡ m = (str_eq_iff number m).0 equal in
        rw (← named, s.same, s.saved) (own may)
  ];
}
  where
    own :
        (is_pending status ≡ false) ⊎ Uncredited number d
        → credits number d.transactions ≤ (if is_pending status then 0 else 1)
    own (inl settled) = rw settled (credits-le_one number d h)
    own (inr none_yet) = rw none_yet (ground arith)

module _ (env : Env) where
  -- Save, with what is known of the transactions before and of the order after it.
  pub save-Once :
      (o : Order) (T : List TransactionRow → Type 0)
      → Triple
          (λ d.
            IsOnce d × ((is_pending o.status ≡ false) ⊎ Uncredited o.number d) × T d.transactions)
          (save env o)
          (λ _ d.
            IsOnce d
            × T d.transactions
            × (may_begin (find_order o.number d.orders) ≡ is_pending o.status))
          IsOnce
  unfolding save
  save-Once o T =
      Triple-statement env _ (λ d p. p.0)
        λ now d p. either _ d p (save_order-IsSaved o.user_id o.number o.status now d)
    where
      either :
          (r : Result (Unit {0} × Db)) (d : Db)
          → IsOnce d × ((is_pending o.status ≡ false) ⊎ Uncredited o.number d) × T d.transactions
          → BodyPost (λ (_ : Unit {0}). IsSaved o.number o.status d) (λ e. e ≡ d) d r
          → BodyPost
              (λ (_ : Unit {0}) d'.
                IsOnce d'
                × T d'.transactions
                × (may_begin (find_order o.number d'.orders) ≡ is_pending o.status))
              IsOnce
              d
              r
      either (ok (u, d')) d p s =
          (IsSaved-IsOnce o.number o.status d d' p.1 p.0 s, subst T (sym s.same) p.2, s.saved)
      either (err e) d p s = p.0

-- Save leaves the order in the status that it writes.
pub save-marks :
    (env : Env) (o : Order)
    → Triple
        (λ _. Unit {0})
        (save env o)
        (λ _ d. may_begin (find_order o.number d.orders) ≡ is_pending o.status)
        (λ _. Unit {0})
unfolding save
save-marks env o =
    Triple-statement env _ (λ _ p. p)
      λ now d p. marked d _ (save_order-IsSaved o.user_id o.number o.status now d)
  where
    marked :
        (d : Db) (r : Result (Unit {0} × Db))
        → BodyPost (λ (_ : Unit {0}). IsSaved o.number o.status d) (λ e. e ≡ d) d r
        → BodyPost
            (λ (_ : Unit {0}) e. may_begin (find_order o.number e.orders) ≡ is_pending o.status)
            (λ _. Unit {0})
            d
            r
    marked d (ok (u, e)) s = s.saved
    marked d (err x) s = tt
