-- ===== src/Orders/Progress.antt =====
-- How the orders of internal/repository/order.go come along: each keeps its owner and its time, and its
-- status only moves on.
use sufirmart.Base.{
  inl, inr, ◌⊎◌, Bool-cases, Option-cases, ◌≡◌, ◌∙◌, refl, ℕ, ◌<◌, true, ◌||◌, some, List, [], ◌∷◌,
  ◌++◌, Str, str_eq, str_eq_iff, arith,
}
use sufirmart.Domain.Order.{Order, OrderStatus, is_invalid, is_processed}
use sufirmart.Store.{Db, UserRow, OrderRow}
use sufirmart.Store.Table.{find, update, find-update, find-snoc}
use sufirmart.Store.Statement.{Env}
use sufirmart.Store.Triple.{Triple, BodyPost, Triple-statement}
use sufirmart.Orders.{find_order, save, save_order}
use sufirmart.Orders.Once.{is_pending}

-- How far an order has come.
abbrev pub stage : OrderStatus → ℕ
stage OrderStatus.new = 0
stage OrderStatus.processing = 1
stage OrderStatus.invalid = 2
stage OrderStatus.processed = 2
stage (OrderStatus.unnamed n) = 0

-- The status stays, or an order that is new or in processing comes to a later stage.
abbrev pub MayBecome : OrderStatus → OrderStatus → Type 0
MayBecome s t = (s ≡ t) ⊎ ((is_pending s ≡ true) × (stage s < stage t))

MayBecome-trans : (s t u : OrderStatus) → MayBecome s t → MayBecome t u → MayBecome s u
MayBecome-trans s t u (inl same) k = rw same k
MayBecome-trans s t u (inr h) (inl same) = inr (h.0, rw same at h.1)
MayBecome-trans s t u (inr h) (inr k) =
    let first = h.1 in let then = k.1 in inr (h.0, omega (arith, first, then))

pub pending-processing :
    (s : OrderStatus) → is_pending s ≡ true → MayBecome s OrderStatus.processing
pending-processing OrderStatus.new e = inr (refl, omega arith)
pending-processing OrderStatus.processing e = inl refl
pending-processing OrderStatus.invalid e = cc
pending-processing OrderStatus.processed e = cc
pending-processing (OrderStatus.unnamed n) e = cc

pub pending-final :
    (s t : OrderStatus)
    → is_pending s ≡ true
    → is_invalid t || is_processed t ≡ true
    → MayBecome s t
pending-final s t e f = inr (e, ground arith)

-- A row after another one.
abbrev pub Comes : OrderRow → OrderRow → Type 0
Comes row row' =
    (row'.user_id ≡ row.user_id)
    × (row'.uploaded_at ≡ row.uploaded_at)
    × MayBecome row.status row'.status

-- Every order that was there is there still, and has come along.
abbrev pub Progress : List OrderRow → List OrderRow → Type 0
Progress rows rows' =
    (number : Str) (row : OrderRow)
    → find_order number rows ≡ some row
    → (row' : OrderRow) × (find_order number rows' ≡ some row') × Comes row row'

-- The status may be written for the order, if it is there.
abbrev pub Allows : Str → OrderStatus → Db → Type 0
Allows number status d =
    (row : OrderRow) → find_order number d.orders ≡ some row → MayBecome row.status status

module _ (before : List OrderRow) (user number : Str) (status : OrderStatus) (d : Db)
    (h : Progress before d.orders) (allowed : Allows number status d) where
  updated :
      Progress before
        (update (λ (o : OrderRow). o.order_num) number (λ o. record o { status = status }) d.orders)
  updated m row e =
      let (r, there, comes) = h m row e in
      let after =
        find-update (λ (o : OrderRow). o.order_num) number m (λ o. record o { status = status })
          d.orders (λ r. refl) in
      elim (Bool-cases (str_eq number m)) [
        | inr differs ↦ (r, after ∙ rw differs there, comes)
        | inl equal ↦
            let same : number ≡ m = (str_eq_iff number m).0 equal in
            let here : find_order number d.orders ≡ some r = rw (same) there in
            (
              record r { status = status },
              after ∙ rw (equal, here) refl,
              (
                comes.0,
                comes.1,
                MayBecome-trans row.status r.status status comes.2 (allowed r here),
              ),
            )
      ]

  added : (r : OrderRow) → Progress before (d.orders ++ r ∷ [])
  added r m row e =
      let (s, there, comes) = h m row e in
      (s, find-snoc (λ (o : OrderRow). o.order_num) m d.orders r ∙ rw there refl, comes)

  save_order-Progress :
      (now : ℕ)
      → BodyPost
          (λ (_ : Unit {0}) e. Progress before e.orders)
          (λ e. Progress before e.orders)
          d
          (save_order user number status now d)
  unfolding save_order
  save_order-Progress now = elim (Option-cases (find_order number d.orders)) [
    | inr (row, e) ↦ elim (Bool-cases (str_eq row.user_id user)) [
      | inr other ↦ rw (e, save_order, other) h
      | inl own ↦ rw (e, save_order, own) updated
    ]
    | inl e ↦ elim (Option-cases (find (λ (u : UserRow). u.id) user d.users)) [
      | inl no_user ↦ rw (e, save_order, no_user) h
      | inr (u, known) ↦ rw (e, save_order, known) (added _)
    ]
  ]

pub save-Progress :
    (env : Env) (before : List OrderRow) (o : Order)
    → Triple
        (λ d. Progress before d.orders × Allows o.number o.status d)
        (save env o)
        (λ _ d. Progress before d.orders)
        (λ d. Progress before d.orders)
unfolding save
save-Progress env before o =
    Triple-statement env _ (λ d p. p.0)
      λ now d p. save_order-Progress before o.user_id o.number o.status d p.0 p.1 now
