-- ===== src/Orders/Lookup.antt =====
-- What GetByNumber and Save of internal/repository/order.go find and leave.
use mathlib.Core.Option
use sufirmart.Store.Triple.{BodyPost, Post, Triple-statement}
use sufirmart.Base.{
  ap, ◌++◌, ℕ, inl, inr, ◌≡◌, ◌≢◌, refl, sym, ◌∙◌, suc, Bool, true, false, Bool-cases, Option-cases,
  Option, none, some, List, [], ◌∷◌, Str, str_eq, str_eq_iff, Result, ok, err, sql_error,
  order_not_found, accrual_not_set, arith,
}
use sufirmart.Domain.Order.{Order, OrderStatus, is_processed}
use sufirmart.Domain.UserId.{new_user_id}
use sufirmart.Store.{Db, UserRow, OrderRow}
use sufirmart.Store.Table.{find, update, find-update, find-snoc}
use sufirmart.Store.Statement.{Env, World, IsUp, statement, statement_up}
use sufirmart.Orders.{get_by_number, save, save_order, find_order, build_order}

-- The order that a row stands for, without an accrual.
abbrev pub plain_order : Str → OrderRow → Order
plain_order uid o = record {
  user_id = uid;
  number = o.order_num;
  status = o.status;
  uploaded_at = o.uploaded_at;
  accrual = none;
}

module _ (env : Env) (up : IsUp env) (number : Str) (lock : Bool) (w : World) where
  abbrev counted : World
  counted = record w { calls = suc w.calls }

  pub get_by_number-missing :
      find_order number w.orders ≡ none
      → get_by_number env number lock w ≡ (err order_not_found, counted)
  unfolding get_by_number
  get_by_number-missing e = rw (statement_up env up, e) refl

  module _ (o : OrderRow) (found : find_order number w.orders ≡ some o) where
    get_by_number-row :
        get_by_number env number lock w
        ≡ (build_order o.user_id o.order_num o.status o.uploaded_at none, counted)
    unfolding get_by_number
    get_by_number-row = rw (statement_up env up, found) refl

    -- The order of a row is not read once it is processed.
    pub get_by_number-processed :
        new_user_id o.user_id ≡ ok o.user_id
        → is_processed o.status ≡ true
        → get_by_number env number lock w ≡ (err accrual_not_set, counted)
    unfolding build_order
    get_by_number-processed valid settled =
        get_by_number-row ∙ rw (valid, build_order, settled) refl

    pub get_by_number-open :
        new_user_id o.user_id ≡ ok o.user_id
        → is_processed o.status ≡ false
        → get_by_number env number lock w ≡ (ok (plain_order o.user_id o), counted)
    unfolding build_order
    get_by_number-open valid unsettled = get_by_number-row ∙ rw (valid, build_order, unsettled) refl

-- The user of an order.
abbrev pub owner : Str → Db → Option Str
owner number db = Option.map (λ (o : OrderRow). o.user_id) (find_order number db.orders)

owner_kept :
    (n number user : Str) (status : OrderStatus) (rows : List OrderRow) (row : OrderRow)
    → Option.map (λ (o : OrderRow). o.user_id) (find_order number rows) ≡ some user
    → find_order n rows ≡ some row
    → Option.map
        (λ (o : OrderRow). o.user_id)
        (find_order number
          (update (λ (o : OrderRow). o.order_num) n (λ o. record o { status = status }) rows))
      ≡ some user
owner_kept n number user status rows row h e =
    rw
      (
        find-update (λ (o : OrderRow). o.order_num) n number (λ o. record o { status = status })
            rows (λ o. refl),
        e,
      )
      (elim (Bool-cases (str_eq n number)) [
        | inl same ↦
            let eq : find_order number rows ≡ some row =
              ap (λ k. find_order k rows) (sym ((str_eq_iff n number).0 same)) ∙ e in
            rw same (ap (Option.map (λ (o : OrderRow). o.user_id)) (sym eq) ∙ h)
        | inr other ↦ rw other h
      ])

owner_snoc :
    (number user : Str) (rows : List OrderRow) (row : OrderRow)
    → Option.map (λ (o : OrderRow). o.user_id) (find_order number rows) ≡ some user
    → Option.map (λ (o : OrderRow). o.user_id) (find_order number (rows ++ row ∷ [])) ≡ some user
owner_snoc number user rows row h = elim (Option-cases (find_order number rows)) [
  | inl e ↦ absurd (none-ne-some (ap (Option.map (λ (o : OrderRow). o.user_id)) (sym e) ∙ h))
  | inr (o, e) ↦
      rw (find-snoc (λ (o : OrderRow). o.order_num) number rows row, e)
        (ap (Option.map (λ (o : OrderRow). o.user_id)) (sym e) ∙ h)
]
  where
    none-ne-some : none ≡ some user → ⊥
    none-ne-some e = cc

abbrev Owned : Str → Str → Db → Type 0
Owned number user d = owner number d ≡ some user

save_order-Owned :
    (u n number user : Str) (status : OrderStatus) (now : ℕ) (db : Db)
    → Owned number user db
    → BodyPost
        (λ (_ : Unit {0}). Owned number user)
        (Owned number user)
        db
        (save_order u n status now db)
unfolding save_order
save_order-Owned u n number user status now db h = elim (Option-cases (find_order n db.orders)) [
  | inr (row, e) ↦ elim (Bool-cases (str_eq row.user_id u)) [
    | inl same ↦ rw (e, save_order, same) (owner_kept n number user status db.orders row h e)
    | inr other ↦ rw (e, save_order, other) h
  ]
  | inl e ↦ elim (Option-cases (find (λ (v : UserRow). v.id) u db.users)) [
    | inl no_user ↦ rw (e, save_order, no_user) h
    | inr (v, known) ↦ rw (e, save_order, known) (owner_snoc number user db.orders _ h)
  ]
]

save_order-refused :
    (u n user : Str) (status : OrderStatus) (now : ℕ) (db : Db)
    → Owned n user db
    → u ≢ user
    → save_order u n status now db ≡ err sql_error
unfolding save_order
save_order-refused u n user status now db h ne = elim (Option-cases (find_order n db.orders)) [
  | inl e ↦ ground (arith, h, e)
  | inr (row, e) ↦ ground (arith, h, e, str_eq_iff row.user_id u)
]

-- Save never gives an order to another user. Whoever has a number keeps it, whatever is saved and
-- whether Save fails; and to save an order of another user under it fails.
pub save-keeps_owner :
    (env : Env) (o : Order) (number user : Str) (w : World)
    → owner number w.db ≡ some user
    → (owner number (save env o w).1.db ≡ some user)
      × (o.number ≡ number → o.user_id ≢ user → (save env o w).0 ≡ err sql_error)
unfolding save statement
save-keeps_owner env o number user w h = (kept, refused)
  where
    kept : owner number (save env o w).1.db ≡ some user
    kept = either (save env o w).0 (save env o w).1.db (
        (Triple-statement env (save_order o.user_id o.number o.status) (λ _ p. p)
            (λ now d p. save_order-Owned o.user_id o.number number user o.status now d p)).at
          w h)
      where
        either :
            (r : Result (Unit {0})) (d : Db)
            → Post (λ _. Owned number user) (Owned number user) r d
            → Owned number user d
        either (ok _) d p = p
        either (err _) d p = p

    refused : o.number ≡ number → o.user_id ≢ user → (save env o w).0 ≡ err sql_error
    refused e ne =
        let mine : Owned o.number user w.db = rw e h in
        elim (Bool-cases (env.fails w.calls)) [
          | inl fault ↦ rw (fault, statement) refl
          | inr fine ↦
              rw
                (
                  fine,
                  statement,
                  save_order-refused o.user_id o.number user o.status (env.now w.calls) w.db mine
                      ne,
                )
                refl
        ]
