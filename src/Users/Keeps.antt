-- ===== src/Users/Keeps.antt =====
-- What internal/user/registration.go and internal/auth/auth_service.go keep of a condition on the database.
use sufirmart.Base.{
  none, ◌++◌, pos, inl, inr, ◌≡◌, refl, arith, ℕ, Bool, true, false, ◌||◌, Option-cases, List, [],
  ◌∷◌, Str, Result, ok, err,
}
use sufirmart.Domain.UserId.{new_user_id}
use sufirmart.Store.{Db, UserRow, AuthRow}
use sufirmart.Store.Table.{find}
use sufirmart.Store.Statement.{Env, World}
use sufirmart.Store.Triple.{
  Triple, BodyPost, Triple-statement, Triple-bind, Triple-lift, Triple-attempt, Triple-pure,
  Triple-if, Triple-after,
}
use sufirmart.Account.Ledger.{IsLedger}
use sufirmart.Account.Rows.{insert_account, find_account}
use sufirmart.Account.Reads.{Triple-read}
use sufirmart.Account.Debts.{insert_account-IsLedger}
use sufirmart.Users.Hash.{generate_token, password_verify}
use sufirmart.Users.{
  Secrets, draw, no_text, find_login, insert_user, insert_auth, login_free, assert_user_exists,
  registered_or_taken, add_user, register_user, credentials_row, issue_token, sign_in, authenticate,
  user_or_missing, get_user_id,
}

-- A condition that holds on, whichever users, tokens and empty accounts are added.
pub record IsOpenTo (P : Db → Type 0) : Type 0 where
  pub users : (d : Db) (rows : List UserRow) → P d → P (record d { users = rows })
  pub auths : (d : Db) (rows : List AuthRow) → P d → P (record d { auths = rows })
  pub accounts :
      (user : Str) (d : Db)
      → P d
      → find_account user d.accounts ≡ none
      → P (record d {
        accounts = d.accounts ++ record { user_id = user; current_balance = pos 0 } ∷ [];
      })

pub IsOpenTo-both : {P P' : Db → Type 0} → IsOpenTo P → IsOpenTo P' → IsOpenTo (λ d. P d × P' d)
IsOpenTo-both h k = record {
  users = λ d rows p. (h.users d rows p.0, k.users d rows p.1);
  auths = λ d rows p. (h.auths d rows p.0, k.auths d rows p.1);
  accounts = λ user d p e. (h.accounts user d p.0 e, k.accounts user d p.1 e);
}

pub IsLedger-IsOpenTo : IsOpenTo IsLedger
IsLedger-IsOpenTo = record {
  users = λ d rows h. record { rows = h.rows; balanced = h.balanced; solvent = h.solvent };
  auths = λ d rows h. record { rows = h.rows; balanced = h.balanced; solvent = h.solvent };
  accounts = insert_account-IsLedger;
}

module _ (P : Db → Type 0) (stays : IsOpenTo P) where
  insert_user-Keeps :
      (id login password : Str) (d : Db)
      → P d
      → BodyPost (λ (_ : Bool). P) P d (insert_user id login password d)
  unfolding insert_user
  insert_user-Keeps id login password d h = elim (Option-cases (find_login login d.users)) [
    | inr (u, taken) ↦ rw (taken, insert_user) h
    | inl free ↦ elim (Option-cases (find (λ (u : UserRow). u.id) id d.users)) [
      | inr (u, same) ↦ rw (free, insert_user, same) h
      | inl fresh ↦ rw (free, insert_user, fresh) (stays.users d _ h)
    ]
  ]

  insert_auth-Keeps :
      (user token : Str) (now : ℕ) (d : Db)
      → P d
      → BodyPost (λ (_ : Unit {0}). P) P d (insert_auth user token now d)
  unfolding insert_auth
  insert_auth-Keeps user token now d h =
      elim (Option-cases (find (λ (u : UserRow). u.id) user d.users)) [
        | inl no_user ↦ rw (no_user, insert_auth) h
        | inr (u, known) ↦ rw (known, insert_auth) (stays.auths d _ h)
      ]

  insert_account-Keeps :
      (user : Str) (d : Db) → P d → BodyPost (λ (_ : Unit {0}). P) P d (insert_account user d)
  unfolding insert_account
  insert_account-Keeps user d h = elim (Option-cases (find_account user d.accounts)) [
    | inr (a, e) ↦ rw (e, insert_account) h
    | inl e ↦ elim (Option-cases (find (λ (u : UserRow). u.id) user d.users)) [
      | inl no_user ↦ rw (e, insert_account, no_user) h
      | inr (u, known) ↦ rw (e, insert_account, known) (stays.accounts user d h e)
    ]
  ]

  module _ (env : Env) (secrets : Secrets) where
    draw-Keeps : (source : ℕ → Result Str) → Triple P (draw source) (λ _. P) P
    unfolding draw
    draw-Keeps source = Triple-after P P (draw source) (λ w p. p)

    login_free-world : (row : Result UserRow) (w : World) → (login_free env row w).1 ≡ w
    unfolding login_free
    login_free-world (ok u) w = refl
    login_free-world (err e) w = ground arith

    login_free-Keeps : (row : Result UserRow) → Triple P (login_free env row) (λ _. P) P
    unfolding login_free
    login_free-Keeps row =
        Triple-after P P (login_free env row) λ w p. rw (login_free-world row w) p

    registered_or_taken-Keeps :
        (id : Str) (inserted : Bool) → Triple P (registered_or_taken env id inserted) (λ _. P) P
    unfolding registered_or_taken
    registered_or_taken-Keeps id false = record { at = λ w p. p }
    registered_or_taken-Keeps id true =
        Triple-statement env _ (λ _ p. p) λ now d p. insert_account-Keeps id d p

    add_user-Keeps :
        (login password : Str) → Triple P (add_user env secrets login password) (λ _. P) P
    unfolding add_user assert_user_exists
    add_user-Keeps login password =
        Triple-bind (λ _. P) _ _
          (Triple-bind (λ _. P) _ _ (Triple-attempt (Triple-read P env _)) login_free-Keeps)
          λ _.
            Triple-bind (λ _. P) _ _ (draw-Keeps secrets.uuid_v7)
              λ drawn.
                Triple-bind (λ _. P) _ _ (Triple-lift (new_user_id drawn))
                  λ id.
                    Triple-bind (λ _. P) _ _ (draw-Keeps _)
                      λ hashed.
                        Triple-bind (λ _. P) _ _
                          (Triple-statement env _ (λ _ p. p)
                            λ now d p. insert_user-Keeps id login hashed d p)
                          (registered_or_taken-Keeps id)

    pub register_user-Keeps :
        (login password : Str) → Triple P (register_user env secrets login password) (λ _. P) P
    unfolding register_user
    register_user-Keeps login password =
        Triple-if (no_text login || no_text password) (record { at = λ w p. p })
          (add_user-Keeps login password)

    issue_token-Keeps :
        (user : Str) (verified : Bool) → Triple P (issue_token env secrets user verified) (λ _. P) P
    unfolding issue_token
    issue_token-Keeps user false = record { at = λ w p. p }
    issue_token-Keeps user true =
        Triple-bind (λ _. P) _ _ (draw-Keeps (generate_token secrets 32))
          λ token.
            Triple-bind (λ _. P) _ _
              (Triple-statement env _ (λ _ p. p) λ now d p. insert_auth-Keeps user token now d p)
              λ _. Triple-pure token (λ d p. p)

    pub authenticate-Keeps :
        (login password : Str) → Triple P (authenticate env secrets login password) (λ _. P) P
    unfolding authenticate sign_in
    authenticate-Keeps login password =
        Triple-if (no_text login || no_text password) (record { at = λ w p. p })
          (Triple-bind (λ _. P) _ _ (Triple-attempt (Triple-read P env _))
            λ row.
              Triple-bind (λ _. P) _ _ (Triple-lift (credentials_row env row))
                λ user. issue_token-Keeps user.id (password_verify secrets password user.password))

-- GetUserID changes nothing.
module _ (env : Env) where
  pub get_user_id-Keeps :
      (P : Db → Type 0) (token : Str) → Triple P (get_user_id env token) (λ _. P) P
  unfolding get_user_id
  get_user_id-Keeps P [] = record { at = λ w p. p }
  get_user_id-Keeps P (c ∷ token) =
      Triple-bind (λ _. P) _ _ (Triple-attempt (Triple-read P env _))
        λ row. Triple-lift (user_or_missing env row)
