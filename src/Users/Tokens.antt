-- ===== src/Users/Tokens.antt =====
-- How long a token of internal/auth/auth_service.go is good, and for whom.
use sufirmart.Base.{
  inl, inr, ap, ◌∙◌, ◌≡◌, refl, ℕ, suc, ◌+◌, Bool, true, false, ◌&&◌, Bool-cases, none, some, List,
  [], ◌∷◌, ◌++◌, Str, str_eq, str_eq_refl, ok, err, user_not_found, ltb, if◌then◌else◌,
}
use mathlib.Core.List.{append_assoc}
use sufirmart.Domain.UserId.{new_user_id}
use sufirmart.Store.{UserRow, AuthRow}
use sufirmart.Store.Table.{find, select}
use sufirmart.Store.Statement.{Env, World, IsUp, statement_up}
use sufirmart.Users.Hash.{generate_token, password_verify}
use sufirmart.Users.{
  Secrets, draw, no_text, find_login, insert_auth, first_row, live_row, authenticate, sign_in,
  issue_token, get_user_id, user_or_missing,
}

-- The row of a token, good for 24 hours.
abbrev pub auth_row : Str → Str → ℕ → AuthRow
auth_row user token now = record { user_id = user; token = token; expired_at = now + 86400 }

-- No row has the token.
abbrev pub IsUnseen : Str → List AuthRow → Type 0
IsUnseen token rows = find (λ (r : AuthRow). r.token) token rows ≡ none

IsUnseen-cons :
    (token : Str) (r : AuthRow) (rows : List AuthRow)
    → IsUnseen token (r ∷ rows)
    → (str_eq r.token token ≡ false) × IsUnseen token rows
unfolding find
IsUnseen-cons token r rows e = elim (Bool-cases (str_eq r.token token)) [
  | inl hit ↦ absurd (some-none (rw hit at e))
  | inr miss ↦ (miss, rw miss at e)
]
  where
    some-none : some r ≡ none → ⊥
    some-none e = cc

select-unseen :
    (token : Str) (now : ℕ) (rows : List AuthRow)
    → IsUnseen token rows
    → select (λ (r : AuthRow). str_eq r.token token && ltb now r.expired_at) rows ≡ []
unfolding select
select-unseen token now [] e = refl
select-unseen token now (r ∷ rows) e =
    let (miss, others) = IsUnseen-cons token r rows e in
    rw (miss) (select-unseen token now rows others)

-- The row of a token is the only one with it.
select-live :
    (token user : Str) (now issued : ℕ) (rows more : List AuthRow)
    → IsUnseen token rows
    → IsUnseen token more
    → select
        (λ (r : AuthRow). str_eq r.token token && ltb now r.expired_at)
        (rows ++ auth_row user token issued ∷ more)
      ≡ (if ltb now (issued + 86400) then auth_row user token issued ∷ [] else [])
unfolding select
select-live token user now issued [] more e later =
    rw (str_eq_refl token, select-unseen token now more later) refl
select-live token user now issued (r ∷ rows) more e later =
    let (miss, others) = IsUnseen-cons token r rows e in
    rw (miss) (select-live token user now issued rows more others later)

module _ (env : Env) (up : IsUp env) (c : ℕ) (t : Str) (v : World) where
  pub get_live :
      (r : AuthRow)
      → live_row (c ∷ t) (env.now v.calls) v.db ≡ some r
      → (get_user_id env (c ∷ t) v).0 ≡ new_user_id r.user_id
  unfolding get_user_id
  get_live r e = rw (statement_up env up, e, user_or_missing) refl

  pub get_dead :
      live_row (c ∷ t) (env.now v.calls) v.db ≡ none
      → (get_user_id env (c ∷ t) v).0 ≡ err user_not_found
  unfolding get_user_id
  get_dead e = rw (statement_up env up, e, user_or_missing) refl

module _ (env : Env) (up : IsUp env) (secrets : Secrets) (login password token : Str) (w : World)
    (u : UserRow) (named : no_text login ≡ false) (given : no_text password ≡ false)
    (found : find_login login w.users ≡ some u)
    (verified : password_verify secrets password u.password ≡ true)
    (drawn : generate_token secrets 32 (suc w.calls) ≡ ok token)
    (known : find (λ (v : UserRow). v.id) u.id w.users ≡ some u) where
  -- The world after Authenticate.
  abbrev pub signed_in : World
  signed_in = record w {
    db = record w.db { auths = w.auths ++ auth_row u.id token (env.now (suc (suc w.calls))) ∷ [] };
    calls = suc (suc (suc w.calls));
  }

  pub authenticate_up : authenticate env secrets login password w ≡ (ok token, signed_in)
  unfolding authenticate sign_in draw insert_auth
  authenticate_up =
      rw
        (
          named,
          given,
          sign_in,
          statement_up env up,
          found,
          verified,
          issue_token,
          drawn,
          statement_up env up,
          insert_auth,
          known,
        )
        refl

  -- Signing in with the right password answers with the token drawn. From then on GetUserID answers
  -- that token with the user for 24 hours, and with ErrUserNotFound when they are over, whatever
  -- other tokens are added to the table. The conditions: the database does not fail, the token is
  -- not empty and is no other row's, and the user's id is a valid one.
  pub token_lifetime :
      (c : ℕ) (t : Str) (v : World) (more : List AuthRow)
      → token ≡ c ∷ t
      → IsUnseen token w.auths
      → IsUnseen token more
      → new_user_id u.id ≡ ok u.id
      → v.auths ≡ (authenticate env secrets login password w).1.auths ++ more
      → ((authenticate env secrets login password w).0 ≡ ok token)
        × ((get_user_id env token v).0 ≡ (
            if ltb (env.now v.calls) (env.now (suc (suc w.calls)) + 86400)
            then ok u.id
            else err user_not_found))
  token_lifetime c t v more shape unseen later valid same =
      (ap (λ r. r.0) authenticate_up, looked_up)
    where
      table : v.auths ≡ w.auths ++ auth_row u.id token (env.now (suc (suc w.calls))) ∷ more
      table =
          same
          ∙ ap (λ r. r.1.auths ++ more) authenticate_up
          ∙ append_assoc w.auths (auth_row u.id token (env.now (suc (suc w.calls))) ∷ []) more

      row : live_row token (env.now v.calls) v.db ≡ (
          if ltb (env.now v.calls) (env.now (suc (suc w.calls)) + 86400)
          then some (auth_row u.id token (env.now (suc (suc w.calls))))
          else none)
      row =
          rw
            (
              table,
              select-live token u.id (env.now v.calls) (env.now (suc (suc w.calls))) w.auths more
                  unseen later,
            )
            (first_of (ltb (env.now v.calls) (env.now (suc (suc w.calls)) + 86400)))
        where
          first_of :
              (b : Bool)
              → first_row (if b then auth_row u.id token (env.now (suc (suc w.calls))) ∷ [] else [])
                ≡ (if b then some (auth_row u.id token (env.now (suc (suc w.calls)))) else none)
          first_of true = refl
          first_of false = refl

      looked_up : (get_user_id env token v).0 ≡ (
          if ltb (env.now v.calls) (env.now (suc (suc w.calls)) + 86400)
          then ok u.id
          else err user_not_found)
      looked_up = elim (Bool-cases (ltb (env.now v.calls) (env.now (suc (suc w.calls)) + 86400))) [
        | inl young ↦ rw (young, shape) (get_live env up c t v _ (rw (young, shape) at row) ∙ valid)
        | inr old ↦ rw (old, shape) (get_dead env up c t v (rw (old, shape) at row))
      ]
