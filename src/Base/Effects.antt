-- ===== src/Base/Effects.antt =====
-- Errors as values, and methods that read and write a state and may return an error. What was
-- written before an error stays written, so the state comes back beside the error too.
use Prim.Native.Nat.{ℕ}
use mathlib.Core.Path.{◌≡◌, refl}
use mathlib.Core.Logic.{◌⊎◌, inl, inr}
use sufirmart.Base.Ints.{ℤ}

-- The error values that the code returns, tests and passes on. `sql_error` is any failure of the
-- database or its driver, a violated constraint included.
pub data Error : Type 0 where
  sql_error no_rows context_done : Error
  -- domain
  status_cant_be_changed invalid_order_number invalid_user_id : Error
  -- repository
  order_not_found insufficient_funds accrual_not_set : Error
  -- accrual
  not_found order_in_processing build_url request_failed decode_failed : Error
  unknown_accrual_status still_processing : Error
  too_many_requests : ℤ → Error
  service_error unexpected_status : ℕ → Error
  -- workerpool
  queue_full pool_stopped : Error
  -- auth, user
  token_missing user_not_found invalid_credentials unauthorized : Error
  login_already_exists credentials_required hash_failed token_failed uuid_failed : Error

pub data Result {ℓ} (A : Type ℓ) : Type ℓ where
  ok : A → Result A
  err : Error → Result A

abbrev pub Exec {ℓ} : Type ℓ → Type ℓ → Type ℓ
Exec S A = S → Result A × S

module _ {ℓ} {S A : Type ℓ} where
  abbrev pub pure : A → Exec S A
  pure a s = (ok a, s)

  abbrev pub raise : Error → Exec S A
  raise e s = (err e, s)

  abbrev pub lift : Result A → Exec S A
  lift r s = (r, s)

  -- `r, err := m` where the code goes on whatever `err` is.
  abbrev pub attempt : Exec S A → Exec S (Result A)
  attempt m s = let (r, s') = m s in (ok r, s')

module _ {ℓ} {S A B : Type ℓ} where
  abbrev pub continue : Result A → (A → Exec S B) → Exec S B
  continue (ok a) f s = f a s
  continue (err e) f s = (err e, s)

  infixl 5 ◌>>=◌ ◌>>◌
  abbrev pub ◌>>=◌ : Exec S A → (A → Exec S B) → Exec S B
  ◌>>=◌ m f s = let (r, s') = m s in continue r f s'

  abbrev pub ◌>>◌ : Exec S A → Exec S B → Exec S B
  m >> k = m >>= λ _. k

pub Result-cases {ℓ} :
    {A : Type ℓ} (r : Result A) → ((a : A) × (r ≡ ok a)) ⊎ ((e : Error) × (r ≡ err e))
Result-cases (ok a) = inl (a, refl)
Result-cases (err e) = inr (e, refl)
