-- ===== src/Store/Triple.antt =====
-- Conditions on the database before and after a method, one rule for each way to build a method.
use sufirmart.Base.{
  true, false, Bool, if◌then◌else◌, lift, attempt, ℕ, suc, inl, inr, Bool-cases, Result, ok, err,
  Exec, pure, continue, ◌>>=◌, Option, none, some, Error,
}
use sufirmart.Store.{Db}
use sufirmart.Store.Statement.{Env, World, statement, transaction, finish, conclude, new_uuid}

-- `Q` after a result, `E` after an error.
abbrev pub Post : {A : Type 0} → (A → Db → Type 0) → (Db → Type 0) → Result A → Db → Type 0
Post Q E (ok a) d = Q a d
Post Q E (err e) d = E d

-- The same of a statement's body, which changes nothing where it fails.
abbrev pub BodyPost :
    {A : Type 0} → (A → Db → Type 0) → (Db → Type 0) → Db → Result (A × Db) → Type 0
BodyPost Q E d (ok (a, d')) = Q a d'
BodyPost Q E d (err e) = E d

-- From `P`, `m` ends in `Q` with a result and in `E` with an error.
pub record Triple {A : Type 0} (P : Db → Type 0) (m : Exec World A) (Q : A → Db → Type 0)
    (E : Db → Type 0) : Type 0 where
  pub at : (w : World) → P w.db → Post Q E (m w).0 (m w).1.db

module _ {A : Type 0} (Q : A → Db → Type 0) (E : Db → Type 0) where
  finish-Post :
      (r : Result (A × Db)) (w : World)
      → BodyPost Q E w.db r
      → Post Q E (finish r w).0 (finish r w).1.db
  finish-Post (ok (a, d)) w h = h
  finish-Post (err e) w h = h

  conclude-Post :
      (env : Env) (before : Db) (r : Result (Result A)) (w : World)
      → E before
      → Post (Post Q E) (λ _. Unit {0}) r w.db
      → Post Q E (conclude env before (r, w)).0 (conclude env before (r, w)).1.db
  conclude-Post env before (ok r) w h p = elim (Bool-cases (env.fails w.calls)) [
    | inl fault ↦ rw fault h
    | inr fine ↦ rw fine p
  ]
  conclude-Post env before (err e) w h p = h

module _ {A : Type 0} {P : Db → Type 0} {Q : A → Db → Type 0} {E : Db → Type 0} where
  pub Triple-pure : (a : A) → ((d : Db) → P d → Q a d) → Triple P (pure a) Q E
  Triple-pure a h = record { at = λ w p. h w.db p }

  -- A fact that the precondition gives may be used to prove the triple.
  pub Triple-given : {m : Exec World A} → ((d : Db) → P d → Triple P m Q E) → Triple P m Q E
  Triple-given h = record { at = λ w p. (h w.db p).at w p }

  pub Triple-statement :
      (env : Env) (body : ℕ → Db → Result (A × Db))
      → ((d : Db) → P d → E d)
      → ((now : ℕ) (d : Db) → P d → BodyPost Q E d (body now d))
      → Triple P (statement env body) Q E
  unfolding statement
  Triple-statement env body failed done = record {
    at = λ w p. elim (Bool-cases (env.fails w.calls)) [
      | inl fault ↦ rw (fault, statement) (failed w.db p)
      | inr fine ↦
          rw (fine, statement)
            (finish-Post Q E (body (env.now w.calls) w.db) (record w { calls = suc w.calls })
              (done (env.now w.calls) w.db p))
    ];
  }

  pub Triple-transaction :
      (env : Env) (body : ℕ → Exec World (Result A))
      → ((d : Db) → P d → E d)
      → ((now : ℕ) → Triple P (body now) (Post Q E) (λ _. Unit {0}))
      → Triple P (transaction env body) Q E
  unfolding transaction
  Triple-transaction env body failed done = record {
    at = λ w p. elim (Bool-cases (env.fails w.calls)) [
      | inl fault ↦ rw (fault, transaction) (failed w.db p)
      | inr fine ↦
          let w' = record w { calls = suc w.calls } in
          rw (fine, transaction)
            (conclude-Post Q E env w.db (body (env.now w.calls) w').0 (body (env.now w.calls) w').1
              (failed w.db p) ((done (env.now w.calls)).at w' p))
    ];
  }

pub Triple-new_uuid :
    (P : Db → Type 0) (E : Db → Type 0) (env : Env) → Triple P (new_uuid env) (λ _. P) E
unfolding new_uuid
Triple-new_uuid P E env = record { at = λ w p. p }

module _ {A B : Type 0} {P : Db → Type 0} {R : B → Db → Type 0} {E : Db → Type 0} where
  pub Triple-bind :
      (Q : A → Db → Type 0) (m : Exec World A) (f : A → Exec World B)
      → Triple P m Q E
      → ((a : A) → Triple (Q a) (f a) R E)
      → Triple P (m >>= f) R E
  Triple-bind Q m f tm tf = record { at = λ w p. go (m w).0 (m w).1 (tm.at w p) }
    where
      go :
          (r : Result A) (w : World)
          → Post Q E r w.db
          → Post R E (continue r f w).0 (continue r f w).1.db
      go (ok a) w q = (tf a).at w q
      go (err e) w q = q

module _ {A : Type 0} {P : Db → Type 0} where
  pub Triple-lift : (r : Result A) → Triple P (lift r) (λ _. P) P
  Triple-lift r = record { at = λ w p. either r p }
    where
      either : {d : Db} (r : Result A) → P d → Post (λ _. P) P r d
      either (ok _) p = p
      either (err _) p = p

  pub Triple-attempt :
      {m : Exec World A} {Q E : Db → Type 0}
      → Triple P m (λ _. Q) Q
      → Triple P (attempt m) (λ _. Q) E
  Triple-attempt {m} {Q} h = record { at = λ w p. either (m w).0 (h.at w p) }
    where
      either : {d : Db} (r : Result A) → Post (λ _. Q) Q r d → Q d
      either (ok _) q = q
      either (err _) q = q

  pub Triple-if :
      {m n : Exec World A} {Q : A → Db → Type 0} {E : Db → Type 0} (b : Bool)
      → Triple P m Q E
      → Triple P n Q E
      → Triple P (if b then m else n) Q E
  Triple-if true hm hn = hm
  Triple-if false hm hn = hn

module _ {A B : Type 0} {P E : Db → Type 0} {Q : A → Db → Type 0} where
  pub Triple-option :
      {m : Exec World A} {f : B → Exec World A} (o : Option B)
      → Triple P m Q E
      → ((b : B) → Triple P (f b) Q E)
      → Triple P (elim o [ none ↦ m | some b ↦ f b ]) Q E
  Triple-option none hm hf = hm
  Triple-option (some b) hm hf = hf b

  pub Triple-result :
      {f : Error → Exec World A} {g : B → Exec World A} (r : Result B)
      → ((e : Error) → Triple P (f e) Q E)
      → ((b : B) → Triple P (g b) Q E)
      → Triple P (elim r [ err e ↦ f e | ok b ↦ g b ]) Q E
  Triple-result (err e) hf hg = hf e
  Triple-result (ok b) hf hg = hg b

-- From less, to more.
pub Triple-weaken :
    {A : Type 0} {P P' E E' : Db → Type 0} {Q Q' : A → Db → Type 0} (m : Exec World A)
    → ((d : Db) → P' d → P d)
    → ((a : A) (d : Db) → Q a d → Q' a d)
    → ((d : Db) → E d → E' d)
    → Triple P m Q E
    → Triple P' m Q' E'
Triple-weaken {A} {P} {P'} {E} {E'} {Q} {Q'} m before after failed h = record {
  at = λ w p. either (m w).0 (m w).1.db (h.at w (before w.db p));
}
  where
    either : (r : Result A) (d : Db) → Post Q E r d → Post Q' E' r d
    either (ok a) d q = after a d q
    either (err e) d q = failed d q

-- What holds of the database after every end of a method, as a triple.
pub Triple-after :
    {A : Type 0} (P Q : Db → Type 0) (m : Exec World A)
    → ((w : World) → P w.db → Q (m w).1.db)
    → Triple P m (λ _. Q) Q
Triple-after {A} P Q m h = record { at = λ w p. both (m w).0 (h w p) }
  where
    both : {d : Db} (r : Result A) → Q d → Post (λ _. Q) Q r d
    both (ok _) q = q
    both (err _) q = q

-- What a method gives is known of the result that `attempt` passes on.
pub Triple-attempt-Post :
    {A : Type 0} {P E F : Db → Type 0} {Q : A → Db → Type 0} (m : Exec World A)
    → Triple P m Q E
    → Triple P (attempt m) (Post Q E) F
Triple-attempt-Post m h = record { at = h.at }

-- What a method keeps of two conditions it keeps of both.
pub Triple-both :
    {A : Type 0} {P P' E E' : Db → Type 0} {Q Q' : A → Db → Type 0} (m : Exec World A)
    → Triple P m Q E
    → Triple P' m Q' E'
    → Triple (λ d. P d × P' d) m (λ a d. Q a d × Q' a d) (λ d. E d × E' d)
Triple-both {A} {P} {P'} {E} {E'} {Q} {Q'} m h k = record {
  at = λ w p. both (m w).1.db (m w).0 (h.at w p.0) (k.at w p.1);
}
  where
    both :
        (d : Db) (r : Result A)
        → Post Q E r d
        → Post Q' E' r d
        → Post (λ a d. Q a d × Q' a d) (λ d. E d × E' d) r d
    both d (ok a) q s = (q, s)
    both d (err e) q s = (q, s)

-- A result has what the method gives from any database, too.
pub Triple-also :
    {A : Type 0} {P E : Db → Type 0} {Q R : A → Db → Type 0} (m : Exec World A)
    → Triple P m Q E
    → Triple (λ _. Unit {0}) m R (λ _. Unit {0})
    → Triple P m (λ a d. Q a d × R a d) E
Triple-also {A} {P} {E} {Q} {R} m h also = record {
  at = λ w p. both (m w).1.db (m w).0 (h.at w p) (also.at w tt);
}
  where
    both :
        (d : Db) (r : Result A)
        → Post Q E r d
        → Post R (λ _. Unit {0}) r d
        → Post (λ a d. Q a d × R a d) E r d
    both d (ok a) q s = (q, s)
    both d (err e) q s = q
