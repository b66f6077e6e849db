-- ===== src/Server/Rounds/Safety.antt =====
-- The ledger and the tasks that wait, over all steps of the service.
use sufirmart.Base.{
  inl, inr, ◌⊎◌, Bool-cases, ◌≡◌, ◌∙◌, sym, refl, ℕ, Bool, true, false, ◌||◌, some, List, ◌∷◌, ◌++◌,
  Str, Result, Error, ok, err,
}
use sufirmart.Domain.Order.{Order, is_invalid, is_processed}
use sufirmart.Store.{Db}
use sufirmart.Store.Statement.{Env, World}
use sufirmart.Account.Ledger.{IsLedger, NotProcessed}
use sufirmart.Account.Awaits.{IsPending, AllPending, IsOwn}
use sufirmart.Accrual.{Reader}
use sufirmart.Users.Keeps.{IsOpenTo, IsOpenTo-both, IsLedger-IsOpenTo}
use sufirmart.Tools.Repeater.Turns.{Turn, goes, returns, KeptIn, turn-Keep}
use sufirmart.Processor.Strategy.{AdaptiveStrategy, adaptive}
use sufirmart.Processor.{Task, ask, prepare, conclude_order}
use sufirmart.Processor.Round.{Final, IsRound}
use sufirmart.Processor.Safety.{Unsettled, IsLedger-IsRound, SafeTask, ask-SafeTask, conclude-Keeps}
use sufirmart.Processor.Awaits.{IsRound-both, Acting, AllPending-IsOpenTo, AllPending-IsRound}
use sufirmart.Server.Init.{Outside}
use sufirmart.Server.Rounds.{Waiting, Busy, prepared, after_turn, turn_of}
use sufirmart.Server.Rounds.Apart.{IsGoing, Awaited, AllApart, Awaited-insert, AllApart-front}

-- The ledger holds, the transactions that tasks wait for are there and not processed, and no two
-- tasks wait for the same one.
pub record IsCalm (d : Db) (waiting : List Waiting) : Type 0 where
  pub ledger : IsLedger d
  pub pending : AllPending (Awaited waiting) d
  pub apart : AllApart waiting

-- What the steps of one task keep for the others.
abbrev pub Calm : (Str → Type 0) → Db → Type 0
Calm S d = IsLedger d × AllPending S d

module _ (env : Env) (S : Str → Type 0) where
  abbrev pub Before : Str → Str → Db → Type 0
  Before id number d = NotProcessed id d × IsOwn S id d

  abbrev pub Saved : Str → Str → Db → Type 0
  Saved id number d = Unsettled id number d × Acting S id d

  pub Calm-IsRound : IsRound env (Calm S) Before Saved
  Calm-IsRound = IsRound-both (IsLedger-IsRound env) (AllPending-IsRound S env)

  pub Calm-IsOpenTo : IsOpenTo (Calm S)
  Calm-IsOpenTo = IsOpenTo-both IsLedger-IsOpenTo (AllPending-IsOpenTo S)

IsPending-NotProcessed : (id : Str) (d : Db) → IsPending id d.transactions → NotProcessed id d
IsPending-NotProcessed id d (t, found, unsettled) s other =
    let same : some t ≡ some s = sym found ∙ other in
    let alike : t ≡ s = cc in rw alike at unsettled

-- A task that waits again, or that has come to its end.
rejoined :
    (env : Env) (x : Waiting) (others : List Waiting) (d : Db)
    → AllApart others
    → Calm (Awaited others) d
    → Final x.order ⊎ Before env (Awaited others) x.id x.number d
    → IsCalm d (x ∷ others)
rejoined env x others d apart calm state = record {
  ledger = calm.0;
  pending = λ id waits. pending id waits;
  apart = (mine state, apart);
}
  where
    pending : (id : Str) → Awaited (x ∷ others) id → IsPending id d.transactions
    pending id (inr other) = calm.1 id other
    pending id (inl (going, same)) = own state going same
      where
        own :
            Final x.order ⊎ Before env (Awaited others) x.id x.number d
            → IsGoing x
            → x.id ≡ id
            → IsPending id d.transactions
        own (inl final) going same = absurd (going final)
        own (inr before) going same = rw same at before.1.0

    mine :
        Final x.order ⊎ Before env (Awaited others) x.id x.number d
        → IsGoing x
        → ¬ Awaited others x.id
    mine (inl final) going = absurd (going final)
    mine (inr before) going = before.1.1

-- What holds of a task by itself, and of the others.
picked :
    (env : Env) (before after : List Waiting) (x : Waiting) (d : Db)
    → IsCalm d (before ++ x ∷ after)
    → AllApart (before ++ after)
      × Calm (Awaited (before ++ after)) d
      × (Final x.order ⊎ Before env (Awaited (before ++ after)) x.id x.number d)
picked env before after x d h =
    let (mine, others) = AllApart-front before after x h.apart in
    (
      others,
      (h.ledger, λ id waits. h.pending id (Awaited-insert before after x id (inr waits))),
      state mine,
    )
  where
    state :
        (IsGoing x → ¬ Awaited (before ++ after) x.id)
        → Final x.order ⊎ Before env (Awaited (before ++ after)) x.id x.number d
    state mine = elim (Bool-cases (is_invalid x.order.status || is_processed x.order.status)) [
      | inl final ↦ inl final
      | inr going ↦
          let waits : IsGoing x = λ final. absurd (true-false (sym final ∙ going)) in
          let pending = h.pending x.id (Awaited-insert before after x x.id (inl (waits, refl))) in
          inr (IsPending-NotProcessed x.id d pending, (pending, mine waits))
    ]
      where
        true-false : true ≡ false → ⊥
        true-false e = cc

module _ (c : Outside) (reader : Reader) where
  -- A round leaves the service calm.
  turned :
      (x : Waiting) (others : List Waiting) (b : Busy) (t : Turn AdaptiveStrategy Task (Unit {0}))
      → AllApart others
      → KeptIn
          (SafeTask c.env
            (Calm (Awaited others))
            (Before c.env (Awaited others))
            (Saved c.env (Awaited others))
            (Calm-IsRound c.env (Awaited others))
            x.id)
          t
      → IsCalm
          (after_turn c reader x others b t).site.world.db
          (after_turn c reader x others b t).waiting
  unfolding SafeTask
  turned x others b (goes e t s) apart h = rejoined c.env _ others _ apart h.0 h.1
  turned x others b (returns o) apart h = rejoined c.env _ others _ apart h.0 h.1

  pub round-IsCalm :
      (b : Busy) (before after : List Waiting) (x : Waiting)
      → IsCalm b.site.world.db (before ++ x ∷ after)
      → IsCalm
          (after_turn c reader x
            (before ++ after)
            b
            (turn_of c reader x b.site.world)).site.world.db
          (after_turn c reader x (before ++ after) b (turn_of c reader x b.site.world)).waiting
  unfolding SafeTask
  round-IsCalm b before after x h =
      let (apart, calm, state) = picked c.env before after x b.site.world.db h in
      turned x (before ++ after) b (turn_of c reader x b.site.world) apart (
        turn-Keep adaptive x.done (ask c.env reader x.number x.id) _ _ x.attempt x.strategy _ (
          ask-SafeTask c.env (Calm (Awaited (before ++ after)))
            (Before c.env (Awaited (before ++ after))) (Saved c.env (Awaited (before ++ after)))
            (Calm-IsRound c.env (Awaited (before ++ after))) x.id reader x.number
            (record { world = b.site.world; order = x.order }) (calm, state)))

  pub conclude-IsCalm :
      (b : Busy) (before after : List Waiting) (x : Waiting) (r : Result (Unit {0}))
      → IsCalm b.site.world.db (before ++ x ∷ after)
      → IsCalm
          (conclude_order c.env x.id r (record { world = b.site.world; order = x.order })).db
          (before ++ after)
  unfolding SafeTask
  conclude-IsCalm b before after x r h =
      let (apart, calm, state) = picked c.env before after x b.site.world.db h in
      let kept =
        conclude-Keeps c.env (Calm (Awaited (before ++ after)))
          (Before c.env (Awaited (before ++ after))) (Saved c.env (Awaited (before ++ after)))
          (Calm-IsRound c.env (Awaited (before ++ after))) x.id r
          (record { world = b.site.world; order = x.order }) (calm, state) in
      record { ledger = kept.0; pending = kept.1; apart = apart }

  pub begin-IsCalm :
      (waiting : List Waiting) (w w' : World) (number : Str) (allow : Bool) (done : ℕ → Bool)
      (order : Order) (id : Str)
      → IsCalm w.db waiting
      → prepare c.env number allow w ≡ (ok (order, id), w')
      → IsCalm w'.db (prepared number done order id ∷ waiting)
  begin-IsCalm waiting w w' number allow done order id h e =
      let ready = (Calm-IsRound c.env (Awaited waiting)).prepares number allow in
      let kept = rw e at (ready.at w (h.ledger, h.pending)) in
      rejoined c.env (prepared number done order id) waiting w'.db h.apart kept.0 (inr kept.1)

  pub refuse-IsCalm :
      (waiting : List Waiting) (w w' : World) (number : Str) (allow : Bool) (x : Error)
      → IsCalm w.db waiting
      → prepare c.env number allow w ≡ (err x, w')
      → IsCalm w'.db waiting
  refuse-IsCalm waiting w w' number allow x h e =
      let ready = (Calm-IsRound c.env (Awaited waiting)).prepares number allow in
      let kept = rw e at (ready.at w (h.ledger, h.pending)) in
      record { ledger = kept.0; pending = kept.1; apart = h.apart }
