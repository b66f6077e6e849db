-- ===== src/Server/Rounds/Apart.antt =====
-- Tasks that wait, each for a transaction of its own.
use sufirmart.Base.{inl, inr, ◌≡◌, ◌⊎◌, List, [], ◌∷◌, ◌++◌, Str}
use sufirmart.Processor.Round.{Final}
use sufirmart.Server.Rounds.{Waiting}

-- The order of the task has not come to its last status.
abbrev pub IsGoing : Waiting → Type 0
IsGoing x = ¬ Final x.order

-- One of the tasks waits for the transaction.
abbrev pub Awaited : List Waiting → Str → Type 0
Awaited [] id = ⊥
Awaited (x ∷ l) id = (IsGoing x × (x.id ≡ id)) ⊎ Awaited l id

-- No two tasks wait for the same transaction.
abbrev pub AllApart : List Waiting → Type 0
AllApart [] = Unit {0}
AllApart (x ∷ l) = (IsGoing x → ¬ Awaited l x.id) × AllApart l

pub Awaited-insert :
    (before after : List Waiting) (x : Waiting) (id : Str)
    → Awaited (x ∷ before ++ after) id
    → Awaited (before ++ x ∷ after) id
Awaited-insert [] after x id h = h
Awaited-insert (y ∷ before) after x id (inl own) = inr (Awaited-insert before after x id (inl own))
Awaited-insert (y ∷ before) after x id (inr (inl other)) = inl other
Awaited-insert (y ∷ before) after x id (inr (inr rest)) =
    inr (Awaited-insert before after x id (inr rest))

-- The order in which the tasks are listed is of no account.
pub AllApart-front :
    (before after : List Waiting) (x : Waiting)
    → AllApart (before ++ x ∷ after)
    → AllApart (x ∷ before ++ after)
AllApart-front [] after x h = h
AllApart-front (y ∷ before) after x (apart, rest) =
    let (front, others) = AllApart-front before after x rest in
    (mine front, ((λ going a. apart going (Awaited-insert before after x y.id (inr a))), others))
  where
    mine :
        (IsGoing x → ¬ Awaited (before ++ after) x.id)
        → IsGoing x
        → ¬ Awaited (y ∷ before ++ after) x.id
    mine front going (inr a) = front going a
    mine front going (inl (waits, same)) =
        apart waits (Awaited-insert before after x y.id (inl (going, symmetric same)))
      where
        symmetric : y.id ≡ x.id → x.id ≡ y.id
        symmetric e = cc
