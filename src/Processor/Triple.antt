-- ===== src/Processor/Triple.antt =====
-- Conditions before and after a step of a task of internal/order/processor.go: on the order that the
-- task holds, and on the database.
use sufirmart.Base.{Result, ok, err, Exec, continue, ◌>>=◌, pure, attempt}
use sufirmart.Domain.Order.{Order, OrderStatus, change_status}
use sufirmart.Store.{Db}
use sufirmart.Store.Statement.{World}
use sufirmart.Store.Triple.{Triple, Post}
use sufirmart.Processor.{Task, on_world, on_order}

-- From `P`, `m` ends in `Q` with a result and in `E` with an error.
pub record TaskTriple {A : Type 0} (P : Order → Db → Type 0) (m : Exec Task A)
    (Q : A → Order → Db → Type 0) (E : Order → Db → Type 0) : Type 0 where
  pub at :
      (s : Task)
      → P s.order s.world.db
      → Post (λ a. Q a (m s).1.order) (E (m s).1.order) (m s).0 (m s).1.world.db

module _ {A : Type 0} {P : Order → Db → Type 0} {Q : A → Order → Db → Type 0}
    {E : Order → Db → Type 0} where
  pub TaskTriple-pure :
      (a : A) → ((o : Order) (d : Db) → P o d → Q a o d) → TaskTriple P (pure a) Q E
  TaskTriple-pure a h = record { at = λ s p. h s.order s.world.db p }

  pub TaskTriple-on_world :
      (m : Exec World A)
      → ((o : Order) → Triple (P o) m (λ a. Q a o) (E o))
      → TaskTriple P (on_world m) Q E
  TaskTriple-on_world m h = record { at = λ s p. (h s.order).at s.world p }

pub TaskTriple-on_order :
    (status : OrderStatus) (P Q E : Order → Db → Type 0)
    → ((o : Order) (d : Db)
        → P o d
        → Post
            (λ _. Q (change_status status o).1)
            (E (change_status status o).1)
            (change_status status o).0
            d)
    → TaskTriple P (on_order status) (λ _. Q) E
TaskTriple-on_order status P Q E h = record { at = λ s p. h s.order s.world.db p }

pub TaskTriple-attempt :
    {A : Type 0} (P Q E : Order → Db → Type 0) (m : Exec Task A)
    → TaskTriple P m (λ _. Q) Q
    → TaskTriple P (attempt m) (λ _. Q) E
TaskTriple-attempt {A} P Q E m h = record { at = λ s p. either (m s).0 (m s).1 (h.at s p) }
  where
    either :
        (r : Result A) (s : Task)
        → Post (λ _. Q s.order) (Q s.order) r s.world.db
        → Q s.order s.world.db
    either (ok _) s h = h
    either (err _) s h = h

module _ {A B : Type 0} {P : Order → Db → Type 0} {R : B → Order → Db → Type 0}
    {E : Order → Db → Type 0} where
  pub TaskTriple-bind :
      (Q : A → Order → Db → Type 0) (m : Exec Task A) (f : A → Exec Task B)
      → TaskTriple P m Q E
      → ((a : A) → TaskTriple (Q a) (f a) R E)
      → TaskTriple P (m >>= f) R E
  TaskTriple-bind Q m f tm tf = record { at = λ s p. go (m s).0 (m s).1 (tm.at s p) }
    where
      go :
          (r : Result A) (s : Task)
          → Post (λ a. Q a s.order) (E s.order) r s.world.db
          → Post
              (λ b. R b (continue r f s).1.order)
              (E (continue r f s).1.order)
              (continue r f s).0
              (continue r f s).1.world.db
      go (ok a) s q = (tf a).at s q
      go (err e) s q = q
