-- ===== src/Store/Preserve.antt =====
-- Properties of the database that a transaction preserves, in what it has committed and in what it
-- still may roll back; one rule for each way to build a transaction.
use harness_golden_path.Prelude.{
  ◌≡◌, arith, Bool, true, false, Option, none, some, List, [], ◌∷◌, update,
}
use harness_golden_path.Store.Tables.{Db, Task, State}
use harness_golden_path.Store.Txn.{
  StoreError, Result, ok, err, Conn, Txn, pure, raise, raise_if, gets, modify, commit, branch,
  on_row, or_raise, for_each, with_connect, settle, begin, continue, ◌>>=◌,
}
use harness_golden_path.Store.Actions.{update_tasks}

pub record Preserves (C P : Db → Type 0) {A : Type 0} (m : Txn A) : Type 0 where
  pub at : (c : Conn) → C c.committed → P c.working → C (m c).1.committed × P (m c).1.working

module _ {C P : Db → Type 0} {A : Type 0} where
  pub Preserves-pure : (a : A) → Preserves C P (pure a)
  Preserves-pure a = record { at = λ c p q. (p, q) }

  pub Preserves-raise : (e : StoreError) → Preserves C P (raise {A = A} e)
  Preserves-raise e = record { at = λ c p q. (p, q) }

  pub Preserves-gets : (f : Db → A) → Preserves C P (gets f)
  Preserves-gets f = record { at = λ c p q. (p, q) }

  pub Preserves-or_raise : (row : Option A) (e : StoreError) → Preserves C P (or_raise row e)
  Preserves-or_raise row e = record { at = λ c p q. (p, q) }

  pub Preserves-branch :
      (test : Bool) (m n : Txn A)
      → Preserves C P m
      → Preserves C P n
      → Preserves C P (branch test m n)
  Preserves-branch true m n km kn = record { at = km.at }
  Preserves-branch false m n km kn = record { at = kn.at }

module _ {A : Type 0} where
  Preserves-settle :
      (P : Db → Type 0) (r : Result A) (c : Conn)
      → P c.committed
      → P c.working
      → P (settle c r).1.db
  Preserves-settle P (ok a) c p q = q
  Preserves-settle P (err e) c p q = p

  Preserves-raised :
      (C : Db → Type 0) (r : Result A) (c : Conn) (e : StoreError)
      → (settle c r).0 ≡ err e
      → C c.committed
      → C (settle c r).1.db
  Preserves-raised C (ok a) c e h p = absurd (ground arith)
  Preserves-raised C (err e') c e h p = p

  -- A transaction that preserves `P` leaves a state that satisfies it, also when it is rolled back.
  pub Preserves-with_connect :
      {P : Db → Type 0} (m : Txn A) (s : State)
      → Preserves P P m
      → P s.db
      → P (with_connect m s).1.db
  Preserves-with_connect {P} m s k h =
      let both = k.at (begin s) h h in
      Preserves-settle P (m (begin s)).0 (m (begin s)).1 both.0 both.1

  -- When a transaction raises, the database is as its commits left it.
  pub Preserves-rollback :
      (C P : Db → Type 0) (m : Txn A) (s : State) (e : StoreError)
      → Preserves C P m
      → C s.db
      → P s.db
      → (with_connect m s).0 ≡ err e
      → C (with_connect m s).1.db
  Preserves-rollback C P m s e k p q h =
      Preserves-raised C (m (begin s)).0 (m (begin s)).1 e h (k.at (begin s) p q).0

module _ {C P : Db → Type 0} {A B : Type 0} where
  after_result :
      (f : A → Txn B) (r : Result A) (c : Conn)
      → ((a : A) → Preserves C P (f a))
      → C c.committed
      → P c.working
      → C (continue f c r).1.committed × P (continue f c r).1.working
  after_result f (ok a) c k p q = (k a).at c p q
  after_result f (err e) c k p q = (p, q)

  pub Preserves-bind :
      (m : Txn A) (f : A → Txn B)
      → Preserves C P m
      → ((a : A) → Preserves C P (f a))
      → Preserves C P (m >>= f)
  Preserves-bind m f km kf = record {
    at = λ c p q. let h = km.at c p q in after_result f (m c).0 (m c).1 kf h.0 h.1;
  }

  pub Preserves-on_row :
      (row : Option A) (f : A → Txn B) (n : Txn B)
      → ((a : A) → Preserves C P (f a))
      → Preserves C P n
      → Preserves C P (on_row row f n)
  Preserves-on_row none f n kf kn = record { at = kn.at }
  Preserves-on_row (some a) f n kf kn = record { at = (kf a).at }

module _ {C P : Db → Type 0} where
  pub Preserves-commit : ((db : Db) → P db → C db) → Preserves C P commit
  Preserves-commit sync = record { at = λ c p q. (sync c.working q, q) }

  pub Preserves-raise_if : (test : Bool) (e : StoreError) → Preserves C P (raise_if test e)
  Preserves-raise_if test e = record { at = λ c p q. (p, q) }

  pub Preserves-modify : (f : Db → Db) → ((db : Db) → P db → P (f db)) → Preserves C P (modify f)
  Preserves-modify f k = record { at = λ c p q. (p, k c.working q) }

  pub Preserves-update_tasks :
      (test : Task → Bool) (change : Task → Task)
      → ((db : Db) → P db → P (record db { tasks = update test change db.tasks }))
      → Preserves C P (update_tasks test change)
  Preserves-update_tasks test change k = record { at = λ c p q. (p, k c.working q) }

  pub Preserves-for_each :
      {A : Type 0} (body : A → Txn (Unit {0})) (rows : List A)
      → ((a : A) → Preserves C P (body a))
      → Preserves C P (for_each body rows)
  unfolding for_each
  Preserves-for_each body [] k = Preserves-pure tt
  Preserves-for_each body (a ∷ rows) k =
      Preserves-bind (body a) (λ _. for_each body rows) (k a) (λ _. Preserves-for_each body rows k)
