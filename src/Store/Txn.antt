-- ===== src/Store/Txn.antt =====
-- A transaction: `with self._connect() as conn`. psycopg commits at the end of the block and rolls
-- back when an exception leaves it. Transactions are atomic and run one after another: the store
-- takes row locks (`FOR UPDATE`, `UPDATE`) before it decides.
use harness_golden_path.Prelude.{Bool, true, false, Option, none, some, List, [], ◌∷◌}
use harness_golden_path.Contracts.{TaskStatus}
use harness_golden_path.Store.Tables.{Db, Sequences, State}

-- One constructor for each place of store.py that raises, with its exception class. The last three
-- are psycopg's on a primary key, pydantic's on an event, and Python's on `default_route[0]`.
pub data StoreError : Type 0 where
  -- NotFoundError
  task_not_found approval_not_found : StoreError
  -- OwnershipError
  heartbeat_rejected report_from_non_owner receipt_from_non_owner : StoreError
  -- TransitionError
  not_allowed : TaskStatus → TaskStatus → StoreError
  concurrent_change : StoreError
  report_not_allowed receipt_not_allowed : TaskStatus → StoreError
  -- StoreError
  correlation_mismatch circuit_mismatch invalid_decision already_decided vanished lost_existing :
      StoreError
  unique_violation invalid_event index_error : StoreError

pub data Result {ℓ} (A : Type ℓ) : Type ℓ where
  ok : A → Result A
  err : StoreError → Result A

-- `conn`: what is committed, and what the open transaction sees.
pub record Conn : Type 0 where
  pub committed : Db
  pub working : Db
  pub sequences : Sequences

abbrev pub Txn : Type 0 → Type 0
Txn A = Conn → Result A × Conn

-- A new connection sees what is committed.
abbrev pub begin : State → Conn
begin s = record { committed = s.db; working = s.db; sequences = s.sequences }

module _ {A : Type 0} where
  abbrev pub pure : A → Txn A
  pure a c = (ok a, c)

  abbrev pub raise : StoreError → Txn A
  raise e c = (err e, c)

  abbrev pub gets : (Db → A) → Txn A
  gets f c = (ok (f c.working), c)

  abbrev choose : Txn A → Txn A → Conn → Bool → Result A × Conn
  choose m n c true = m c
  choose m n c false = n c

  -- `if test: … else: …`
  abbrev pub branch : Bool → Txn A → Txn A → Txn A
  branch test m n c = choose m n c test

  abbrev pub settle : Conn → Result A → Result A × State
  settle c (ok a) = (ok a, record { db = c.working; sequences = c.sequences })
  settle c (err e) = (err e, record { db = c.committed; sequences = c.sequences })

  abbrev pub with_connect : Txn A → State → Result A × State
  with_connect body s = let (r, c) = body (begin s) in settle c r

  abbrev row_result : StoreError → Option A → Result A
  row_result e none = err e
  row_result e (some row) = ok row

  -- `if row is None: raise e`
  abbrev pub or_raise : Option A → StoreError → Txn A
  or_raise row e c = (row_result e row, c)

module _ {A B : Type 0} where
  abbrev choose_row : (A → Txn B) → Txn B → Conn → Option A → Result B × Conn
  choose_row f n c none = n c
  choose_row f n c (some row) = f row c

  -- `if row is not None: … else: …`
  abbrev pub on_row : Option A → (A → Txn B) → Txn B → Txn B
  on_row row f n c = choose_row f n c row

  abbrev pub continue : (A → Txn B) → Conn → Result A → Result B × Conn
  continue f c (ok a) = f a c
  continue f c (err e) = (err e, c)

infixl 5 ◌>>=◌ ◌>>◌
abbrev pub ◌>>=◌ : {A B : Type 0} → Txn A → (A → Txn B) → Txn B
◌>>=◌ m f c = let (r, c') = m c in continue f c' r

abbrev pub ◌>>◌ : {A B : Type 0} → Txn A → Txn B → Txn B
m >> k = m >>= λ _. k

abbrev pub modify : (Db → Db) → Txn (Unit {0})
modify f c = (ok tt, record c { working = f c.working })

-- `conn.commit()`
abbrev pub commit : Txn (Unit {0})
commit c = (ok tt, record c { committed = c.working })

abbrev raise_result : StoreError → Bool → Result (Unit {0})
raise_result e true = err e
raise_result e false = ok tt

-- `if test: raise e`
abbrev pub raise_if : Bool → StoreError → Txn (Unit {0})
raise_if test e c = (raise_result e test, c)

-- `for row in rows: body(row)`
unfoldable pub for_each : {A : Type 0} → (A → Txn (Unit {0})) → List A → Txn (Unit {0})
for_each body [] = pure tt
for_each body (row ∷ rows) = body row >> for_each body rows
