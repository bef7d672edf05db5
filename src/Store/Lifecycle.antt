-- ===== src/Store/Lifecycle.antt =====
-- src/harness/store.py: `transition`, `create_task` and `get_task`.
-- `_jsonable` only spells a row as JSON, so the row itself is the answer.
use Prim.Native.String.{◌++◌ as ◌++ₛ◌}
use harness_golden_path.Prelude.{
  ℕ, String, Bool, true, false, Option, none, some, List, [], ◌∷◌, ◌++◌, ◌=s=◌, any, find,
}
use harness_golden_path.Contracts.{TaskStatus, ready, status_value, role_value}
use harness_golden_path.Contracts.Models.{TaskCard}
use harness_golden_path.Contracts.Events.{task_created, status_changed, text}
use harness_golden_path.Store.Tables.{Task, State}
use harness_golden_path.Store.Txn.{
  task_not_found, vanished, unique_violation, index_error, Result, Txn, on_row, pure, raise_if,
  gets, modify, or_raise, with_connect, ◌>>=◌, ◌>>◌,
}
use harness_golden_path.Store.Actions.{Env, by_id, find_task, after, event, set_status}

-- `transition`
unfoldable pub transition_txn : Env → ℕ → TaskStatus → String → Txn Task
unfolding event status_value
transition_txn env task_id target reason = do
  found ← gets (find_task task_id)
  task ← or_raise found task_not_found
  set_status task_id task.status target
  event env task.task_id task.correlation_id status_changed (
      ("from", text (status_value task.status))
      ∷ ("to", text (status_value target))
      ∷ ("reason", text reason)
      ∷ [])
  after ← gets (find_task task_id)
  or_raise after vanished

unfoldable pub transition : Env → ℕ → TaskStatus → String → State → Result Task × State
unfolding transition_txn
transition env task_id target reason = with_connect (transition_txn env task_id target reason)

abbrev pub by_idempotency_key : String → Task → Bool
by_idempotency_key key t = t.idempotency_key =s= key

-- `default_route[0]`
abbrev pub first_route : List String → Option String
first_route [] = none
first_route (ref ∷ _) = some ref

-- the row that `create_task` inserts: the columns that it names, and the defaults of the others
abbrev pub new_task : Env → TaskCard → String → Task
new_task env card ref = record {
  task_id = card.task_id;
  correlation_id = card.correlation_id;
  title = card.title;
  project = card.project;
  owner_role = role_value card.owner_role;
  status = ready;
  card = card;
  idempotency_key = card.idempotency_key;
  approval_required = card.approval_required;
  owner_instance = none;
  claimed_at = none;
  heartbeat_at = none;
  lease_expires_at = none;
  attempt_count = 0;
  created_at = env.now;
  next_attempt_at = none;
  last_failure_class = none;
  circuit_key = some ("route:" ++ₛ ref);
}

-- INSERT INTO agent_tasks: the primary key is checked
unfoldable pub insert_row : Env → TaskCard → String → Txn (Unit {0})
insert_row env card ref = do
  taken ← gets (λ db. any (by_id card.task_id) db.tasks)
  raise_if taken unique_violation
  modify (λ db. record db { tasks = db.tasks ++ new_task env card ref ∷ [] })

-- the branch of `create_task` with no conflict
abbrev pub insert_task : Env → TaskCard → String → Txn (Task × Bool)
insert_task env card ref = do
  insert_row env card ref
  event env card.task_id card.correlation_id task_created
      (("title", text card.title) ∷ ("project", text card.project) ∷ [])
  pure (new_task env card ref, true)

-- `create_task`; ON CONFLICT (idempotency_key) DO NOTHING, and then the row in conflict, which is
-- there, since nothing runs between the two statements
unfoldable pub create_task_txn : Env → TaskCard → Txn (Task × Bool)
unfolding event
create_task_txn env card = do
  ref ← or_raise (first_route card.model_routing.default_route) index_error
  found ← gets (λ db. find (by_idempotency_key card.idempotency_key) db.tasks)
  on_row found (λ existing. pure (existing, false)) (insert_task env card ref)

unfoldable pub create_task : Env → TaskCard → State → Result (Task × Bool) × State
unfolding create_task_txn
create_task env card = with_connect (create_task_txn env card)

-- `get_task`
unfoldable pub get_task : ℕ → State → Result Task × State
get_task task_id = with_connect do found ← gets (find_task task_id); or_raise found task_not_found
