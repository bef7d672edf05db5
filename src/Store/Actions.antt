-- ===== src/Store/Actions.antt =====
-- src/harness/store.py: the helpers `_event`, `_create_recovery_card`, `_record_dead_letter`,
-- `_record_circuit_failure` and `_set_status`, on an open transaction.
use harness_golden_path.Prelude.{
  ℕ, ◌+◌, ◌*◌, String, Bool, true, false, not, ◌&&◌, Option, none, some, List, [], ◌∷◌, ◌++◌, ◌==◌,
  ◌=s=◌, opt_is, ltb, leb, any, find, update, returning, length, or_else, if◌then◌else◌,
}
use harness_golden_path.Contracts.{
  TaskStatus, claimed, in_progress, ◌is◌, may_move, FailureClass, failure_value,
}
use harness_golden_path.Contracts.Models.{FailureReport}
use harness_golden_path.Contracts.Events.{
  HarnessEventType, recovery_card_created, dead_letter_created, Payload, text, number, texts, uuid,
  payload_fits,
}
use harness_golden_path.Resilience.{circuit_failure_threshold, circuit_cooldown_seconds}
use harness_golden_path.Store.Tables.{
  Task, Event, CircuitState, closed, opened, Circuit, DeadLetter, RecoveryCard, Db,
}
use harness_golden_path.Store.Txn.{
  not_allowed, concurrent_change, vanished, unique_violation, invalid_event, ok, Txn, branch, pure,
  raise, raise_if, gets, modify, or_raise, ◌>>=◌, ◌>>◌,
}

-- What a transaction reads of its surroundings: `now()`, which PostgreSQL fixes at its start, and
-- the identifiers of Python's `uuid4`.
pub record Env : Type 0 where
  pub now : ℕ
  pub uuid4 : ℕ → ℕ

-- make_interval(secs => n), in microseconds
abbrev pub seconds : ℕ → ℕ
seconds n = n * 1000000

abbrev pub by_id : ℕ → Task → Bool
by_id task_id t = t.task_id == task_id

-- SELECT * FROM agent_tasks WHERE task_id = %s
abbrev pub find_task : ℕ → Db → Option Task
find_task task_id db = find (by_id task_id) db.tasks

-- `value < now()`, `value > now()` and `value <= now()`, which NULL fails
abbrev pub before : Option ℕ → ℕ → Bool
before none now = false
before (some t) now = ltb t now

abbrev pub after : Option ℕ → ℕ → Bool
after none now = false
after (some t) now = ltb now t

abbrev pub reached : Option ℕ → ℕ → Bool
reached none now = false
reached (some t) now = leb t now

abbrev pub is_open : CircuitState → Bool
is_open closed = false
is_open opened = true

-- SELECT 1 FROM circuit_breakers WHERE circuit_key = … AND state = 'open' AND open_until > now()
unfoldable pub circuit_blocks : ℕ → List Circuit → Task → Bool
circuit_blocks now circuits t =
    any (λ c. opt_is t.circuit_key c.circuit_key && is_open c.state && after c.open_until now)
      circuits

-- UPDATE agent_tasks SET … WHERE … RETURNING *
abbrev pub update_tasks : (Task → Bool) → (Task → Task) → Txn (List Task)
update_tasks test change c = (
  ok (returning test change c.working.tasks),
  record c { working = record c.working { tasks = update test change c.working.tasks } },
)

-- INSERT INTO agent_events, with the next `event_id` of its sequence
unfoldable pub insert_event : Env → ℕ → ℕ → HarnessEventType → Payload → Txn (Unit {0})
insert_event env task_id correlation_id event_type payload c =
    let id = c.sequences.event + 1 in
    let row : Event = record {
      event_id = id;
      task_id = task_id;
      correlation_id = correlation_id;
      event_type = event_type;
      payload = payload;
      created_at = env.now;
    } in
    (
      ok tt,
      record c {
        working = record c.working { events = c.working.events ++ row ∷ [] };
        sequences = record c.sequences { event = id };
      },
    )

-- `_event`
unfoldable pub event : Env → ℕ → ℕ → HarnessEventType → Payload → Txn (Unit {0})
unfolding payload_fits insert_event
event env task_id correlation_id event_type payload = do
  raise_if (not (payload_fits event_type payload)) invalid_event
  insert_event env task_id correlation_id event_type payload

-- `uuid4()`
abbrev draw : Env → Txn ℕ
draw env c = (
  ok (env.uuid4 c.sequences.drawn),
  record c { sequences = record c.sequences { drawn = c.sequences.drawn + 1 } },
)

abbrev pub allowed_actions : List String
allowed_actions = "inspect_read_only" ∷ "confirm_side_effect" ∷ "request_human_decision" ∷ []

-- INSERT INTO recovery_cards: the primary key is checked
unfoldable pub insert_card : RecoveryCard → Txn (Unit {0})
insert_card card = do
  taken ← gets (λ db. any (λ r. r.recovery_id == card.recovery_id) db.recovery_cards)
  raise_if taken unique_violation
  modify (λ db. record db { recovery_cards = db.recovery_cards ++ card ∷ [] })

-- `_create_recovery_card`
unfoldable pub create_recovery_card : Env → Task → String → String → Txn ℕ
unfolding insert_card event
create_recovery_card env task trigger reason = do
  recovery_id ← draw env
  insert_card (record {
    recovery_id = recovery_id;
    task_id = task.task_id;
    correlation_id = task.correlation_id;
    trigger = trigger;
    reason = reason;
    allowed_actions = allowed_actions;
    created_at = env.now;
  })
  event env task.task_id task.correlation_id recovery_card_created (
      ("recovery_id", uuid recovery_id)
      ∷ ("trigger", text trigger)
      ∷ ("allowed_actions", texts allowed_actions)
      ∷ [])
  pure recovery_id

-- INSERT INTO dead_letters … RETURNING dead_letter_id
unfoldable pub insert_dead_letter : Env → Task → FailureReport → String → Txn ℕ
insert_dead_letter env task report reason c =
    let id = c.sequences.dead_letter + 1 in
    let row : DeadLetter = record {
      dead_letter_id = id;
      task_id = task.task_id;
      correlation_id = task.correlation_id;
      failure_class = report.failure_class;
      reason = reason;
      payload = report;
      created_at = env.now;
      resolved_at = none;
    } in
    (
      ok id,
      record c {
        working = record c.working { dead_letters = c.working.dead_letters ++ row ∷ [] };
        sequences = record c.sequences { dead_letter = id };
      },
    )

-- `_record_dead_letter`
unfoldable pub record_dead_letter : Env → Task → FailureReport → String → Txn ℕ
unfolding insert_dead_letter event failure_value
record_dead_letter env task report reason = do
  dead_letter_id ← insert_dead_letter env task report reason
  event env task.task_id task.correlation_id dead_letter_created (
      ("dead_letter_id", number dead_letter_id)
      ∷ ("failure_class", text (failure_value report.failure_class))
      ∷ [])
  pure dead_letter_id

abbrev pub by_key : String → Circuit → Bool
by_key key c = c.circuit_key =s= key

-- ON CONFLICT (circuit_key) DO UPDATE SET …
unfoldable pub count_failure : Env → FailureClass → Circuit → Circuit
count_failure env failure_class c = record c {
  failure_count = c.failure_count + 1;
  last_failure_class = some failure_class;
  updated_at = env.now;
}

-- the second UPDATE of `_record_circuit_failure`
unfoldable pub open_circuit : Env → Circuit → Circuit
open_circuit env c = record c {
  state = opened;
  opened_at = some (or_else c.opened_at env.now);
  open_until = some (env.now + seconds circuit_cooldown_seconds);
  updated_at = env.now;
}

abbrev pub new_circuit : Env → String → FailureClass → Circuit
new_circuit env key failure_class = record {
  circuit_key = key;
  state = closed;
  failure_count = 1;
  failure_threshold = circuit_failure_threshold;
  opened_at = none;
  open_until = none;
  last_failure_class = some failure_class;
  updated_at = env.now;
}

abbrev pub upsert_circuit : Env → String → FailureClass → List Circuit → List Circuit
upsert_circuit env key failure_class circuits =
    if any (by_key key) circuits
    then update (by_key key) (count_failure env failure_class) circuits
    else circuits ++ new_circuit env key failure_class ∷ []

-- `_record_circuit_failure`
unfoldable pub record_circuit_failure : Env → String → FailureClass → Txn Circuit
unfolding count_failure open_circuit
record_circuit_failure env key failure_class = do
  modify (λ db. record db { circuits = upsert_circuit env key failure_class db.circuits })
  found ← gets (λ db. find (by_key key) db.circuits)
  row ← or_raise found vanished
  branch (ltb row.failure_count row.failure_threshold) (pure row) do
    modify (λ db. record db { circuits = update (by_key key) (open_circuit env) db.circuits })
    pure (open_circuit env row)

-- `target in _EXECUTION_STATES`
abbrev pub is_execution : TaskStatus → Bool
is_execution claimed = true
is_execution in_progress = true
is_execution _ = false

-- the SET clause: leaving the execution states frees the lease
unfoldable pub with_status : TaskStatus → Task → Task
with_status target t =
    if is_execution target
    then record t { status = target }
    else record t { status = target; lease_expires_at = none }

-- `_set_status`; `cur.rowcount` is the number of rows that were updated
unfoldable pub set_status : ℕ → TaskStatus → TaskStatus → Txn (Unit {0})
unfolding with_status may_move ◌is◌
set_status task_id expected target =
    branch (may_move expected target)
      (do
        rows ← update_tasks (λ t. by_id task_id t && (t.status is expected)) (with_status target)
        raise_if (not (length rows == 1)) concurrent_change)
      (raise (not_allowed expected target))
