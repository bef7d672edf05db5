-- ===== src/Store/Retries.antt =====
-- `release_due_retries` of src/harness/store.py.
use harness_golden_path.Prelude.{
  ℕ, ◌+◌, ◌≡◌, ◌≤◌, ◌↔◌, refl, true, false, none, some, Option-cases, inl, inr, List, [], ◌∷◌, any,
  arith, update, returning, length, length-append,
}
use harness_golden_path.Contracts.{ready, retry_wait, ◌is◌}
use harness_golden_path.Store.Claiming.{RouteIsClear, clear_of_unblocked, unblocked_of_clear}
use harness_golden_path.Store.Tables.{Task, Circuit, State}
use harness_golden_path.Store.Txn.{Result, ok, Conn, for_each}
use harness_golden_path.Store.Actions.{Env, event}
use harness_golden_path.Store.Failures.{is_due, release, tell_release, release_due_retries}

record Tells (n : ℕ) (c : Conn) (out : Result (Unit {0}) × Conn) : Type 0 where
  after : Conn
  answered : out ≡ (ok tt, after)
  same_tasks : after.working.tasks ≡ c.working.tasks
  told : length after.working.events ≡ length c.working.events + n

all-Tells :
    (env : Env) (rows : List Task) (c : Conn)
    → Tells (length rows) c (for_each (tell_release env) rows c)
unfolding for_each tell_release event
all-Tells env [] c = record { after = c; answered = refl; same_tasks = refl; told = ground arith }
all-Tells env (row ∷ rows) c =
    let rest = all-Tells env rows _ in
    record {
      after = rest.after;
      answered = rest.answered;
      same_tasks = rest.same_tasks;
      told = omega (arith, rest.told, length-append c.working.events (_ ∷ []));
    }

none_due :
    (now : ℕ) (circuits : List Circuit) (ts : List Task)
    → any (is_due now circuits) (update (is_due now circuits) release ts) ≡ false
unfolding is_due release ◌is◌
none_due now circuits [] = refl
none_due now circuits (t ∷ ts) = ground (arith, none_due now circuits ts)

-- A task whose retry is due, on a route with no open circuit.
pub record IsRetryDue (now : ℕ) (circuits : List Circuit) (t : Task) : Type 0 where
  pub waits : t.status ≡ retry_wait
  pub time : ℕ
  pub planned : t.next_attempt_at ≡ some time
  pub come : time ≤ now
  pub clear : RouteIsClear now t circuits

IsRetryDue-sound :
    (now : ℕ) (circuits : List Circuit) (t : Task)
    → is_due now circuits t ≡ true
    → IsRetryDue now circuits t
unfolding is_due ◌is◌
IsRetryDue-sound now circuits t h = elim (Option-cases t.next_attempt_at) [
  | inl e ↦ absurd (ground arith)
  | inr (time, e) ↦ record {
    waits = ground arith;
    time = time;
    planned = e;
    come = ground arith;
    clear = clear_of_unblocked now t circuits (ground arith);
  }
]

IsRetryDue-complete :
    (now : ℕ) (circuits : List Circuit) (t : Task)
    → IsRetryDue now circuits t
    → is_due now circuits t ≡ true
unfolding is_due ◌is◌
IsRetryDue-complete now circuits t h =
    grind (arith, h.waits, h.planned, h.come, unblocked_of_clear now t circuits h.clear)

is_due_iff :
    (now : ℕ) (circuits : List Circuit) (t : Task)
    → (is_due now circuits t ≡ true) ↔ IsRetryDue now circuits t
is_due_iff now circuits t = (IsRetryDue-sound now circuits t, IsRetryDue-complete now circuits t)

-- The row ready again, with no owner and no retry, and otherwise as it was.
abbrev pub ready_again : Task → Task
ready_again t = record t {
  status = ready;
  next_attempt_at = none;
  owner_instance = none;
  claimed_at = none;
  heartbeat_at = none;
}

-- The rows that `release_due_retries` picks are those whose retry is due, on a route with no open
-- circuit. It makes exactly these ready again, with no owner, and answers them so. No other row
-- changes, none that is due is left, and the log grows by one event for each.
pub release_complete :
    (env : Env) (s : State)
    → let (answer, after) = release_due_retries env s in
      let due = is_due env.now s.db.circuits in
      let rows = returning due ready_again s.db.tasks in
      ((t : Task) → (due t ≡ true) ↔ IsRetryDue env.now s.db.circuits t)
      × (answer ≡ ok rows)
      × (after.db.tasks ≡ update due ready_again s.db.tasks)
      × (any due after.db.tasks ≡ false)
      × (length after.db.events ≡ length s.db.events + length rows)
unfolding release_due_retries release
release_complete env s =
    let due = is_due env.now s.db.circuits in
    let rows = returning due release s.db.tasks in
    let c : Conn = record {
      committed = s.db;
      working = record s.db { tasks = update due release s.db.tasks };
      sequences = s.sequences;
    } in
    let all = all-Tells env rows c in
    rw (all.answered) (
      is_due_iff env.now s.db.circuits,
      refl,
      all.same_tasks,
      rw all.same_tasks (none_due env.now s.db.circuits s.db.tasks),
      all.told,
    )
