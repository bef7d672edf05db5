-- ===== src/Store/Heartbeat.antt =====
-- `heartbeat` of src/harness/store.py: who may renew a lease, and what a refusal leaves behind.
use harness_golden_path.Prelude.{
  ℕ, ℤ, pos, negsuc, ◌+◌, ◌-◌, ◌*◌, ◌≡◌, ◌∙◌, ap, refl, String, Bool-cases, true, false, inl, inr,
  ◌⊎◌, ◌<◌, ◌&&◌, Option-cases, some, [], ◌∷◌, ◌++◌, arith, opt_is, opt_is_iff,
}
use harness_golden_path.Contracts.{claimed, in_progress}
use harness_golden_path.Contracts.Events.{heartbeat_rejected, text}
use harness_golden_path.Store.Tables.{Task, Event, State}
use harness_golden_path.Store.Txn
use harness_golden_path.Store.Txn.{Result, ok, err}
use harness_golden_path.Store.Actions.{Env, by_id, find_task}
use harness_golden_path.Store.Leases.{plus_minutes, holds_lease, renew, heartbeat}
use harness_golden_path.Store.Rows.{
  UniqueIds, find-id, find-update, fetchone-returning, update_refused,
}

-- The event that records a refused heartbeat.
abbrev refusal : Env → ℕ → String → Task → Event
refusal env id worker t = record {
  event_id = id;
  task_id = t.task_id;
  correlation_id = t.correlation_id;
  event_type = heartbeat_rejected;
  payload = ("worker", text worker) ∷ [];
  created_at = env.now;
}

module _ (env : Env) (id : ℕ) (worker : String) (minutes : ℤ) (s : State) {t : Task}
    (unique : UniqueIds s.db.tasks) (found : find_task id s.db ≡ some t) where
  abbrev outcome : Result Task × State
  outcome = heartbeat env id worker minutes s

  heartbeat_renews :
      holds_lease env.now worker t ≡ true
      → (outcome.0 ≡ ok (renew env.now minutes t))
        × (find_task id outcome.1.db ≡ some (renew env.now minutes t))
        × (outcome.1.db.events ≡ s.db.events)
  unfolding heartbeat
  heartbeat_renews h = ground (
    arith,
    fetchone-returning (holds_lease env.now worker) (renew env.now minutes) id s.db.tasks unique
        found,
    find-update (λ u. by_id id u && holds_lease env.now worker u) (renew env.now minutes)
        (λ u. refl) id s.db.tasks,
    find-id id s.db.tasks found,
  )

  heartbeat_refuses :
      holds_lease env.now worker t ≡ false
      → (outcome.0 ≡ err Txn.heartbeat_rejected)
        × (outcome.1.db ≡ record s.db {
          events = s.db.events ++ refusal env (s.sequences.event + 1) worker t ∷ [];
        })
  unfolding heartbeat
  heartbeat_refuses h = ground (
    arith,
    fetchone-returning (holds_lease env.now worker) (renew env.now minutes) id s.db.tasks unique
        found,
    update_refused (holds_lease env.now worker) (renew env.now minutes) id s.db.tasks unique found
        h,
    find-id id s.db.tasks found,
  )

-- What makes a worker the holder of a running lease.
pub record Holds (now : ℕ) (worker : String) (t : Task) : Type 0 where
  pub owns : t.owner_instance ≡ some worker
  pub works : (t.status ≡ claimed) ⊎ (t.status ≡ in_progress)
  pub until : ℕ
  pub lease : t.lease_expires_at ≡ some until
  pub runs : now < until

Holds-sound :
    (now : ℕ) (worker : String) (t : Task) → holds_lease now worker t ≡ true → Holds now worker t
unfolding holds_lease
Holds-sound now worker t h = elim (Option-cases t.lease_expires_at) [
  | inl e ↦ absurd (ground arith)
  | inr (until, e) ↦ record {
    owns = (opt_is_iff t.owner_instance worker).0 (ground arith);
    works = ground arith;
    until = until;
    lease = e;
    runs = ground arith;
  }
]

Holds-complete :
    (now : ℕ) (worker : String) (t : Task) → Holds now worker t → holds_lease now worker t ≡ true
unfolding holds_lease
Holds-complete now worker t h =
    let o : opt_is t.owner_instance worker ≡ true = (opt_is_iff t.owner_instance worker).1 h.owns in
    grind (arith, o, h.works, h.lease, h.runs)

-- When a lease of some minutes from now ends; a time before the epoch counts as the epoch.
abbrev pub lease_end : ℕ → ℤ → ℕ
lease_end now (pos minutes) = now + minutes * 60000000
lease_end now (negsuc n) = now - (n + 1) * 60000000

plus_minutes_lem : (now : ℕ) (minutes : ℤ) → plus_minutes now minutes ≡ lease_end now minutes
plus_minutes_lem now (pos minutes) = omega arith
plus_minutes_lem now (negsuc n) = omega arith

-- The row with a lease that runs some minutes from now on.
abbrev pub renewed : ℕ → ℤ → Task → Task
renewed now minutes t = record t {
  heartbeat_at = some now;
  lease_expires_at = some (lease_end now minutes);
}

renew_lem : (now : ℕ) (minutes : ℤ) (t : Task) → renew now minutes t ≡ renewed now minutes t
unfolding renew
renew_lem now minutes t =
    ap (λ until. record t { heartbeat_at = some now; lease_expires_at = some until })
      (plus_minutes_lem now minutes)

-- Where ids are unique, a heartbeat for a task that is there renews the lease exactly for the
-- worker that holds it: it then ends the asked number of minutes from now, and the row is as it was
-- otherwise. Every other heartbeat raises OwnershipError and leaves every table as it
-- was, except for the log, which keeps the refusal although the call fails.
pub heartbeat_exactly :
    (env : Env) (id : ℕ) (worker : String) (minutes : ℤ) (s : State) {t : Task}
    → UniqueIds s.db.tasks
    → find_task id s.db ≡ some t
    → let (answer, after) = heartbeat env id worker minutes s in
      (Holds env.now worker t
        → (answer ≡ ok (renewed env.now minutes t))
          × (find_task id after.db ≡ some (renewed env.now minutes t))
          × (after.db.events ≡ s.db.events))
      × (¬ Holds env.now worker t
          → (answer ≡ err Txn.heartbeat_rejected)
            × (after.db ≡ record s.db {
              events = s.db.events ++ refusal env (s.sequences.event + 1) worker t ∷ [];
            }))
heartbeat_exactly env id worker minutes s {t} unique found = (
  (λ h.
      let (answered, stored, quiet) =
        heartbeat_renews env id worker minutes s unique found (Holds-complete env.now worker t h) in
      let same = renew_lem env.now minutes t in
      (answered ∙ ap ok same, stored ∙ ap some same, quiet)),
  (λ h. elim (Bool-cases (holds_lease env.now worker t)) [
    | inl held ↦ absurd (h (Holds-sound env.now worker t held))
    | inr free ↦ heartbeat_refuses env id worker minutes s unique found free
  ]),
)
