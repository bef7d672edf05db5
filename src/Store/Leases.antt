-- ===== src/Store/Leases.antt =====
-- src/harness/store.py: `claim`, `heartbeat` and `expire_leases`.
use harness_golden_path.Prelude.{
  ℕ, ℤ, pos, negsuc, suc, ◌+◌, ◌-◌, ◌*◌, String, Bool, not, ◌&&◌, ◌||◌, Option, none, some, List,
  [], ◌∷◌, fetchone, opt_is, is_some,
}
use harness_golden_path.Contracts.{ready, claimed, recovery_required, ◌is◌}
use harness_golden_path.Contracts.Events.{
  task_claimed, heartbeat_rejected, lease_expired, text, number,
}
use harness_golden_path.Store.Tables.{Task, Circuit, State}
use harness_golden_path.Store.Txn
use harness_golden_path.Store.Txn.{
  Result, Txn, on_row, for_each, pure, raise, gets, commit, with_connect, ◌>>=◌, ◌>>◌,
}
use harness_golden_path.Store.Actions.{
  Env, by_id, find_task, seconds, before, after, circuit_blocks, update_tasks, event,
  create_recovery_card, is_execution,
}

-- now() + make_interval(mins => n); the request does not bound `n` from below. PostgreSQL fails where `n`
-- does not fit into 32 bits, which is left out.
abbrev pub plus_minutes : ℕ → ℤ → ℕ
plus_minutes now (pos n) = now + seconds (60 * n)
plus_minutes now (negsuc n) = now - seconds (60 * suc n)

-- the WHERE clause of `claim`, without the test on the id
unfoldable pub can_claim : ℕ → List Circuit → Task → Bool
unfolding ◌is◌ circuit_blocks
can_claim now circuits t =
    (t.status is ready)
    && (not (is_some t.lease_expires_at) || before t.lease_expires_at now)
    && not (circuit_blocks now circuits t)

-- the SET clause of `claim`
unfoldable pub take_claim : ℕ → String → String → ℤ → Task → Task
take_claim now owner_role worker_id lease_minutes t = record t {
  status = claimed;
  owner_role = owner_role;
  owner_instance = some worker_id;
  claimed_at = some now;
  heartbeat_at = some now;
  lease_expires_at = some (plus_minutes now lease_minutes);
  attempt_count = t.attempt_count + 1;
}

-- `claim`
unfoldable pub claim_txn : Env → ℕ → String → String → ℤ → Txn (Option Task)
unfolding can_claim take_claim event
claim_txn env task_id owner_role worker_id lease_minutes = do
  circuits ← gets (λ db. db.circuits)
  rows ←
      update_tasks (λ t. by_id task_id t && can_claim env.now circuits t)
        (take_claim env.now owner_role worker_id lease_minutes)
  on_row (fetchone rows)
      (λ row. do
        event env row.task_id row.correlation_id task_claimed
            (("worker", text worker_id) ∷ ("attempt", number row.attempt_count) ∷ [])
        pure (some row))
      (pure none)

unfoldable pub claim : Env → ℕ → String → String → ℤ → State → Result (Option Task) × State
unfolding claim_txn
claim env task_id owner_role worker_id lease_minutes =
    with_connect (claim_txn env task_id owner_role worker_id lease_minutes)

-- the WHERE clause of `heartbeat`, without the test on the id
unfoldable pub holds_lease : ℕ → String → Task → Bool
holds_lease now worker_id t =
    opt_is t.owner_instance worker_id && is_execution t.status && after t.lease_expires_at now

-- the SET clause of `heartbeat`
unfoldable pub renew : ℕ → ℤ → Task → Task
renew now lease_minutes t = record t {
  heartbeat_at = some now;
  lease_expires_at = some (plus_minutes now lease_minutes);
}

-- `heartbeat`; the audit event is committed before the exception ends the transaction
unfoldable pub heartbeat_txn : Env → ℕ → String → ℤ → Txn Task
unfolding holds_lease renew event
heartbeat_txn env task_id worker_id lease_minutes = do
  rows ←
      update_tasks (λ t. by_id task_id t && holds_lease env.now worker_id t)
        (renew env.now lease_minutes)
  on_row (fetchone rows) pure do
    found ← gets (find_task task_id)
    on_row found
        (λ task.
          event env task.task_id task.correlation_id heartbeat_rejected
            (("worker", text worker_id) ∷ []))
        (pure tt)
    commit
    raise Txn.heartbeat_rejected

unfoldable pub heartbeat : Env → ℕ → String → ℤ → State → Result Task × State
unfolding heartbeat_txn
heartbeat env task_id worker_id lease_minutes =
    with_connect (heartbeat_txn env task_id worker_id lease_minutes)

-- the WHERE clause of `expire_leases`
unfoldable pub lease_expired_at : ℕ → Task → Bool
lease_expired_at now t = is_execution t.status && before t.lease_expires_at now

-- the SET clause of `expire_leases`
unfoldable pub to_recovery : Task → Task
to_recovery t = record t { status = recovery_required }

-- one round of the loop of `expire_leases`
unfoldable pub recover_row : Env → Task → Txn (Unit {0})
unfolding event create_recovery_card
recover_row env row = do
  event env row.task_id row.correlation_id lease_expired (("action", text "recovery_required") ∷ [])
  create_recovery_card env row "lease_expired"
      "Lease expired; execution outcome and side effects are unknown."
  pure tt

-- `expire_leases`
unfoldable pub expire_leases_txn : Env → Txn (List Task)
unfolding lease_expired_at to_recovery recover_row for_each
expire_leases_txn env = do
  rows ← update_tasks (lease_expired_at env.now) to_recovery
  for_each (recover_row env) rows
  pure rows

unfoldable pub expire_leases : Env → State → Result (List Task) × State
unfolding expire_leases_txn
expire_leases env = with_connect (expire_leases_txn env)
